-- ===== src/Schema/Differ/Itself.antt =====
-- A schema has no difference from itself.
use uql.Base.{
  All-filter, and_false, String, Bool, true, false, ◌&&◌, not, List, [], ◌∷◌, Option, none,
  if◌then◌else◌, ◌==◌, string_eq, ==_refl, any, filter, map, flat_map, ◌≡◌, refl, ap, All, All-map,
}
use uql.Text.{text_eq}
use uql.Schema.CanonicalType.Compare.{are_types_equal_refl, xor_same}
use uql.Schema.Match.Itself.{twice, match_by_key-itself}
use uql.Schema.Nodes.{ColumnNode, RelationshipNode, TableNode, SchemaAst, SchemaDiffResult}
use uql.Schema.Differ.{
  DiffOptions, present, is_owned_name, diff_owned, same_columns, key_columns, diff_relationship,
  diff_relationship_nodes, relationship_key, action_of, diff_primary_key, type_changed, facets_of,
  diff_column, diff_table_columns, diff_table, match_tables, diff_schemas,
}

-- The result that reports no change.
abbrev pub no_changes : (D : Type 0) → SchemaDiffResult D
no_changes D = record {
  tables = [];
  columns = [];
  checks = [];
  triggers = [];
  primary_keys = [];
  relationships = [];
}

-- Checks and triggers under the names that uql installs them by.
abbrev pub Installs : {D : Type 0} → TableNode D → Type 0
Installs t =
    All (λ c. is_owned_name c.name ≡ true) t.checks
    × All (λ c. is_owned_name c.name ≡ true) t.triggers

filter_every :
    {A : Type 0} (p : A → Bool) (xs : List A) → All (λ x. p x ≡ true) xs → filter p xs ≡ xs
filter_every p [] h = refl
filter_every p (x ∷ xs) (e, h) = rw e (ap (λ l. x ∷ l) (filter_every p xs h))

present-twice :
    {A B : Type 0} (f : A × A → Option B) (xs : List A)
    → All (λ x. f (twice x) ≡ none) xs
    → present (map f (map twice xs)) ≡ []
unfolding flat_map
present-twice f [] h = refl
present-twice f (x ∷ xs) (e, h) = rw e (present-twice f xs h)

All-each : {A : Type 0} (P : A → Type 0) → ((x : A) → P x) → (xs : List A) → All P xs
All-each P f [] = tt
All-each P f (x ∷ xs) = (f x, All-each P f xs)

same_columns_refl : (xs : List String) → same_columns xs xs ≡ true
same_columns_refl [] = refl
same_columns_refl (x ∷ xs) = rw (==_refl x) (same_columns_refl xs)

diff_relationship_itself : (r : RelationshipNode) → diff_relationship r r ≡ none
unfolding diff_relationship
diff_relationship_itself r =
    rw (==_refl (action_of r.on_delete), ==_refl (action_of r.on_update)) refl

diff_relationship_nodes_itself : (rs : List RelationshipNode) → diff_relationship_nodes rs rs ≡ []
unfolding diff_relationship_nodes
diff_relationship_nodes_itself rs =
    rw (match_by_key-itself relationship_key rs)
      (present-twice (λ p. diff_relationship p.0 p.1) rs (All-each _ diff_relationship_itself rs))

diff_owned_itself :
    {T : Type 0} (name_of : T → String) (table : String) (xs : List T)
    → All (λ x. is_owned_name (name_of x) ≡ true) xs
    → diff_owned name_of table xs xs ≡ []
unfolding diff_owned
diff_owned_itself name_of table xs h =
    rw (filter_every (λ x. is_owned_name (name_of x)) xs h, match_by_key-itself name_of xs) refl

neither_way : (b : Bool) → (if b then false else false) ≡ false
neither_way true = refl
neither_way false = refl

module _ {D : Type 0} (opts : DiffOptions D)
    (reflects : (o : Option D) → opts.defaults_equal o o ≡ true) where
  type_changed_itself : (c : ColumnNode D) → type_changed opts c c ≡ false
  unfolding type_changed
  type_changed_itself c =
      rw (are_types_equal_refl (opts.normalize_type c.type), xor_same c.type.unsigned)
        (neither_way (c.is_auto_increment && c.is_auto_increment))

  facets_of_itself : (c : ColumnNode D) → facets_of opts c c ≡ []
  unfolding facets_of
  facets_of_itself c =
      rw
        (
          type_changed_itself c,
          xor_same c.nullable,
          reflects c.default_value,
          and_false (not (c.is_primary_key && c.is_primary_key)),
        )
        refl

  diff_column_itself : (table : String) (c : ColumnNode D) → diff_column opts table c c ≡ none
  unfolding diff_column
  diff_column_itself table c = rw (facets_of_itself c) refl

  diff_table_columns_itself : (t : TableNode D) → diff_table_columns opts t t ≡ []
  unfolding diff_table_columns
  diff_table_columns_itself t =
      rw (match_by_key-itself {K = String} (λ (c : ColumnNode D). c.name) t.columns) (
        present-twice (λ p. diff_column opts t.name p.0 p.1) t.columns
          (All-each _ (diff_column_itself t.name) t.columns))

  diff_table_itself : (t : TableNode D) → Installs t → diff_table opts t t ≡ none
  unfolding diff_table diff_primary_key
  diff_table_itself t (c, g) =
      rw
        (
          diff_table_columns_itself t,
          diff_owned_itself (λ x. x.name) t.name t.checks c,
          diff_owned_itself (λ x. x.name) t.name t.triggers g,
          same_columns_refl (key_columns t.primary_key),
        )
        refl

  included : List (TableNode D) → List (TableNode D)
  included ts = filter (λ t. not (any (λ n. n == t.name) opts.exclude_tables)) ts

  match_tables_itself :
      (s : SchemaAst D)
      → match_tables opts s s
        ≡ record { created = []; dropped = []; matched = map twice (included s.tables) }
  unfolding match_tables included
  match_tables_itself s =
      match_by_key-itself {K = String} (λ (t : TableNode D). t.name)
        (filter (λ t. not (any (λ n. n == t.name) opts.exclude_tables)) s.tables)

  altered_itself :
      (ts : List (TableNode D))
      → All Installs ts
      → present (map (λ p. diff_table opts p.0 p.1) (map twice ts)) ≡ []
  altered_itself ts h =
      present-twice (λ p. diff_table opts p.0 p.1) ts (All-map diff_table_itself ts h)

  -- Compared with itself, a schema whose checks and triggers are uql's own shows no change, where each
  -- default equals itself.
  pub diff_schemas_itself :
      (s : SchemaAst D) → All Installs s.tables → diff_schemas opts s s ≡ no_changes D
  unfolding diff_schemas included flat_map
  diff_schemas_itself s h =
      rw
        (
          match_tables_itself s,
          diff_relationship_nodes_itself s.relationships,
          altered_itself (included s.tables) (All-filter Installs _ s.tables h),
        )
        refl
