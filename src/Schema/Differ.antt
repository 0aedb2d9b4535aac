-- ===== src/Schema/Differ.antt =====
-- packages/orm/src/schema/schemaASTDiffer.ts: how the entities' schema, the source, and the database's,
-- the target, differ.
pub mod Agreement
pub mod Itself
use mathlib.Core.Bool.{xor}
use mathlib.Core.Option
use uql.Base.{
  ℕ, String, Bool, true, false, ◌&&◌, ◌||◌, not, List, [], ◌∷◌, ◌++◌, Option, none, some,
  if◌then◌else◌, ◌==◌, string_eq, nat_eq, Equal, any, filter, map, flat_map, length, is_some, sort,
  ltb,
}
use uql.Text.{Text, codes, text_eq, starts_with_text, before_text}
use uql.Migrate.SchemaChange.{list_of}
use uql.Migrate.SchemaChange.Diff.{PrimaryKeySchema, CheckSchema, TriggerSchema}
use uql.Schema.CanonicalType.{CanonicalType, are_types_equal, is_breaking_type_change}
use uql.Schema.Match.{Matches, match_by_key}
use uql.Schema.Nodes.{
  ColumnNode, RelationEnd, RelationshipNode, TableNode, SchemaAst, ColumnFacet, type_facet,
  nullable_facet, default_facet, NodeChange, ColumnDiff, TableChange, RelationshipDiff, TableDiff,
  SchemaDiffResult,
}

-- `Required<DiffOptions>`, where `D` is the type of a default.
pub record DiffOptions (D : Type 0) : Type 0 where
  pub exclude_tables : List String
  pub normalize_type : CanonicalType → CanonicalType
  pub defaults_equal : Option D → Option D → Bool

abbrev pub adds : {T : Type 0} → T → NodeChange T
adds x = record { from = none; to = some x }

abbrev pub drops : {T : Type 0} → T → NodeChange T
drops x = record { from = some x; to = none }

abbrev pub alters : {T : Type 0} → T → T → NodeChange T
alters x y = record { from = some x; to = some y }

-- The items that are not `undefined`: `.filter((diff) => diff !== undefined)`.
abbrev pub present : {T : Type 0} → List (Option T) → List T
present xs = flat_map list_of xs

-- `isOwnedName` of packages/orm/src/util/sql.util.ts.
unfoldable pub is_owned_name : String → Bool
is_owned_name name = starts_with_text (codes "_uql_") (codes name)

module _ {T : Type 0} (name_of : T → String) where
  unfoldable pub diff_owned : String → List T → List T → List (TableChange T)
  diff_owned table declared installed =
      let owned = filter (λ it. is_owned_name (name_of it)) installed in
      let split = match_by_key declared owned name_of name_of in
      map (λ x. record { table = table; change = adds x }) split.created
      ++ map (λ x. record { table = table; change = drops x }) split.dropped

abbrev pub same_columns : List String → List String → Bool
same_columns [] [] = true
same_columns (x ∷ xs) (y ∷ ys) = x == y && same_columns xs ys
same_columns _ _ = false

abbrev pub key_columns : Option PrimaryKeySchema → List String
key_columns none = []
key_columns (some key) = key.columns

abbrev pub facet_if : Bool → ColumnFacet → List ColumnFacet
facet_if b facet = if b then facet ∷ [] else []

-- `rel.onDelete ?? DEFAULT_FOREIGN_KEY_ACTION`
abbrev pub action_of : Option String → String
action_of none = "NO ACTION"
action_of (some action) = action

abbrev pub column_pairs : List String → List String → List Text
column_pairs (c ∷ cs) (d ∷ ds) = (codes c ++ b'>' ∷ codes d) ∷ column_pairs cs ds
column_pairs _ _ = []

abbrev pub joined_by_comma : List Text → Text
joined_by_comma [] = []
joined_by_comma (t ∷ []) = t
joined_by_comma (t ∷ u ∷ ts) = t ++ b',' ∷ joined_by_comma (u ∷ ts)

unfoldable pub relationship_key : RelationshipNode → Text
relationship_key rel =
    codes rel.from.table
    ++ b'-'
      ∷ b'>'
      ∷ (codes rel.to.table
          ++ b':'
            ∷ joined_by_comma (sort before_text (column_pairs rel.from.columns rel.to.columns)))

abbrev pub relation_diff : RelationshipNode → NodeChange RelationshipNode → RelationshipDiff
relation_diff rel change = record { name = rel.name; from_table = rel.from.table; change = change }

unfoldable pub diff_relationship : RelationshipNode → RelationshipNode → Option RelationshipDiff
diff_relationship source target =
    if not (action_of source.on_delete == action_of target.on_delete)
      || not (action_of source.on_update == action_of target.on_update)
    then some (relation_diff source (alters target source))
    else none

unfoldable pub diff_relationship_nodes :
    List RelationshipNode → List RelationshipNode → List RelationshipDiff
diff_relationship_nodes source target =
    let split = match_by_key source target relationship_key relationship_key in
    map (λ r. relation_diff r (adds r)) split.created
    ++ (map (λ r. relation_diff r (drops r)) split.dropped
        ++ present (map (λ p. diff_relationship p.0 p.1) split.matched))

module _ {D : Type 0} where
  unfoldable pub diff_primary_key :
      TableNode D → TableNode D → Option (TableChange PrimaryKeySchema)
  diff_primary_key source target =
      if same_columns (key_columns source.primary_key) (key_columns target.primary_key)
      then none
      else some (record {
        table = source.name;
        change = record { from = target.primary_key; to = source.primary_key };
      })

  abbrev pub unless_empty : TableDiff D → Option (TableDiff D)
  unless_empty d =
      if ltb 0 (length d.columns)
        || ltb 0 (length d.checks)
        || ltb 0 (length d.triggers)
        || is_some d.primary_key
      then some d
      else none

module _ {D : Type 0} (opts : DiffOptions D) where
  unfoldable pub type_changed : ColumnNode D → ColumnNode D → Bool
  type_changed source target =
      if source.is_auto_increment && target.is_auto_increment
      then xor source.type.unsigned target.type.unsigned
      else not (are_types_equal (opts.normalize_type source.type) (opts.normalize_type target.type))

  unfoldable pub facets_of : ColumnNode D → ColumnNode D → List ColumnFacet
  facets_of source target =
      facet_if (type_changed source target) type_facet
      ++ (facet_if
            (not (source.is_primary_key && target.is_primary_key)
              && xor source.nullable target.nullable)
            nullable_facet
          ++ facet_if (not (opts.defaults_equal source.default_value target.default_value))
              default_facet)

  abbrev pub diff_of :
      String → ColumnNode D → ColumnNode D → List ColumnFacet → Option (ColumnDiff D)
  diff_of table source target [] = none
  diff_of table source target (facet ∷ facets) = some (record {
    table = table;
    column = source.name;
    change = alters target source;
    changed = facet ∷ facets;
    is_breaking =
        type_changed source target
        && is_breaking_type_change (opts.normalize_type target.type)
            (opts.normalize_type source.type);
  })

  unfoldable pub diff_column : String → ColumnNode D → ColumnNode D → Option (ColumnDiff D)
  diff_column table source target = diff_of table source target (facets_of source target)

  unfoldable pub diff_table_columns : TableNode D → TableNode D → List (ColumnDiff D)
  diff_table_columns source target =
      let split = match_by_key source.columns target.columns (λ c. c.name) (λ c. c.name) in
      map
        (λ c. record {
          table = source.name;
          column = c.name;
          change = adds c;
          changed = [];
          is_breaking = false;
        })
        split.created
      ++ (map
            (λ c. record {
              table = target.name;
              column = c.name;
              change = drops c;
              changed = [];
              is_breaking = true;
            })
            split.dropped
          ++ present (map (λ p. diff_column source.name p.0 p.1) split.matched))

  unfoldable pub diff_table : TableNode D → TableNode D → Option (TableDiff D)
  diff_table source target = unless_empty (record {
    columns = diff_table_columns source target;
    checks = diff_owned (λ c. c.name) source.name source.checks target.checks;
    triggers = diff_owned (λ t. t.name) source.name source.triggers target.triggers;
    primary_key = diff_primary_key source target;
  })

  unfoldable pub match_tables : SchemaAst D → SchemaAst D → Matches (TableNode D) (TableNode D)
  match_tables desired actual =
      let included : List (TableNode D) → List (TableNode D) =
        filter (λ t. not (any (λ n. n == t.name) opts.exclude_tables)) in
      match_by_key (included desired.tables) (included actual.tables) (λ t. t.name) (λ t. t.name)

  unfoldable pub diff_schemas : SchemaAst D → SchemaAst D → SchemaDiffResult D
  diff_schemas source target =
      let split = match_tables source target in
      let altered = present (map (λ p. diff_table p.0 p.1) split.matched) in
      record {
        tables = map adds split.created ++ map drops split.dropped;
        columns = flat_map (λ d. d.columns) altered;
        checks = flat_map (λ d. d.checks) altered;
        triggers = flat_map (λ d. d.triggers) altered;
        primary_keys = flat_map (λ d. list_of d.primary_key) altered;
        relationships = diff_relationship_nodes source.relationships target.relationships;
      }
