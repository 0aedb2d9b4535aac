-- ===== src/Schema/Differ/Agreement.antt =====
-- What it takes for two tables to show no difference.
use mathlib.Core.Bool.{xor}
use mathlib.Core.List.{Perm, append-nil}
use uql.Base.{
  String, Bool, true, false, ◌&&◌, not, List, [], ◌∷◌, ◌++◌, Option, none, some, if◌then◌else◌,
  ◌==◌, ==_iff, string_eq, filter, map, flat_map, length, is_some, ltb, ◌≡◌, ◌⊎◌, inl, inr, refl,
  ap, ◌∙◌, subst, All, All-map, arith, or_false,
}
use uql.Migrate.SchemaChange.{list_of}
use uql.Schema.CanonicalType.Compare.{are_types_equal-is_breaking_type_change, not-xor}
use uql.Schema.Match.{match_by_key}
use uql.Schema.Match.Splits.{match_by_key-Splits}
use uql.Schema.Nodes.{
  ColumnNode, TableNode, TableDiff, ColumnFacet, type_facet, nullable_facet, default_facet,
}
use uql.Schema.Differ.{
  DiffOptions, present, is_owned_name, diff_owned, same_columns, key_columns, facet_if,
  type_changed, facets_of, diff_of, diff_column, diff_table_columns, diff_primary_key, unless_empty,
  diff_table,
}

-- The items of two lists, in whichever order, in pairs that `R` relates.
abbrev pub PairsOff : {S T : Type 0} → (S → T → Type 0) → List S → List T → Type 0
PairsOff {S} {T} R xs ys =
    (ps : List (S × T)) × Perm xs (map (λ p. p.0) ps)
    × Perm ys (map (λ p. p.1) ps)
    × All (λ p. R p.0 p.1) ps

-- Columns of one name that are the same to the differ.
pub record Agrees {D : Type 0} (opts : DiffOptions D) (c d : ColumnNode D) : Type 0 where
  pub name : c.name ≡ d.name
  pub type :
      (opts.normalize_type c.type ≡ opts.normalize_type d.type)
      ⊎ ((c.is_auto_increment ≡ true)
          × (d.is_auto_increment ≡ true)
          × (c.type.unsigned ≡ d.type.unsigned))
  pub nullable : (c.nullable ≡ d.nullable) ⊎ ((c.is_primary_key ≡ true) × (d.is_primary_key ≡ true))
  pub default_value : opts.defaults_equal c.default_value d.default_value ≡ true

pub record AgreesTable {D : Type 0} (opts : DiffOptions D) (source target : TableNode D)
    : Type 0 where
  pub columns : PairsOff (Agrees opts) source.columns target.columns
  pub primary_key : key_columns source.primary_key ≡ key_columns target.primary_key
  pub checks :
      PairsOff
        (λ c d. c.name ≡ d.name)
        source.checks
        (filter (λ c. is_owned_name c.name) target.checks)
  pub triggers :
      PairsOff
        (λ t u. t.name ≡ u.name)
        source.triggers
        (filter (λ t. is_owned_name t.name) target.triggers)

nothing_before : {A : Type 0} (xs ys : List A) → xs ++ ys ≡ [] → (xs ≡ []) × (ys ≡ [])
nothing_before [] ys e = (refl, e)
nothing_before (x ∷ xs) ys e = cc

nothing_mapped : {A B : Type 0} (f : A → B) (xs : List A) → map f xs ≡ [] → xs ≡ []
nothing_mapped f [] e = refl
nothing_mapped f (x ∷ xs) e = cc

both_true : (a b : Bool) → (a && b) ≡ true → (a ≡ true) × (b ≡ true)
both_true true b e = (refl, e)
both_true false b e = cc

unnegated : (b : Bool) → not b ≡ false → b ≡ true
unnegated true e = refl
unnegated false e = cc

no_length : {A : Type 0} (xs : List A) → ltb 0 (length xs) ≡ false → xs ≡ []
no_length [] e = refl
no_length (x ∷ xs) e = ground arith

not_some : {A : Type 0} (o : Option A) → is_some o ≡ false → o ≡ none
not_some none e = refl
not_some (some x) e = cc

none_listed :
    {A : Type 0} (o : Option A) (xs : List A) → list_of o ++ xs ≡ [] → (o ≡ none) × (xs ≡ [])
none_listed none xs e = (refl, e)
none_listed (some x) xs e = cc

present-none :
    {A B : Type 0} (f : A → Option B) (xs : List A)
    → present (map f xs) ≡ []
    → All (λ x. f x ≡ none) xs
unfolding flat_map
present-none f [] e = tt
present-none f (x ∷ xs) e = let (a, b) = none_listed (f x) _ e in (a, present-none f xs b)

All-apply :
    {A : Type 0} (P Q : A → Type 0) (xs : List A) → All (λ x. P x → Q x) xs → All P xs → All Q xs
All-apply P Q [] f h = tt
All-apply P Q (x ∷ xs) (f, fs) (h, hs) = (f h, All-apply P Q xs fs hs)

same_columns-eq : (xs ys : List String) → same_columns xs ys ≡ true → xs ≡ ys
same_columns-eq [] [] e = refl
same_columns-eq (x ∷ xs) (y ∷ ys) e =
    let (a, b) = both_true (x == y) _ e in
    ap (λ z. z ∷ xs) ((==_iff x y).0 a) ∙ ap (λ l. y ∷ l) (same_columns-eq xs ys b)
same_columns-eq [] (y ∷ ys) e = cc
same_columns-eq (x ∷ xs) [] e = cc

All-every : {A : Type 0} (P : A → Type 0) (xs : List A) → All (λ x. P x → P x) xs
All-every P [] = tt
All-every P (x ∷ xs) = (λ h. h, All-every P xs)

module _ {S T : Type 0} (R : S → T → Type 0) where
  Splits-PairsOff :
      (f : S → String) (g : T → String) (xs : List S) (ys : List T)
      → (match_by_key xs ys f g).created ≡ []
      → (match_by_key xs ys f g).dropped ≡ []
      → All (λ p. (f p.0 ≡ g p.1) → R p.0 p.1) (match_by_key xs ys f g).matched
      → PairsOff R xs ys
  Splits-PairsOff f g xs ys a b h =
      let m = match_by_key xs ys f g in
      let s = match_by_key-Splits f g xs ys in
      (
        m.matched,
        subst (λ l. Perm xs (l ++ map (λ p. p.0) m.matched)) a s.sources,
        subst (λ l. Perm ys (l ++ map (λ p. p.1) m.matched)) b s.targets,
        All-apply (λ p. f p.0 ≡ g p.1) (λ p. R p.0 p.1) m.matched h s.keys,
      )

when_none : {A : Type 0} (b : Bool) (x : A) → (if b then none else some x) ≡ none → b ≡ true
when_none true x e = refl
when_none false x e = cc

unless_some : {A : Type 0} (b : Bool) (x : A) → (if b then some x else none) ≡ none → b ≡ false
unless_some true x e = cc
unless_some false x e = refl

no_facet :
    (b : Bool) (f : ColumnFacet) (fs : List ColumnFacet)
    → facet_if b f ++ fs ≡ []
    → (b ≡ false) × (fs ≡ [])
no_facet false f fs e = (refl, e)
no_facet true f fs e = cc

neither_set : (a b c : Bool) → (not (a && b) && c) ≡ false → (c ≡ false) ⊎ ((a ≡ true) × (b ≡ true))
neither_set true true c e = inr (refl, refl)
neither_set true false c e = inl e
neither_set false b c e = inl e

chosen :
    (a b c d : Bool)
    → (if a && b then c else d) ≡ false
    → (d ≡ false) ⊎ ((a ≡ true) × (b ≡ true) × (c ≡ false))
chosen true true c d e = inr (refl, refl, e)
chosen true false c d e = inl e
chosen false b c d e = inl e

no_xor : (a b : Bool) → xor a b ≡ false → a ≡ b
no_xor a b e = not-xor a b (ap not e)

module _ {T : Type 0} (name_of : T → String) where
  diff_owned-nothing :
      (table : String) (xs ys : List T)
      → diff_owned name_of table xs ys ≡ []
      → PairsOff (λ x y. name_of x ≡ name_of y) xs (filter (λ y. is_owned_name (name_of y)) ys)
  unfolding diff_owned
  diff_owned-nothing table xs ys e =
      let (a, b) = nothing_before _ _ e in
      Splits-PairsOff (λ x y. name_of x ≡ name_of y) name_of name_of xs
        (filter (λ y. is_owned_name (name_of y)) ys) (nothing_mapped _ _ a) (nothing_mapped _ _ b)
        (All-every (λ p. name_of p.0 ≡ name_of p.1) _)

module _ {D : Type 0} (opts : DiffOptions D) where
  diff_of-none :
      (table : String) (c d : ColumnNode D) (fs : List ColumnFacet)
      → diff_of opts table c d fs ≡ none
      → fs ≡ []
  diff_of-none table c d [] e = refl
  diff_of-none table c d (f ∷ fs) e = cc

  type_changed-false :
      (c d : ColumnNode D)
      → type_changed opts c d ≡ false
      → (opts.normalize_type c.type ≡ opts.normalize_type d.type)
        ⊎ ((c.is_auto_increment ≡ true)
            × (d.is_auto_increment ≡ true)
            × (c.type.unsigned ≡ d.type.unsigned))
  unfolding type_changed
  type_changed-false c d e = elim (chosen c.is_auto_increment d.is_auto_increment _ _ e) [
    | inl f ↦ inl (are_types_equal-is_breaking_type_change _ _ (unnegated _ f)).0
    | inr (a, b, f) ↦ inr (a, b, no_xor _ _ f)
  ]

  diff_column-Agrees :
      (table : String) (c d : ColumnNode D)
      → diff_column opts table c d ≡ none
      → c.name ≡ d.name
      → Agrees opts c d
  unfolding diff_column facets_of
  diff_column-Agrees table c d e n =
      let (t, r) =
        no_facet (type_changed opts c d) type_facet _
          (diff_of-none table c d (facets_of opts c d) e) in
      let (u, s) =
        no_facet (not (c.is_primary_key && d.is_primary_key) && xor c.nullable d.nullable)
          nullable_facet _ r in
      let (v, w) =
        no_facet (not (opts.defaults_equal c.default_value d.default_value)) default_facet []
          (append-nil _ ∙ s) in
      record {
        name = n;
        type = type_changed-false c d t;
        nullable = elim (neither_set c.is_primary_key d.is_primary_key _ u) [
          | inl f ↦ inl (no_xor _ _ f)
          | inr f ↦ inr f
        ];
        default_value = unnegated _ v;
      }

  diff_table_columns-Agrees :
      (source target : TableNode D)
      → diff_table_columns opts source target ≡ []
      → PairsOff (Agrees opts) source.columns target.columns
  unfolding diff_table_columns
  diff_table_columns-Agrees source target e =
      let (a, r) = nothing_before _ _ e in
      let (b, f) = nothing_before _ _ r in
      Splits-PairsOff (Agrees opts) (λ c. c.name) (λ c. c.name) source.columns target.columns
        (nothing_mapped _ _ a) (nothing_mapped _ _ b)
        (All-map (λ p g. diff_column-Agrees source.name p.0 p.1 g) _ (present-none _ _ f))

  same_key :
      (source target : TableNode D)
      → diff_primary_key source target ≡ none
      → key_columns source.primary_key ≡ key_columns target.primary_key
  unfolding diff_primary_key
  same_key source target e =
      same_columns-eq (key_columns source.primary_key) (key_columns target.primary_key)
        (when_none _ _ e)

  all_empty :
      (d : TableDiff D)
      → unless_empty d ≡ none
      → (d.columns ≡ []) × (d.checks ≡ []) × (d.triggers ≡ []) × (d.primary_key ≡ none)
  all_empty d e =
      let (f, k) = or_false _ (is_some d.primary_key) (unless_some _ d e) in
      let (g, t) = or_false _ (ltb 0 (length d.triggers)) f in
      let (c, h) = or_false (ltb 0 (length d.columns)) (ltb 0 (length d.checks)) g in
      (
        no_length d.columns c,
        no_length d.checks h,
        no_length d.triggers t,
        not_some d.primary_key k,
      )

  -- Two tables without a difference have the same columns by name, each pair with defaults that compare
  -- as equal, of one type once normalized or both auto-incremented and equally signed, and equally
  -- nullable or both columns of the primary key; and the same key columns, and the same checks and
  -- triggers, by name, but for those that uql does not own.
  pub diff_table-AgreesTable :
      (source target : TableNode D)
      → diff_table opts source target ≡ none
      → AgreesTable opts source target
  unfolding diff_table
  diff_table-AgreesTable source target e =
      let (c, h, t, k) = all_empty _ e in
      record {
        columns = diff_table_columns-Agrees source target c;
        primary_key = same_key source target k;
        checks = diff_owned-nothing (λ x. x.name) source.name source.checks target.checks h;
        triggers = diff_owned-nothing (λ x. x.name) source.name source.triggers target.triggers t;
      }
