-- ===== src/Querier/Keyset/Identifies.antt =====
-- Which columns the uniques of an entity are.
use mathlib.Core.Option
use uql.Base.{
  String, Bool, true, false, ◌&&◌, ◌||◌, not, List, [], ◌∷◌, ◌++◌, Option, none, some, ◌≡◌, refl,
  ap, sym, ◌∙◌, subst, map, filter, flat_map, any, length, ltb, Bool-cases, inl, inr, All, All-map,
  All-append, some_eq, if◌then◌else◌, string_eq,
}
use uql.Querier.Keyset.Prefix.{
  PageField, PageIndex, PageMeta, field_index, declared_indexes, not_null, required_columns, listed,
  unique_columns, uniques,
}

none_some : {A B : Type 0} {x : A} → none ≡ some x → B
none_some h = cc

module _ {A : Type 0} (P : A → Type 0) where
  All-filter : (q : A → Bool) (xs : List A) → All P xs → All (λ x. (q x ≡ true) × P x) (filter q xs)
  All-filter q [] h = tt
  All-filter q (x ∷ xs) (p, h) = elim (Bool-cases (q x)) [
    | inl e ↦ rw e ((e, p), All-filter q xs h)
    | inr e ↦ rw e (All-filter q xs h)
  ]

  All-flat_map :
      {B : Type 0} (f : B → List A) (xs : List B)
      → All (λ x. All P (f x)) xs
      → All P (flat_map f xs)
  unfolding flat_map
  All-flat_map f [] h = tt
  All-flat_map f (x ∷ xs) (p, h) = All-append P (f x) (flat_map f xs) p (All-flat_map f xs h)

pub any-All :
    {A : Type 0} {P : A → Type 0} (q : A → Bool) (xs : List A)
    → All P xs
    → any q xs ≡ true
    → (x : A) × P x × (q x ≡ true)
any-All q [] h e = cc
any-All q (x ∷ xs) (p, h) e = elim (Bool-cases (q x)) [
  | inl f ↦ (x, p, f)
  | inr f ↦ any-All q xs h (sym (rw f refl) ∙ e)
]

-- Whether an item is one of a list.
abbrev pub In : {A : Type 0} → A → List A → Type 0
In {A} x xs = (before : List A) × (after : List A) × (xs ≡ before ++ x ∷ after)

All-In : {A : Type 0} (xs : List A) → All (λ x. In x xs) xs
All-In [] = tt
All-In (x ∷ xs) =
    (([], xs, refl), All-map (λ y i. (x ∷ i.0, i.1, ap (λ l. x ∷ l) i.2)) xs (All-In xs))

-- The columns that no two rows hold the same values of: the primary key's, a unique field that is
-- non-null, and those of a unique index without a predicate, each of whose entries is a non-null column.
pub data Identifies (meta : PageMeta) : List String → Type 0 where
  by_id : Identifies meta meta.ids
  by_field :
      (f : PageField)
      → In f meta.fields
      → f.is_unique ≡ true
      → not_null meta f.key ≡ true
      → Identifies meta (f.key ∷ [])
  by_index :
      (index : PageIndex) (columns : List String)
      → In index meta.indexes
      → index.is_unique ≡ true
      → index.is_partial ≡ false
      → index.columns ≡ map some columns
      → All (λ c. not_null meta c ≡ true) columns
      → Identifies meta columns

module _ (meta : PageMeta) where
  abbrev Requires : List (Option String) → List String → Type 0
  Requires entries columns =
      (entries ≡ map some columns) × All (λ c. not_null meta c ≡ true) columns

  required-step :
      (c : String) (cs : List (Option String)) (n : Bool) (o : Option (List String))
      (columns : List String)
      → not_null meta c ≡ n
      → ((rest : List String) → o ≡ some rest → Requires cs rest)
      → (if n then Option.map (λ l. c ∷ l) o else none) ≡ some columns
      → Requires (some c ∷ cs) columns
  required-step c cs false o columns e f h = none_some h
  required-step c cs true none columns e f h = none_some h
  required-step c cs true (some rest) columns e f h =
      let (a, b) = f rest refl in
      subst (Requires (some c ∷ cs)) (some_eq h) (ap (λ l. some c ∷ l) a, (e, b))

  required_columns-some :
      (entries : List (Option String)) (columns : List String)
      → required_columns meta entries ≡ some columns
      → Requires entries columns
  required_columns-some [] columns h = subst (Requires []) (some_eq h) (refl, tt)
  required_columns-some (none ∷ cs) columns h = none_some h
  required_columns-some (some c ∷ cs) columns h =
      required-step c cs (not_null meta c) (required_columns meta cs) columns refl
        (required_columns-some cs) h

  listed-Identifies :
      (index : PageIndex) (o : Option (List String))
      → In index meta.indexes
      → index.is_unique ≡ true
      → index.is_partial ≡ false
      → required_columns meta index.columns ≡ o
      → All (Identifies meta) (listed o)
  listed-Identifies index none i u p e = tt
  listed-Identifies index (some columns) i u p e =
      let (a, b) = required_columns-some index.columns columns e in
      (by_index index columns i u p a b, tt)

  index-Identifies_when :
      (index : PageIndex) (unique partial : Bool)
      → In index meta.indexes
      → index.is_unique ≡ unique
      → index.is_partial ≡ partial
      → All
          (Identifies meta)
          (if unique && not partial then listed (required_columns meta index.columns) else [])
  index-Identifies_when index true false i u p =
      listed-Identifies index (required_columns meta index.columns) i u p refl
  index-Identifies_when index true true i u p = tt
  index-Identifies_when index false partial i u p = tt

  index-Identifies :
      (index : PageIndex)
      → In index meta.indexes
      → All (Identifies meta) (unique_columns meta index)
  index-Identifies index i =
      index-Identifies_when index index.is_unique index.is_partial i refl refl

  field-Identifies_when :
      (f : PageField) (unique required : Bool)
      → In f meta.fields
      → f.is_unique ≡ unique
      → not_null meta f.key ≡ required
      → All (Identifies meta) (
          if unique && not false then listed (if required then some (f.key ∷ []) else none) else [])
  field-Identifies_when f true true i u r = (by_field f i u r, tt)
  field-Identifies_when f true false i u r = tt
  field-Identifies_when f false required i u r = tt

  field-Identifies :
      (f : PageField)
      → In f meta.fields
      → All (λ index. All (Identifies meta) (unique_columns meta index)) (field_index f)
  field-Identifies f i = elim (Bool-cases (f.is_index || f.is_unique)) [
    | inl e ↦ rw e (field-Identifies_when f f.is_unique (not_null meta f.key) i refl refl, tt)
    | inr e ↦ rw e tt
  ]

  -- The uniques are columns that identify a row, each of one or more.
  pub uniques-Identifies :
      All (λ columns. (ltb 0 (length columns) ≡ true) × Identifies meta columns) (uniques meta)
  unfolding uniques
  uniques-Identifies =
      All-filter (Identifies meta) (λ columns. ltb 0 (length columns))
        (meta.ids ∷ flat_map (unique_columns meta) (declared_indexes meta))
        (
          by_id,
          All-flat_map (Identifies meta) (unique_columns meta) (declared_indexes meta) (
              All-append _ (flat_map field_index meta.fields) meta.indexes
                (All-flat_map _ field_index meta.fields
                  (All-map field-Identifies meta.fields (All-In meta.fields)))
                (All-map index-Identifies meta.indexes (All-In meta.indexes))),
        )
