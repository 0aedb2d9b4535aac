-- ===== src/Querier/RowReader/Nest.antt =====
-- `nest` of packages/orm/src/querier/rowReader.ts: each column is found under its path.
use uql.Base.{
  Bool, true, false, List, [], ◌∷◌, Option, none, some, if◌then◌else◌, ◌==◌, ==_iff, ==_refl, ◌≡◌,
  refl, sym, ap, ◌∙◌, subst, Bool-cases, inl, inr, false_true, All, All-append,
}
use uql.Text.{Text, text_eq}
use uql.Http.Json.{
  Json, object, Members, no_members, member, value_at, HasMember, first_member, later_member, Items,
}
use uql.Querier.RowReader.Paths.{KeyPath, assign, record_or_new, set_at}
use uql.Querier.RowReader.{
  path_of, nest_onto, nest, if_dotted, split_dots, Plan, SelectTerms, select_term, select_rows,
  no_terms, term, add_term, plan_of,
}

pub value_at-assign : (k : Text) (v : Json) (ms : Members) → value_at k (assign k v ms) ≡ some v
value_at-assign k v no_members = rw (==_refl k) refl
value_at-assign k v (member j w ms) = elim (Bool-cases (j == k)) [
  | inl e ↦ rw (e, e) refl
  | inr e ↦ rw (e, e) (value_at-assign k v ms)
]

pub value_at-assign_other :
    (j k : Text) (v : Json) (ms : Members)
    → (k == j) ≡ false
    → value_at j (assign k v ms) ≡ value_at j ms
value_at-assign_other j k v no_members h = rw h refl
value_at-assign_other j k v (member i w ms) h = elim (Bool-cases (i == k)) [
  | inl e ↦ rw (e, ap (λ x. x == j) ((==_iff i k).0 e), h) refl
  | inr e ↦ elim (Bool-cases (i == j)) [
    | inl f ↦ rw (e, f) refl
    | inr f ↦ rw (e, f) (value_at-assign_other j k v ms h)
  ]
]

-- What a row holds at a path.
abbrev pub holds_at : KeyPath → Members → Option Json
holds_at [] row = some (object row)
holds_at (k ∷ []) row = value_at k row
holds_at (k ∷ j ∷ path) row = holds_at (j ∷ path) (record_or_new (value_at k row))

-- Neither path is a part of the other.
abbrev pub are_apart : KeyPath → KeyPath → Bool
are_apart [] q = false
are_apart (k ∷ p) [] = false
are_apart (k ∷ p) (j ∷ q) = let rest = are_apart p q in if j == k then rest else true

holds_at-set_at :
    (k : Text) (path : KeyPath) (v : Json) (row : Members)
    → holds_at (k ∷ path) (set_at (k ∷ path) v row) ≡ some v
unfolding set_at
holds_at-set_at k [] v row = value_at-assign k v row
holds_at-set_at k (j ∷ path) v row =
    let rest = record_or_new (value_at k row) in
    rw (value_at-assign k (object (set_at (j ∷ path) v rest)) row) (holds_at-set_at j path v rest)

apart_heads : (k j : Text) (p : KeyPath) → are_apart (k ∷ p) (j ∷ []) ≡ true → (j == k) ≡ false
apart_heads k j [] h = elim (Bool-cases (j == k)) [
  | inl e ↦ false_true (sym h ∙ (rw e refl))
  | inr e ↦ e
]
apart_heads k j (i ∷ p) h = elim (Bool-cases (j == k)) [
  | inl e ↦ false_true (sym h ∙ (rw e refl))
  | inr e ↦ e
]

apart_heads_of : (k j : Text) (q : KeyPath) → are_apart (k ∷ []) (j ∷ q) ≡ true → (j == k) ≡ false
apart_heads_of k j q h = elim (Bool-cases (j == k)) [
  | inl e ↦ false_true (sym h ∙ (rw e refl))
  | inr e ↦ e
]

-- A path that differs at its first key.
holds_at-assign_other :
    (k j : Text) (p : KeyPath) (w : Json) (row : Members)
    → (j == k) ≡ false
    → holds_at (k ∷ p) (assign j w row) ≡ holds_at (k ∷ p) row
holds_at-assign_other k j [] w row h = value_at-assign_other k j w row h
holds_at-assign_other k j (i ∷ p) w row h =
    ap (λ o. holds_at (i ∷ p) (record_or_new o)) (value_at-assign_other k j w row h)

holds_at-set_at_other :
    (p q : KeyPath) (w : Json) (row : Members)
    → are_apart p q ≡ true
    → holds_at p (set_at q w row) ≡ holds_at p row
unfolding set_at
holds_at-set_at_other [] q w row h = cc
holds_at-set_at_other (k ∷ p) [] w row h = cc
holds_at-set_at_other (k ∷ p) (j ∷ []) w row h =
    holds_at-assign_other k j p w row (apart_heads k j p h)
holds_at-set_at_other (k ∷ []) (j ∷ i ∷ q) w row h =
    holds_at-assign_other k j [] _ row (apart_heads_of k j (i ∷ q) h)
holds_at-set_at_other (k ∷ l ∷ p) (j ∷ i ∷ q) w row h = elim (Bool-cases (j == k)) [
  | inr e ↦ holds_at-assign_other k j (l ∷ p) _ row e
  | inl e ↦
      let same = (==_iff j k).0 e in
      let rest = record_or_new (value_at k row) in
      let below : are_apart (l ∷ p) (i ∷ q) ≡ true = sym (rw e refl) ∙ h in
      rw same (
        rw (value_at-assign k (object (set_at (i ∷ q) w rest)) row)
          (holds_at-set_at_other (l ∷ p) (i ∷ q) w rest below))
]

-- A dotted column's path has a key.
abbrev IsNamed : Text × KeyPath → Type 0
IsNamed (column, path) = (k : Text) × (rest : KeyPath) × (path ≡ k ∷ rest)

path_of-holds_at :
    (dotted : List (Text × KeyPath)) (column : Text) (v : Json) (row : Members)
    → All IsNamed dotted
    → holds_at (path_of dotted column) (set_at (path_of dotted column) v row) ≡ some v
path_of-holds_at [] column v row h = holds_at-set_at column [] v row
path_of-holds_at ((key, path) ∷ dotted) column v row ((k, rest, e), h) =
    elim (Bool-cases (key == column)) [
      | inl f ↦
          rw f (
            subst (λ p. holds_at p (set_at p v row) ≡ some v) (sym e)
              (holds_at-set_at k rest v row))
      | inr f ↦ rw f (path_of-holds_at dotted column v row h)
    ]

if_dotted-IsNamed : (key : Text) (path : KeyPath) → All IsNamed (if_dotted path ((key, path) ∷ []))
if_dotted-IsNamed key [] = tt
if_dotted-IsNamed key (k ∷ []) = tt
if_dotted-IsNamed key (k ∷ j ∷ path) = ((k, j ∷ path, refl), tt)

module _ (dotted : List (Text × KeyPath)) where
  -- A path is apart from those of all columns; and the columns of a row are apart from each other.
  abbrev pub ApartFrom : KeyPath → Members → Type 0
  ApartFrom p no_members = Unit
  ApartFrom p (member column v row) = (are_apart p (path_of dotted column) ≡ true) × ApartFrom p row

  abbrev pub ColumnsApart : Members → Type 0
  ColumnsApart no_members = Unit
  ColumnsApart (member column v row) = ApartFrom (path_of dotted column) row × ColumnsApart row

  nest_onto-ApartFrom :
      (p : KeyPath) (nested row : Members)
      → ApartFrom p row
      → holds_at p (nest_onto dotted nested row) ≡ holds_at p nested
  unfolding nest_onto
  nest_onto-ApartFrom p nested no_members h = refl
  nest_onto-ApartFrom p nested (member column v row) (a, h) =
      nest_onto-ApartFrom p (set_at (path_of dotted column) v nested) row h
      ∙ holds_at-set_at_other p (path_of dotted column) v nested a

  nest_onto-holds_at :
      {column : Text} {v : Json} (nested row : Members)
      → All IsNamed dotted
      → ColumnsApart row
      → HasMember column v row
      → holds_at (path_of dotted column) (nest_onto dotted nested row) ≡ some v
  unfolding nest_onto
  nest_onto-holds_at nested no_members named h m = elim m [ ]
  nest_onto-holds_at nested (member column v row) named (a, h) first_member =
      nest_onto-ApartFrom (path_of dotted column) (set_at (path_of dotted column) v nested) row a
      ∙ path_of-holds_at dotted column v nested named
  nest_onto-holds_at nested (member column v row) named (a, h) (later_member m) =
      nest_onto-holds_at (set_at (path_of dotted column) v nested) row named h m

module _ {K : Type 0} (decode : K → Json → Json) (parse : Json → Items) where
  add_term-IsNamed :
      (key : Option Text) (kind : Option K) (kinds : List (Text × K)) (joined_key : Bool)
      (later : Plan)
      → All IsNamed later.dotted
      → All IsNamed (add_term decode parse key kind kinds joined_key later).dotted
  add_term-IsNamed none kind kinds joined_key later h = h
  add_term-IsNamed (some key) kind kinds joined_key later h =
      All-append IsNamed (if_dotted (split_dots key) ((key, split_dots key) ∷ [])) later.dotted
        (if_dotted-IsNamed key (split_dots key)) h

  plan_of-IsNamed : (terms : SelectTerms K) → All IsNamed (plan_of decode parse terms).dotted
  unfolding plan_of
  plan_of-IsNamed no_terms = tt
  plan_of-IsNamed (term (select_term key kind kinds joined_key) ts) =
      add_term-IsNamed key kind kinds joined_key (plan_of decode parse ts) (plan_of-IsNamed ts)
  plan_of-IsNamed (term (select_rows key rows) ts) =
      All-append IsNamed (if_dotted (split_dots key) ((key, split_dots key) ∷ []))
        (plan_of decode parse ts).dotted (if_dotted-IsNamed key (split_dots key))
        (plan_of-IsNamed ts)

  -- Nested by what its statement selected, a row of columns none of which lies under the path of another has
  -- each column's value at that column's path.
  pub nest-holds_at :
      (terms : SelectTerms K) (row : Members) (column : Text) (v : Json)
      → ColumnsApart (plan_of decode parse terms).dotted row
      → HasMember column v row
      → holds_at
          (path_of (plan_of decode parse terms).dotted column)
          (nest (plan_of decode parse terms).dotted row)
        ≡ some v
  nest-holds_at terms row column v h m =
      nest_onto-holds_at (plan_of decode parse terms).dotted no_members row (plan_of-IsNamed terms)
        h m
