-- ===== src/Querier/RowReader/Dropped.antt =====
-- The joined rows that packages/orm/src/querier/rowReader.ts leaves: none whose join matched no row.
use uql.Base.{
  Bool, true, false, ◌&&◌, List, [], ◌∷◌, Option, none, some, if◌then◌else◌, ◌==◌, ==_iff, ◌≡◌,
  refl, sym, ap, ◌∙◌, subst, Bool-cases, Option-cases, inl, inr, All,
}
use uql.Text.{Text, text_eq}
use uql.Http.Json.{
  Json, null, boolean, number, text, array, object, Members, no_members, member, value_at,
}
use uql.Querier.RowReader.Paths.{KeyPath, record_of, change_at}
use uql.Querier.RowReader.{Joined, without_key, is_nothing, matched_no_row, drop_joined}
use uql.Querier.RowReader.Nest.{value_at-assign, value_at-assign_other}

-- What is at a key of the record at a path, if every step to it is one.
abbrev at_holder : Option Members → (Members → Option Json) → Option Json
at_holder none next = none
at_holder (some ms) next = next ms

abbrev pub joined_at : KeyPath → Text → Members → Option Json
joined_at [] key row = value_at key row
joined_at (k ∷ path) key row = at_holder (record_of (value_at k row)) (λ ms. joined_at path key ms)

-- The joined row is not there, or its key is no null.
abbrev pub Stands : Members → Joined → Type 0
Stands row j = matched_no_row j.id_key (joined_at j.slot.parent j.slot.key row) ≡ false

-- The value at the second path and key is the id of the joined row at the first.
abbrev pub is_id_at : KeyPath → Text → Text → KeyPath → Text → Bool
is_id_at [] key id [] other = false
is_id_at [] key id (k ∷ []) other = k == key && other == id
is_id_at [] key id (k ∷ l ∷ q) other = false
is_id_at (h ∷ p) key id [] other = false
is_id_at (h ∷ p) key id (k ∷ q) other = let rest = is_id_at p key id q other in k == h && rest

-- No joined row is another's id.
abbrev pub NoId : Joined → Joined → Type 0
NoId i j = is_id_at i.slot.parent i.slot.key i.id_key j.slot.parent j.slot.key ≡ false

abbrev drop_here : Text → Text → Members → Members
drop_here id key holder =
    if matched_no_row id (value_at key holder) then without_key key holder else holder

value_at-without_key : (k : Text) (ms : Members) → value_at k (without_key k ms) ≡ none
value_at-without_key k no_members = refl
value_at-without_key k (member j v ms) = elim (Bool-cases (j == k)) [
  | inl e ↦ rw e (value_at-without_key k ms)
  | inr e ↦ rw (e, e) (value_at-without_key k ms)
]

value_at-without_other :
    (j k : Text) (ms : Members) → (k == j) ≡ false → value_at j (without_key k ms) ≡ value_at j ms
value_at-without_other j k no_members h = refl
value_at-without_other j k (member i v ms) h = elim (Bool-cases (i == k)) [
  | inl e ↦ rw (e, ap (λ x. x == j) ((==_iff i k).0 e), h) (value_at-without_other j k ms h)
  | inr e ↦ elim (Bool-cases (i == j)) [
    | inl f ↦ rw (e, f) refl
    | inr f ↦ rw (e, f) (value_at-without_other j k ms h)
  ]
]

record_of-object : (o : Option Json) (ms : Members) → record_of o ≡ some ms → o ≡ some (object ms)
record_of-object none ms h = cc
record_of-object (some null) ms h = cc
record_of-object (some (boolean b)) ms h = cc
record_of-object (some (number b t)) ms h = cc
record_of-object (some (text t)) ms h = cc
record_of-object (some (array vs)) ms h = cc
record_of-object (some (object ns)) ms h = cc

-- What a removal at the top does to another key: it may only be removed.
drop_here_at :
    (P : Option Json → Type 0) (id key k : Text) (row : Members)
    → P none
    → P (value_at k row)
    → P (value_at k (drop_here id key row))
drop_here_at P id key k row absent h = elim (Bool-cases (matched_no_row id (value_at key row))) [
  | inr e ↦ rw e h
  | inl e ↦ elim (Bool-cases (key == k)) [
    | inl f ↦ rw e (rw ((==_iff key k).0 f) (rw (value_at-without_key k row) absent))
    | inr f ↦ rw e (rw (value_at-without_other k key row f) h)
  ]
]

drop_own :
    (p : KeyPath) (key id : Text) (row : Members)
    → matched_no_row id (joined_at p key (change_at p (drop_here id key) row)) ≡ false
unfolding change_at
drop_own [] key id row = elim (Bool-cases (matched_no_row id (value_at key row))) [
  | inl e ↦ rw e (rw (value_at-without_key key row) refl)
  | inr e ↦ rw (e, e) refl
]
drop_own (k ∷ p) key id row = elim (Option-cases (record_of (value_at k row))) [
  | inl e ↦ rw (e, e) refl
  | inr (ms, e) ↦ rw e (
      rw (value_at-assign k (object (change_at p (drop_here id key) ms)) row)
        (drop_own p key id ms))
]

-- A removal below a record leaves its values that are set, but for the one that it removes.
drop_keeps_set :
    (q : KeyPath) (kj idj id : Text) (ms : Members)
    → is_id_at [] [] id ([] ∷ q) kj ≡ false
    → is_nothing (value_at id ms) ≡ false
    → is_nothing (value_at id (change_at q (drop_here idj kj) ms)) ≡ false
unfolding change_at
drop_keeps_set [] kj idj id ms apart h = elim (Bool-cases (matched_no_row idj (value_at kj ms))) [
  | inl e ↦ rw e (rw (value_at-without_other id kj ms apart) h)
  | inr e ↦ rw e h
]
drop_keeps_set (l ∷ q) kj idj id ms apart h = elim (Option-cases (record_of (value_at l ms))) [
  | inl e ↦ rw e h
  | inr (ns, e) ↦ elim (Bool-cases (l == id)) [
    | inl f ↦ rw e (
        rw (sym ((==_iff l id).0 f))
          (rw (value_at-assign l (object (change_at q (drop_here idj kj) ns)) ms) refl))
    | inr f ↦
        rw e (rw (value_at-assign_other id l (object (change_at q (drop_here idj kj) ns)) ms f) h)
  ]
]

apart_below :
    (q : KeyPath) (k ki id kj : Text)
    → (k == ki) ≡ true
    → is_id_at [] ki id (k ∷ q) kj ≡ false
    → is_id_at [] [] id ([] ∷ q) kj ≡ false
apart_below [] k ki id kj f h = sym (rw f refl) ∙ h
apart_below (l ∷ q) k ki id kj f h = refl

drop_keeps :
    (p q : KeyPath) (ki id kj idj : Text) (row : Members)
    → is_id_at p ki id q kj ≡ false
    → matched_no_row id (joined_at p ki row) ≡ false
    → matched_no_row id (joined_at p ki (change_at q (drop_here idj kj) row)) ≡ false
unfolding change_at
drop_keeps [] [] ki id kj idj row apart h =
    drop_here_at (λ o. matched_no_row id o ≡ false) idj kj ki row refl h
drop_keeps (k ∷ p) [] ki id kj idj row apart h =
    drop_here_at
      (λ o. matched_no_row id (at_holder (record_of o) (λ ms. joined_at p ki ms)) ≡ false) idj kj k
      row refl h
drop_keeps [] (k ∷ q) ki id kj idj row apart h = elim (Option-cases (record_of (value_at k row))) [
  | inl e ↦ rw e h
  | inr (ms, e) ↦ elim (Bool-cases (k == ki)) [
    | inl f ↦
        let same = (==_iff k ki).0 f in
        let own : matched_no_row id (value_at k row) ≡ false =
          subst (λ x. matched_no_row id (value_at x row) ≡ false) (sym same) h in
        let set : is_nothing (value_at id ms) ≡ false =
          subst (λ o. matched_no_row id o ≡ false) (record_of-object (value_at k row) ms e) own in
        rw e (
          rw (sym same) (
            rw (value_at-assign k (object (change_at q (drop_here idj kj) ms)) row)
              (drop_keeps_set q kj idj id ms (apart_below q k ki id kj f apart) set)))
    | inr f ↦
        rw e (rw (value_at-assign_other ki k (object (change_at q (drop_here idj kj) ms)) row f) h)
  ]
]
drop_keeps (i ∷ p) (k ∷ q) ki id kj idj row apart h =
    elim (Option-cases (record_of (value_at k row))) [
      | inl e ↦ rw e h
      | inr (ms, e) ↦ elim (Bool-cases (k == i)) [
        | inl f ↦
            let same = (==_iff k i).0 f in
            let below : is_id_at p ki id q kj ≡ false = sym (rw f refl) ∙ apart in
            let own : matched_no_row id (joined_at p ki ms) ≡ false =
              subst (λ o. matched_no_row id (at_holder o (λ ns. joined_at p ki ns)) ≡ false) e
                (subst (λ x. matched_no_row id (joined_at (x ∷ p) ki row) ≡ false) (sym same) h) in
            rw e (
              rw (sym same) (
                rw (value_at-assign k (object (change_at q (drop_here idj kj) ms)) row)
                  (drop_keeps p q ki id kj idj ms below own)))
        | inr f ↦
            rw e
              (rw (value_at-assign_other i k (object (change_at q (drop_here idj kj) ms)) row f) h)
      ]
    ]

-- Each of the joined rows is no id of one before it.
abbrev pub NoIds : List Joined → Type 0
NoIds [] = Unit
NoIds (j ∷ js) = All (λ i. NoId j i) js × NoIds js

Stands-drop_joined :
    (js : List Joined) (row : Members) (i : Joined)
    → All (λ j. NoId i j) js
    → Stands row i
    → Stands (drop_joined js row) i
unfolding drop_joined
Stands-drop_joined [] row i h s = s
Stands-drop_joined (j ∷ js) row i (a, h) s =
    Stands-drop_joined js (change_at j.slot.parent (drop_here j.id_key j.slot.key) row) i h
      (drop_keeps i.slot.parent j.slot.parent i.slot.key i.id_key j.slot.key j.id_key row a s)

-- Where no joined row is the id of one before it, dropping the joined rows that matched nothing leaves, of
-- all of them, none whose key is null or is not there, at whatever depth it is nested.
pub drop_joined-Stands :
    (js : List Joined) (row : Members) → NoIds js → All (Stands (drop_joined js row)) js
unfolding drop_joined
drop_joined-Stands [] row h = tt
drop_joined-Stands (j ∷ js) row (a, h) =
    let next = change_at j.slot.parent (drop_here j.id_key j.slot.key) row in
    (
      Stands-drop_joined js next j a (drop_own j.slot.parent j.slot.key j.id_key row),
      drop_joined-Stands js next h,
    )
