-- ===== src/Http/Hide/Selection.antt =====
-- The fields that a projection reads, and that a read of rows leaves out those its client may not read.
use uql.Base.{
  String, Bool, true, false, false_true, ◌&&◌, not, Option, none, some, some_eq, is_some,
  if◌then◌else◌, List, [], ◌∷◌, map, ◌==◌, ==_iff, ==_refl, ◌≡◌, inl, inr, refl, sym, ap, ◌∙◌,
  subst, Bool-cases, Option-cases, Has, Has-filter,
}
use uql.Text.{Text, codes, text_eq}
use uql.Result.{ok, >>=-eq-ok, ok_eq}
use uql.Http.Json.{
  Json, null, boolean, number, text, array, object, Members, no_members, member, value_at, is_set,
  HasMember, first_member, later_member,
}
use uql.Http.Wire.{reads, ApiOp}
use uql.Http.Exposure.{FieldMeta, EntityMeta, takes, own_at, first_part, is_clause, assert_exposed}
use uql.Http.Exposure.Exposes.{Names, names_key, names_in_clause}
use uql.Http.Exposure.Named.{assert_exposed-Exposes}
use uql.Http.Hide.{
  set_member, no_value_set, leaves_out, members_of, hidden_keys, leave_out, hide_keys, set_if,
  hidden_query, hide_unreadable, populate_in, answers_rows, exposed_query,
}

-- What a query's projection reads: every field where there is none or it sets no name, but for those that it names,
-- and else the fields that it sets.
abbrev pub set_at : Option Json → Bool
set_at none = false
set_at (some v) = is_set v

abbrev pub selects : Option Json → Text → Bool
selects (some (object ms)) key =
    if no_value_set ms then not (is_some (value_at key ms)) else set_at (value_at key ms)
selects _ key = true

abbrev pub is_projection : Option Json → Bool
is_projection none = true
is_projection (some (object ms)) = true
is_projection (some _) = false

value_at-set_member : (k : Text) (v : Json) (ms : Members) → value_at k (set_member k v ms) ≡ some v
value_at-set_member k v no_members = rw (==_refl k) refl
value_at-set_member k v (member j w ms) = elim (Bool-cases (j == k)) [
  | inl e ↦ rw e (rw e refl)
  | inr e ↦ rw e (rw e (value_at-set_member k v ms))
]

both_set : (a b : Bool) → (a && b) ≡ true → (a ≡ true) × (b ≡ true)
both_set true b h = (refl, h)
both_set false b h = cc

no_value_set-set_member :
    (k : Text) (ms : Members)
    → no_value_set ms ≡ true
    → no_value_set (set_member k (boolean false) ms) ≡ true
no_value_set-set_member k no_members h = refl
no_value_set-set_member k (member j w ms) h =
    let (a, b) = both_set (not (is_set w)) (no_value_set ms) h in
    elim (Bool-cases (j == k)) [
      | inl e ↦ rw e b
      | inr e ↦ rw (e, a) (no_value_set-set_member k ms b)
    ]

value_at-HasMember :
    (k : Text) (v : Json) (ms : Members) → value_at k ms ≡ some v → HasMember k v ms
value_at-HasMember k v no_members h = cc
value_at-HasMember k v (member j w ms) h = elim (Bool-cases (j == k)) [
  | inl e ↦
      let same : w ≡ v = some_eq (sym (rw e refl) ∙ h) in
      subst (λ i. HasMember i v (member j w ms)) ((==_iff j k).0 e)
        (subst (λ x. HasMember j x (member j w ms)) same first_member)
  | inr e ↦ later_member (value_at-HasMember k v ms (sym (rw e refl) ∙ h))
]

value_at-first :
    (k i : Text) (v w : Json) (ns : Members) → (i == k) ≡ true → value_at k (member i w ns) ≡ some w
value_at-first k i v w ns e = rw e refl

keeps_out :
    (j k : Text) (ms : Members)
    → value_at k ms ≡ some (boolean false)
    → value_at k (set_member j (boolean false) ms) ≡ some (boolean false)
keeps_out j k no_members h = cc
keeps_out j k (member i w ms) h = elim (Bool-cases (i == j)) [
  | inl e ↦ elim (Bool-cases (i == k)) [
    | inl f ↦ rw e (rw f refl)
    | inr f ↦ rw e (rw f (sym (rw f refl) ∙ h))
  ]
  | inr e ↦ elim (Bool-cases (i == k)) [
    | inl f ↦ rw e (rw f (sym (rw f refl) ∙ h))
    | inr f ↦ rw e (rw f (keeps_out j k ms (sym (rw f refl) ∙ h)))
  ]
]

leave_out-kept :
    (keys : List Text) (k : Text) (ms : Members)
    → value_at k ms ≡ some (boolean false)
    → value_at k (leave_out keys ms) ≡ some (boolean false)
leave_out-kept [] k ms h = h
leave_out-kept (j ∷ keys) k ms h =
    leave_out-kept keys k (set_member j (boolean false) ms) (keeps_out j k ms h)

leave_out-Has :
    (keys : List Text) (k : Text) (ms : Members)
    → Has k keys
    → value_at k (leave_out keys ms) ≡ some (boolean false)
leave_out-Has [] k ms h = elim h [ ]
leave_out-Has (j ∷ keys) k ms (inl e) = leave_out-kept keys k (set_member j (boolean false) ms) (
    subst (λ i. value_at k (set_member i (boolean false) ms) ≡ some (boolean false)) e
      (value_at-set_member k (boolean false) ms))
leave_out-Has (j ∷ keys) k ms (inr m) = leave_out-Has keys k (set_member j (boolean false) ms) m

no_value_set-leave_out :
    (keys : List Text) (ms : Members)
    → no_value_set ms ≡ true
    → no_value_set (leave_out keys ms) ≡ true
no_value_set-leave_out [] ms h = h
no_value_set-leave_out (k ∷ keys) ms h =
    no_value_set-leave_out keys (set_member k (boolean false) ms) (no_value_set-set_member k ms h)

left_out :
    (k : Text) (ms : Members)
    → no_value_set ms ≡ true
    → value_at k ms ≡ some (boolean false)
    → selects (some (object ms)) k ≡ false
left_out k ms a b = rw (a, b) refl

-- A hidden key that no projection names is not selected.
hide_keys-selects :
    (keys : List Text) (k : Text) (select : Option Json)
    → is_projection select ≡ true
    → value_at k (members_of select) ≡ none
    → Has k keys
    → selects (hide_keys keys select) k ≡ false
hide_keys-selects [] k select p n m = elim m [ ]
hide_keys-selects (j ∷ keys) k none p n m =
    left_out k (leave_out (j ∷ keys) no_members) (no_value_set-leave_out (j ∷ keys) no_members refl)
      (leave_out-Has (j ∷ keys) k no_members m)
hide_keys-selects (j ∷ keys) k (some (object ms)) p n m = elim (Bool-cases (no_value_set ms)) [
  | inl e ↦ rw e (
      left_out k (leave_out (j ∷ keys) ms) (no_value_set-leave_out (j ∷ keys) ms e)
        (leave_out-Has (j ∷ keys) k ms m))
  | inr e ↦ rw e (rw (e, n) refl)
]
hide_keys-selects (j ∷ keys) k (some null) p n m = cc
hide_keys-selects (j ∷ keys) k (some (boolean b)) p n m = cc
hide_keys-selects (j ∷ keys) k (some (number b t)) p n m = cc
hide_keys-selects (j ∷ keys) k (some (text t)) p n m = cc
hide_keys-selects (j ∷ keys) k (some (array vs)) p n m = cc

apart :
    (j k : Text) (v : Json) (ms : Members)
    → (j == k) ≡ false
    → value_at k (set_member j v ms) ≡ value_at k ms
apart j k v no_members e = rw e refl
apart j k v (member i w ms) e = elim (Bool-cases (i == j)) [
  | inl f ↦ let g : (i == k) ≡ false = ap (λ x. x == k) ((==_iff i j).0 f) ∙ e in rw f (rw g refl)
  | inr f ↦ elim (Bool-cases (i == k)) [
    | inl g ↦ rw f (rw g refl)
    | inr g ↦ rw f (rw g (apart j k v ms e))
  ]
]

set_if-value :
    (key : Text) (o : Option Json) (query : Members)
    → (o ≡ none → value_at key query ≡ none)
    → value_at key (set_if key o query) ≡ o
set_if-value key none query h = h refl
set_if-value key (some v) query h = value_at-set_member key v query

hide_keys-unset : (keys : List Text) (o : Option Json) → hide_keys keys o ≡ none → o ≡ none
hide_keys-unset [] o h = h
hide_keys-unset (k ∷ keys) none h = refl
hide_keys-unset (k ∷ keys) (some v) h = elim (Bool-cases (leaves_out (some v))) [
  | inl e ↦
      let d : some (object (leave_out (k ∷ keys) (members_of (some v)))) ≡ none =
        sym (rw e refl) ∙ h in
      cc
  | inr e ↦ sym (rw e refl) ∙ h
]

set_if-apart :
    (populate : Option Json) (query : Members)
    → value_at (codes "$select") (set_if (codes "$populate") populate query)
      ≡ value_at (codes "$select") query
set_if-apart none query = refl
set_if-apart (some v) query = apart (codes "$populate") (codes "$select") v query refl

Has-map : {A B : Type 0} (f : A → B) (x : A) (xs : List A) → Has x xs → Has (f x) (map f xs)
Has-map f x [] m = elim m [ ]
Has-map f x (y ∷ ys) (inl e) = inl (ap f e)
Has-map f x (y ∷ ys) (inr m) = inr (Has-map f x ys m)

module _ (meta_of : String → EntityMeta) (served : String → Bool) where
  select_Names :
      (m : EntityMeta) (k : Text) (query : Members) (s v : Json)
      → is_clause k ≡ false
      → value_at (codes "$select") query ≡ some s
      → value_at k (members_of (some s)) ≡ some v
      → Names meta_of m (reads ∷ []) (object query) m (reads ∷ []) k
  select_Names m k query (object ms) v c d e =
      names_in_clause (value_at-HasMember (codes "$select") (object ms) query d) refl
        (names_key (value_at-HasMember k v ms e) c)
  select_Names m k query null v c d e = cc
  select_Names m k query (boolean b) v c d e = cc
  select_Names m k query (number b t) v c d e = cc
  select_Names m k query (text t) v c d e = cc
  select_Names m k query (array vs) v c d e = cc

  -- A call that is taken names no hidden field in its projection.
  unnamed :
      (m : EntityMeta) (op : ApiOp) (query : Members) (payload : Json) (k : Text) (f : FieldMeta)
      → assert_exposed meta_of served m op (object query) payload ≡ ok tt
      → is_clause k ≡ false
      → own_at (first_part k) m.relations ≡ none
      → own_at (first_part k) m.fields ≡ some f
      → takes f.wire reads ≡ false
      → (o : Option Json) → value_at (codes "$select") query ≡ o
      → value_at k (members_of o) ≡ none
  unnamed m op query payload k f h c r d t none e = refl
  unnamed m op query payload k f h c r d t (some s) e =
      elim (Option-cases (value_at k (members_of (some s)))) [
        | inl n ↦ n
        | inr (v, n) ↦
            let (x, y, z) = assert_exposed-Exposes meta_of served m op (object query) payload h in
            let (taken, w) = (y m (reads ∷ []) k (select_Names m k query s v c e n)).field f r d in
            false_true (sym (both_set (takes f.wire reads) true taken).0 ∙ t)
      ]

  hidden_query-select :
      (m : EntityMeta) (query : Members) (populate : Option Json)
      → value_at (codes "$select") (hidden_query m query populate)
        ≡ hide_keys (hidden_keys m) (value_at (codes "$select") query)
  hidden_query-select m query populate =
      set_if-apart populate (
        set_if (codes "$select") (hide_keys (hidden_keys m) (value_at (codes "$select") query))
          query)
      ∙ set_if-value (codes "$select")
          (hide_keys (hidden_keys m) (value_at (codes "$select") query)) query
          (hide_keys-unset (hidden_keys m) (value_at (codes "$select") query))

  -- A read of rows that the API takes, whose projection is an object if it has one, selects no field of its
  -- entity that a client may not read.
  pub exposed_query-selects :
      (m : EntityMeta) (op : ApiOp) (query q : Members) (payload : Json) (k : Text) (f : FieldMeta)
      → exposed_query meta_of served m op query payload ≡ ok q
      → answers_rows op ≡ true
      → is_projection (value_at (codes "$select") query) ≡ true
      → is_clause k ≡ false
      → own_at (first_part k) m.relations ≡ none
      → own_at (first_part k) m.fields ≡ some f
      → Has (k, f) m.fields
      → takes f.wire reads ≡ false
      → selects (value_at (codes "$select") q) k ≡ false
  unfolding exposed_query hide_unreadable hidden_keys
  exposed_query-selects m op query q payload k f h a p c r o i t =
      let (u, x, y) =
        >>=-eq-ok (assert_exposed meta_of served m op (object query) payload)
          (λ done. ok (if answers_rows op then hide_unreadable meta_of m query else query)) h in
      let same : hide_unreadable meta_of m query ≡ q = sym (rw a refl) ∙ ok_eq y in
      subst (λ z. selects (value_at (codes "$select") z) k ≡ false) same
        (subst (λ s. selects s k ≡ false)
          (sym (hidden_query-select m query (populate_in meta_of m query)))
          (hide_keys-selects (hidden_keys m) k (value_at (codes "$select") query) p
            (unnamed m op query payload k f x c r o t (value_at (codes "$select") query) refl)
            (Has-map (λ g. g.0) (k, f) _
              (Has-filter (λ g. not (takes g.1.wire reads)) (k, f) m.fields i (ap not t)))))
