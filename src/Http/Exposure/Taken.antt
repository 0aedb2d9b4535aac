-- ===== src/Http/Exposure/Taken.antt =====
-- `assertExposed` takes every call whose names the API exposes.
use uql.Base.{
  String, Bool, true, false, Option, none, some, if◌then◌else◌, List, [], ◌∷◌, all, ◌≡◌, ◌↔◌, inl,
  inr, refl, sym, subst, Bool-cases,
}
use uql.Text.{Text}
use uql.Result.{Result, ok, ◌>>=◌}
use uql.Http.Json.{
  Json, null, boolean, number, text, array, object, Items, no_items, item, Members, no_members,
  member, HasItem, first_item, later_item, HasMember, first_member, later_member,
}
use uql.Http.Wire.{EntityAccess, reads, ApiOp, api_ops}
use uql.Http.Exposure.{
  FieldMeta, RelationMeta, EntityMeta, own_at, takes, is_dropped, is_followed, nested_needs,
  target_needs, first_part, is_clause, walk_on, assert_ops, reach, step_declared, step_key, walk,
  walk_items, walk_members, op_needs, writes_of, assert_exposed,
}
use uql.Http.Exposure.Exposes.{
  Serves-ServesBelow, Names, names_item, names_key, names_in_clause, names_in_relation, Serves,
  Exposes,
}
use uql.Http.Exposure.Named.{assert_exposed-Exposes}

module _ (meta_of : String → EntityMeta) (served : String → Bool) where
  abbrev pub EveryName : EntityMeta → List EntityAccess → Json → Type 0
  EveryName m n v =
      (m₁ : EntityMeta) (n₁ : List EntityAccess) (k : Text)
      → Names meta_of m n v m₁ n₁ k
      → Exposes meta_of served m₁ n₁ k

  Walks : Json → EntityMeta → List EntityAccess → Type 0
  Walks v m n = walk meta_of served m n v ≡ ok tt

  abbrev entered : Json → Option (EntityMeta × List EntityAccess) → Result (Unit {0})
  entered v next = walk_on next (λ m n. walk meta_of served m n v)

  step_declared-taken :
      (n : List EntityAccess) (o : Option RelationMeta) (p : Option FieldMeta) (v : Json)
      → ((r : RelationMeta) → o ≡ some r → all (takes r.wire) n ≡ true)
      → ((r : RelationMeta)
          → o ≡ some r
          → is_followed n r ≡ true
          → (served (meta_of r.entity).entity ≡ true)
            × Serves served (meta_of r.entity) (target_needs n r))
      → ((f : FieldMeta)
          → o ≡ none
          → p ≡ some f
          → (all (takes f.wire) n ≡ true) × (is_dropped f n ≡ false))
      → ((r : RelationMeta)
          → o ≡ some r
          → is_followed n r ≡ true
          → Walks v (meta_of r.entity) (nested_needs n))
      → (step_declared meta_of served n o p >>= entered v) ≡ ok tt
  unfolding assert_ops Walks
  step_declared-taken n (some r) p v a b c d = elim (Bool-cases (is_followed n r)) [
    | inl e ↦
        let (x, y) = b r refl e in
        rw (a r refl) (
          subst
            (λ t.
              ((if t then reach meta_of served n r (meta_of r.entity) else ok none) >>= entered v)
              ≡ ok tt)
            (sym e) (rw (y, x) (d r refl e)))
    | inr e ↦ rw (a r refl) (
        subst
          (λ t.
            ((if t then reach meta_of served n r (meta_of r.entity) else ok none) >>= entered v)
            ≡ ok tt)
          (sym e) refl)
  ]
  step_declared-taken n none (some f) v a b c d = let (x, y) = c f refl refl in rw (x, y) refl
  step_declared-taken n none none v a b c d = refl

  step_key-taken :
      (m : EntityMeta) (n : List EntityAccess) (k : Text) (v : Json)
      → (is_clause k ≡ false → Exposes meta_of served m n k)
      → (is_clause k ≡ true → Walks v m n)
      → (is_clause k ≡ false
          → (r : RelationMeta) → own_at (first_part k) m.relations ≡ some r
          → is_followed n r ≡ true
          → Walks v (meta_of r.entity) (nested_needs n))
      → (step_key meta_of served m n k >>= entered v) ≡ ok tt
  unfolding step_key Walks
  step_key-taken m n k v a b d = elim (Bool-cases (is_clause k)) [
    | inl e ↦ rw e (b e)
    | inr e ↦
        let x = a e in
        rw e (
          step_declared-taken n (own_at (first_part k) m.relations) (own_at (first_part k) m.fields)
            v x.relation
            (λ r p t.
              let (y, z) = x.reached r p t in
              (y, Serves-ServesBelow served (meta_of r.entity) n r y z))
            x.field (d e))
  ]

  mutual
    unfolding walk Walks

    walk_taken : (v : Json) (m : EntityMeta) (n : List EntityAccess) → EveryName m n v → Walks v m n
    walk_taken null m n h = refl
    walk_taken (boolean b) m n h = refl
    walk_taken (number b t) m n h = refl
    walk_taken (text t) m n h = refl
    walk_taken (array vs) m n h =
        walk_items_taken vs m n (λ v i m₁ n₁ k d. h m₁ n₁ k (names_item i d))
    walk_taken (object vs) m n h =
        walk_members_taken vs m n (λ c v i e. h m n c (names_key i e))
          (λ c v i e m₁ n₁ k d. h m₁ n₁ k (names_in_clause i e d))
          (λ c v i e r o t m₁ n₁ k d. h m₁ n₁ k (names_in_relation i e o t d))

    walk_items_taken :
        (vs : Items) (m : EntityMeta) (n : List EntityAccess)
        → ((v : Json) → HasItem v vs → EveryName m n v)
        → walk_items meta_of served m n vs ≡ ok tt
    walk_items_taken no_items m n h = refl
    walk_items_taken (item v vs) m n h =
        rw (walk_taken v m n (h v first_item)) (walk_items_taken vs m n (λ w i. h w (later_item i)))

    walk_members_taken :
        (vs : Members) (m : EntityMeta) (n : List EntityAccess)
        → ((c : Text) (v : Json)
            → HasMember c v vs
            → is_clause c ≡ false
            → Exposes meta_of served m n c)
        → ((c : Text) (v : Json) → HasMember c v vs → is_clause c ≡ true → EveryName m n v)
        → ((c : Text) (v : Json)
            → HasMember c v vs
            → is_clause c ≡ false
            → (r : RelationMeta) → own_at (first_part c) m.relations ≡ some r
            → is_followed n r ≡ true
            → EveryName (meta_of r.entity) (nested_needs n) v)
        → walk_members meta_of served m n vs ≡ ok tt
    walk_members_taken no_members m n a b d = refl
    walk_members_taken (member c v vs) m n a b d =
        rw
          (step_key-taken m n c v (a c v first_member)
            (λ e. walk_taken v m n (b c v first_member e))
            (λ e r o t.
              walk_taken v (meta_of r.entity) (nested_needs n) (d c v first_member e r o t)))
          (walk_members_taken vs m n (λ j w i. a j w (later_member i))
            (λ j w i. b j w (later_member i)) (λ j w i. d j w (later_member i)))

  -- A call is taken exactly where the API serves the operation on the entity, and exposes each key that the
  -- query names for reading and each that the payload names for what the operation writes, at every depth.
  pub assert_exposed_iff :
      (m : EntityMeta) (op : ApiOp) (query payload : Json)
      → (assert_exposed meta_of served m op query payload ≡ ok tt) ↔ (
          Serves served m (op_needs (api_ops op).access op)
          × EveryName m (reads ∷ []) query
          × EveryName m (writes_of op) payload)
  unfolding assert_exposed assert_ops Walks
  assert_exposed_iff m op query payload = (
    assert_exposed-Exposes meta_of served m op query payload,
    λ h. rw (h.0, walk_taken query m (reads ∷ []) h.1) (walk_taken payload m (writes_of op) h.2),
  )
