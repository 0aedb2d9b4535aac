-- ===== src/Http/Exposure/Named.antt =====
-- A call that `assertExposed` takes names only what the API exposes.
use uql.Base.{
  String, Bool, true, false, Option, none, some, some_eq, if◌then◌else◌, List, [], ◌∷◌, all, ◌≡◌,
  refl, sym, ◌∙◌, subst,
}
use uql.Text.{Text}
use uql.Result.{security, Result, ok, err, guard, ◌>>◌, ◌>>=◌, >>=-eq-ok, ok_eq}
use uql.Http.Json.{
  Json, Items, no_items, item, Members, no_members, member, HasItem, first_item, later_item,
  HasMember, first_member, later_member,
}
use uql.Http.Wire.{access_eq, EntityAccess, reads, ApiOp, api_ops}
use uql.Http.Exposure.{
  FieldMeta, RelationMeta, EntityMeta, own_at, takes, is_dropped, is_followed, nested_needs,
  target_needs, first_part, is_clause, walk_on, assert_ops, reach, follow, step_declared, step_key,
  walk, walk_items, walk_members, op_needs, writes_of, assert_exposed,
}
use uql.Http.Exposure.Exposes.{
  Names, names_item, names_key, names_in_clause, names_in_relation, Serves, Exposes,
  ServesBelow-Serves, guard-ok, both_set, opposite,
}

done_each :
    (first later : Result (Unit {0})) → (first >> later) ≡ ok tt → (first ≡ ok tt) × (later ≡ ok tt)
done_each (ok tt) later h = (refl, h)
done_each (err e) later h = cc

module _ (meta_of : String → EntityMeta) (served : String → Bool) where
  abbrev Next : Type 0
  Next = Option (EntityMeta × List EntityAccess)

  follow-followed :
      (needs : List EntityAccess) (r : RelationMeta) (next : Next)
      → follow meta_of served needs r ≡ ok next
      → is_followed needs r ≡ true
      → (next ≡ some (meta_of r.entity, nested_needs needs))
        × (served (meta_of r.entity).entity ≡ true)
        × Serves served (meta_of r.entity) (target_needs needs r)
  unfolding assert_ops
  follow-followed needs r next h f =
      let opened =
        subst
          (λ b. (if b then reach meta_of served needs r (meta_of r.entity) else ok none) ≡ ok next)
          f h in
      let (u, a, b) =
        >>=-eq-ok
          (guard (served (meta_of r.entity).entity) security
            >> assert_ops meta_of served (meta_of r.entity) (target_needs needs r))
          (λ done. ok (some (meta_of r.entity, nested_needs needs))) opened in
      let (v, c, d) =
        >>=-eq-ok (guard (served (meta_of r.entity).entity) security)
          (λ done. assert_ops meta_of served (meta_of r.entity) (target_needs needs r)) a in
      (sym (ok_eq b), guard-ok _ security c, guard-ok _ security d)

  step_declared-ok :
      (needs : List EntityAccess) (o : Option RelationMeta) (p : Option FieldMeta) (next : Next)
      → step_declared meta_of served needs o p ≡ ok next
      → ((r : RelationMeta)
          → o ≡ some r
          → (all (takes r.wire) needs ≡ true) × (follow meta_of served needs r ≡ ok next))
        × ((f : FieldMeta)
            → o ≡ none
            → p ≡ some f
            → (all (takes f.wire) needs ≡ true) × (is_dropped f needs ≡ false))
  step_declared-ok needs (some s) p next h = (
    λ r e.
        let (u, a, b) = >>=-eq-ok _ _ h in
        let same = some_eq e in
        subst (λ t. (all (takes t.wire) needs ≡ true) × (follow meta_of served needs t ≡ ok next))
          same (guard-ok _ _ a, b),
    λ f e. cc,
  )
  step_declared-ok needs none (some g) next h = (
    λ r e. cc,
    λ f e d.
        let (u, a, b) = >>=-eq-ok _ _ h in
        let (x, y) = both_set _ _ (guard-ok _ _ a) in
        subst (λ t. (all (takes t.wire) needs ≡ true) × (is_dropped t needs ≡ false)) (some_eq d)
          (x, opposite _ y),
  )
  step_declared-ok needs none none next h = (λ r e. cc, λ f e d. cc)

  walked_item :
      (m : EntityMeta) (n : List EntityAccess) {v : Json} (vs : Items)
      → HasItem v vs
      → walk_items meta_of served m n vs ≡ ok tt
      → walk meta_of served m n v ≡ ok tt
  unfolding walk
  walked_item m n no_items i h = elim i [ ]
  walked_item m n (item v vs) first_item h =
      (done_each (walk meta_of served m n v) (walk_items meta_of served m n vs) h).0
  walked_item m n (item w vs) (later_item i) h =
      walked_item m n vs i
        (done_each (walk meta_of served m n w) (walk_items meta_of served m n vs) h).1

  walked_member :
      (m : EntityMeta) (n : List EntityAccess) {k : Text} {v : Json} (vs : Members)
      → HasMember k v vs
      → walk_members meta_of served m n vs ≡ ok tt
      → (next : Next) × (step_key meta_of served m n k ≡ ok next)
        × (walk_on next (λ m₁ n₁. walk meta_of served m₁ n₁ v) ≡ ok tt)
  unfolding walk
  walked_member m n no_members i h = elim i [ ]
  walked_member m n (member k v vs) first_member h =
      let (a, b) =
        done_each
          (step_key meta_of served m n k >>= λ next.
            walk_on next (λ m₁ n₁. walk meta_of served m₁ n₁ v))
          (walk_members meta_of served m n vs) h in
      >>=-eq-ok (step_key meta_of served m n k)
        (λ next. walk_on next (λ m₁ n₁. walk meta_of served m₁ n₁ v)) a
  walked_member m n (member j w vs) (later_member i) h =
      walked_member m n vs i
        (done_each
          (step_key meta_of served m n j >>= λ next.
            walk_on next (λ m₁ n₁. walk meta_of served m₁ n₁ w))
          (walk_members meta_of served m n vs) h).1

  stepped :
      (m : EntityMeta) (n : List EntityAccess) (k : Text) (next : Next)
      → is_clause k ≡ false
      → step_key meta_of served m n k ≡ ok next
      → step_declared meta_of served n
          (own_at (first_part k) m.relations)
          (own_at (first_part k) m.fields)
        ≡ ok next
  unfolding step_key
  stepped m n k next c h = sym (rw c refl) ∙ h

  step_key-clause :
      (m : EntityMeta) (n : List EntityAccess) (k : Text) (next : Next)
      → is_clause k ≡ true
      → step_key meta_of served m n k ≡ ok next
      → next ≡ some (m, n)
  unfolding step_key
  step_key-clause m n k next c h = sym (ok_eq (sym (rw c refl) ∙ h))

  step_key-Exposes :
      (m : EntityMeta) (n : List EntityAccess) (k : Text) (next : Next)
      → is_clause k ≡ false
      → step_key meta_of served m n k ≡ ok next
      → Exposes meta_of served m n k
  step_key-Exposes m n k next c h =
      let (f, g) = step_declared-ok n _ _ next (stepped m n k next c h) in
      record {
        relation = λ r e. (f r e).0;
        reached = λ r e t.
            let (x, y, z) = follow-followed n r next (f r e).1 t in
            (y, ServesBelow-Serves served (meta_of r.entity) n r z);
        field = g;
      }

  walk-Exposes :
      {m m₁ : EntityMeta} {n n₁ : List EntityAccess} {k : Text} {v : Json}
      → Names meta_of m n v m₁ n₁ k
      → walk meta_of served m n v ≡ ok tt
      → Exposes meta_of served m₁ n₁ k
  unfolding walk
  walk-Exposes {m = m} {n = n} (names_item {vs = vs} i d) h =
      walk-Exposes d (walked_item m n vs i h)
  walk-Exposes {m = m} {n = n} (names_key {k = k} {vs = vs} i c) h =
      let (next, s, w) = walked_member m n vs i h in step_key-Exposes m n k next c s
  walk-Exposes {m = m} {n = n} (names_in_clause {c = c} {v = v} {vs = vs} i e d) h =
      let (next, s, w) = walked_member m n vs i h in
      walk-Exposes d (
        subst (λ o. walk_on o (λ m₂ n₂. walk meta_of served m₂ n₂ v) ≡ ok tt)
          (step_key-clause m n c next e s) w)
  walk-Exposes {m = m} {n = n} (names_in_relation {c = c} {v = v} {vs = vs} {r = r} i e o t d) h =
      let (next, s, w) = walked_member m n vs i h in
      let (f, g) = step_declared-ok n _ _ next (stepped m n c next e s) in
      walk-Exposes d (
        subst (λ p. walk_on p (λ m₂ n₂. walk meta_of served m₂ n₂ v) ≡ ok tt)
          (follow-followed n r next (f r o).1 t).0 w)

  -- Where a call is taken, the API serves the operation on the entity, and exposes each key that the query
  -- names for reading and each that the payload names for what the operation writes, at every depth.
  pub assert_exposed-Exposes :
      (m : EntityMeta) (op : ApiOp) (query payload : Json)
      → assert_exposed meta_of served m op query payload ≡ ok tt
      → Serves served m (op_needs (api_ops op).access op)
        × ((m₁ : EntityMeta) (n₁ : List EntityAccess) (k : Text)
            → Names meta_of m (reads ∷ []) query m₁ n₁ k
            → Exposes meta_of served m₁ n₁ k)
        × ((m₁ : EntityMeta) (n₁ : List EntityAccess) (k : Text)
            → Names meta_of m (writes_of op) payload m₁ n₁ k
            → Exposes meta_of served m₁ n₁ k)
  unfolding assert_exposed assert_ops
  assert_exposed-Exposes m op query payload h =
      let (a, b) =
        done_each
          (assert_ops meta_of served m (op_needs (api_ops op).access op)
            >> walk meta_of served m (reads ∷ []) query)
          (walk meta_of served m (writes_of op) payload) h in
      let (c, d) =
        done_each (assert_ops meta_of served m (op_needs (api_ops op).access op))
          (walk meta_of served m (reads ∷ []) query) a in
      (guard-ok _ security c, λ m₁ n₁ k d₁. walk-Exposes d₁ d, λ m₁ n₁ k d₁. walk-Exposes d₁ b)
