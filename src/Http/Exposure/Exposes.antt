-- ===== src/Http/Exposure/Exposes.antt =====
-- What a client's call names, and what it takes for the API to expose it.
use uql.Base.{
  Bool-cases, inl, inr, All, All-take, All-append, false_true, ◌++◌, String, Bool, true, false,
  ◌&&◌, not, none, some, if◌then◌else◌, List, [], ◌∷◌, all, ◌≡◌, refl, sym, ◌∙◌, subst,
}
use uql.Text.{Text}
use uql.Result.{Error, ok, guard}
use uql.Http.Json.{Json, array, object, Items, Members, HasItem, HasMember}
use uql.Http.Wire.{updates, deletes, access_eq, EntityAccess}
use uql.Http.Exposure.{
  is_one_to_many, includes, FieldMeta, RelationMeta, EntityMeta, own_at, takes, is_dropped,
  is_followed, nested_needs, target_needs, first_part, is_clause,
}

-- What is sent to an entity names a key of an entity, with what the walk needs of its rows: below the items of a
-- list, the clauses of the entity, and the relations that are followed.
pub data Names (meta_of : String → EntityMeta)
    : EntityMeta → List EntityAccess → Json → EntityMeta → List EntityAccess → Text → Type 0 where
  names_item :
      {m m₁ : EntityMeta} {n n₁ : List EntityAccess} {k : Text} {v : Json} {vs : Items}
      → HasItem v vs
      → Names meta_of m n v m₁ n₁ k
      → Names meta_of m n (array vs) m₁ n₁ k
  names_key :
      {m : EntityMeta} {n : List EntityAccess} {k : Text} {v : Json} {vs : Members}
      → HasMember k v vs
      → is_clause k ≡ false
      → Names meta_of m n (object vs) m n k
  names_in_clause :
      {m m₁ : EntityMeta} {n n₁ : List EntityAccess} {k c : Text} {v : Json} {vs : Members}
      → HasMember c v vs
      → is_clause c ≡ true
      → Names meta_of m n v m₁ n₁ k
      → Names meta_of m n (object vs) m₁ n₁ k
  names_in_relation :
      {m m₁ : EntityMeta} {n n₁ : List EntityAccess} {k c : Text} {v : Json} {vs : Members}
      {r : RelationMeta}
      → HasMember c v vs
      → is_clause c ≡ false
      → own_at (first_part c) m.relations ≡ some r
      → is_followed n r ≡ true
      → Names meta_of (meta_of r.entity) (nested_needs n) v m₁ n₁ k
      → Names meta_of m n (object vs) m₁ n₁ k

-- The API lets a client do what is needed to an entity's rows.
abbrev pub Serves : (String → Bool) → EntityMeta → List EntityAccess → Type 0
Serves served m needs = all (λ need. served m.entity && takes m.wire need) needs ≡ true

-- An entity lets a client do what a walk needs of the rows below a relation, which an update of a to-many
-- deletes some of.
abbrev pub ServesBelow : EntityMeta → List EntityAccess → RelationMeta → Type 0
ServesBelow target needs r =
    All (λ need. takes target.wire need ≡ true) (nested_needs needs)
    × (is_one_to_many r.cardinality ≡ true
        → includes needs updates ≡ true
        → takes target.wire deletes ≡ true)

-- The API exposes what a key names: the relation, with the entity that it reaches where it is followed,
-- or the field.
pub record Exposes (meta_of : String → EntityMeta) (served : String → Bool) (m : EntityMeta)
    (needs : List EntityAccess) (key : Text) : Type 0 where
  pub relation :
      (r : RelationMeta)
      → own_at (first_part key) m.relations ≡ some r
      → all (takes r.wire) needs ≡ true
  pub reached :
      (r : RelationMeta)
      → own_at (first_part key) m.relations ≡ some r
      → is_followed needs r ≡ true
      → (served (meta_of r.entity).entity ≡ true) × ServesBelow (meta_of r.entity) needs r
  pub field :
      (f : FieldMeta)
      → own_at (first_part key) m.relations ≡ none
      → own_at (first_part key) m.fields ≡ some f
      → (all (takes f.wire) needs ≡ true) × (is_dropped f needs ≡ false)

pub guard-ok : (b : Bool) (e : Error) {u : Unit {0}} → guard b e ≡ ok u → b ≡ true
guard-ok true e h = refl
guard-ok false e h = cc

pub both_set : (a b : Bool) → (a && b) ≡ true → (a ≡ true) × (b ≡ true)
both_set true b h = (refl, h)
both_set false b h = cc

pub opposite : (b : Bool) → not b ≡ true → b ≡ false
opposite true h = cc
opposite false h = refl

module _ (served : String → Bool) (m : EntityMeta) where
  takes_each :
      (needs : List EntityAccess)
      → Serves served m needs
      → All (λ need. takes m.wire need ≡ true) needs
  takes_each [] h = tt
  takes_each (need ∷ needs) h =
      let (a, b) = both_set (served m.entity && takes m.wire need) _ h in
      ((both_set (served m.entity) (takes m.wire need) a).1, takes_each needs b)

  Serves-each :
      (needs : List EntityAccess)
      → served m.entity ≡ true
      → All (λ need. takes m.wire need ≡ true) needs
      → Serves served m needs
  Serves-each [] s h = refl
  Serves-each (need ∷ needs) s (t, h) = rw (s, t) (Serves-each needs s h)

  pub ServesBelow-Serves :
      (needs : List EntityAccess) (r : RelationMeta)
      → Serves served m (target_needs needs r)
      → ServesBelow m needs r
  ServesBelow-Serves needs r h =
      elim (Bool-cases (is_one_to_many r.cardinality && includes needs updates)) [
        | inl e ↦
            let every = takes_each (nested_needs needs ++ deletes ∷ []) (
              subst
                (λ b.
                  Serves served m
                    (if b then nested_needs needs ++ deletes ∷ [] else nested_needs needs))
                e h) in
            let (a, (d, u)) =
              All-take (λ need. takes m.wire need ≡ true) (nested_needs needs) (deletes ∷ [])
                every in
            (a, λ x y. d)
        | inr e ↦ (
          takes_each (nested_needs needs) (
              subst
                (λ b.
                  Serves served m
                    (if b then nested_needs needs ++ deletes ∷ [] else nested_needs needs))
                e h),
          λ x y. false_true (sym (rw (x, y) refl) ∙ e),
        )
      ]

  pub Serves-ServesBelow :
      (needs : List EntityAccess) (r : RelationMeta)
      → served m.entity ≡ true
      → ServesBelow m needs r
      → Serves served m (target_needs needs r)
  Serves-ServesBelow needs r s (a, d) =
      elim (Bool-cases (is_one_to_many r.cardinality && includes needs updates)) [
        | inl e ↦
            let (x, y) = both_set (is_one_to_many r.cardinality) (includes needs updates) e in
            subst
              (λ b.
                Serves served m
                  (if b then nested_needs needs ++ deletes ∷ [] else nested_needs needs))
              (sym e)
              (Serves-each (nested_needs needs ++ deletes ∷ []) s (
                All-append (λ need. takes m.wire need ≡ true) (nested_needs needs) (deletes ∷ []) a
                  (d x y, tt)))
        | inr e ↦
            subst
              (λ b.
                Serves served m
                  (if b then nested_needs needs ++ deletes ∷ [] else nested_needs needs))
              (sym e) (Serves-each (nested_needs needs) s a)
      ]
