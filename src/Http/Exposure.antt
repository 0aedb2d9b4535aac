-- ===== src/Http/Exposure.antt =====
-- packages/orm/src/http/exposure.ts: what a client's call may reach. A refusal is its error, without the
-- member and the path that it names. `meta_of` is `getMeta`, by the name of an entity's class, and
-- `served` whether the API serves an entity.
pub mod Exposes
pub mod Named
pub mod Taken
use uql.Base.{
  ℕ, String, Bool, true, false, ◌&&◌, ◌||◌, not, Option, none, some, if◌then◌else◌, ◌==◌, Equal,
  nat_eq, List, [], ◌∷◌, ◌++◌, any, all, filter, map, flat_map, is_some, ◌≡◌, ◌↔◌, refl, arith, sym,
  ap, ◌∙◌, subst,
}
use uql.Text.{Text, codes, text_eq, starts_with_text}
use uql.Result.{Error, security, Result, ok, err, guard, ◌>>◌, ◌>>=◌}
use uql.Http.Json.{
  Json, null, boolean, number, text, array, object, Items, no_items, item, Members, no_members,
  member, value_at, is_set, keys_of,
}
use uql.Http.Wire.{
  EntityAccess, reads, inserts, updates, deletes, access_eq, OpAccess, does, saves, ApiOp, api_ops,
  WireAnswer, count,
}

-- `Wire` of packages/orm/src/type/query.ts: unset, `false`, or the accesses that it lists.
pub data Wire : Type 0 where
  anything nothing : Wire
  only : List EntityAccess → Wire

pub record FieldMeta : Type 0 where
  pub wire : Wire
  pub is_computed : Bool
  pub updatable : Bool

pub data CascadeType : Type 0 where
  persist delete : CascadeType

-- The `cascade` of a relation: unset, a Boolean, or an action.
pub data Cascade : Type 0 where
  unset_cascade : Cascade
  every_action : Bool → Cascade
  on_action : CascadeType → Cascade

pub data Cardinality : Type 0 where
  one_to_one many_to_one one_to_many many_to_many : Cardinality

pub record RelationMeta : Type 0 where
  pub entity : String
  pub cardinality : Cardinality
  pub cascade : Cascade
  pub wire : Wire

pub record EntityMeta : Type 0 where
  pub entity : String
  pub wire : Wire
  pub fields : List (Text × FieldMeta)
  pub relations : List (Text × RelationMeta)

-- An own key's value.
abbrev pub own_at : {V : Type 0} → Text → List (Text × V) → Option V
own_at key [] = none
own_at key ((k, v) ∷ vs) = let later = own_at key vs in if k == key then some v else later

unfoldable pub takes : Wire → EntityAccess → Bool
takes anything need = true
takes nothing need = false
takes (only accesses) need = any (λ a. a == need) accesses

abbrev pub includes : List EntityAccess → EntityAccess → Bool
includes needs need = any (λ n. n == need) needs

-- `isWrittenOn` of packages/orm/src/util/field.util.ts, by the callback of an insert or an update.
abbrev pub is_written_on : FieldMeta → EntityAccess → Bool
is_written_on field need = not field.is_computed && (not (need == updates) || field.updatable)

-- Whether `dropped` names an access: none where it has no access to name.
unfoldable pub is_dropped : FieldMeta → List EntityAccess → Bool
is_dropped field [] = false
is_dropped field (need ∷ needs) =
    not (any (λ n. n == reads || is_written_on field n) (need ∷ needs))

-- `isCascadable('persist', cascade)` of packages/orm/src/util/dialect.util.ts.
abbrev pub persists : Cascade → Bool
persists unset_cascade = false
persists (every_action b) = b
persists (on_action persist) = true
persists (on_action delete) = false

abbrev pub is_one_to_many : Cardinality → Bool
is_one_to_many one_to_many = true
is_one_to_many _ = false

-- `SAVED`
abbrev pub saved : List EntityAccess
saved = inserts ∷ updates ∷ []

unfoldable pub writes_of : ApiOp → List EntityAccess
writes_of op = of_access (api_ops op).access
  where
    of_access : OpAccess → List EntityAccess
    of_access saves = saved
    of_access (does inserts) = inserts ∷ []
    of_access (does updates) = updates ∷ []
    of_access (does _) = []

-- What the operation needs of its entity's rows.
abbrev pub op_needs : OpAccess → ApiOp → List EntityAccess
op_needs saves op = writes_of op
op_needs (does access) op = access ∷ []

-- `key.split('.')[0]`
abbrev pub first_part : Text → Text
first_part [] = []
first_part (c ∷ t) = let later = first_part t in if c == b'.' then [] else c ∷ later

abbrev pub is_clause : Text → Bool
is_clause key = starts_with_text (codes "$") key

-- Whether the relation's rows are walked: a payload's only where the relation cascades.
abbrev pub is_followed : List EntityAccess → RelationMeta → Bool
is_followed needs relation = includes needs reads || persists relation.cascade

-- What the walk needs of the rows below a relation.
abbrev pub nested_needs : List EntityAccess → List EntityAccess
nested_needs needs = if includes needs reads then needs else saved

-- What it needs of the relation's entity: an update of a to-many deletes the rows that it stops listing.
abbrev pub target_needs : List EntityAccess → RelationMeta → List EntityAccess
target_needs needs relation =
    if is_one_to_many relation.cardinality && includes needs updates
    then nested_needs needs ++ deletes ∷ []
    else nested_needs needs

abbrev pub walk_on :
    Option (EntityMeta × List EntityAccess)
    → (EntityMeta → List EntityAccess → Result (Unit {0}))
    → Result (Unit {0})
walk_on none walk = ok tt
walk_on (some (meta, needs)) walk = walk meta needs

module _ (meta_of : String → EntityMeta) (served : String → Bool) where
  unfoldable pub assert_ops : EntityMeta → List EntityAccess → Result (Unit {0})
  assert_ops meta needs =
      guard (all (λ need. served meta.entity && takes meta.wire need) needs) security

  abbrev pub reach :
      List EntityAccess
      → RelationMeta
      → EntityMeta
      → Result (Option (EntityMeta × List EntityAccess))
  reach needs relation target =
      guard (served target.entity) security
      >> assert_ops target (target_needs needs relation)
      >> ok (some (target, nested_needs needs))

  abbrev pub follow :
      List EntityAccess → RelationMeta → Result (Option (EntityMeta × List EntityAccess))
  follow needs relation =
      if is_followed needs relation then reach needs relation (meta_of relation.entity) else ok none

  abbrev pub step_declared :
      List EntityAccess
      → Option RelationMeta
      → Option FieldMeta
      → Result (Option (EntityMeta × List EntityAccess))
  step_declared needs (some relation) field =
      guard (all (takes relation.wire) needs) security >> follow needs relation
  step_declared needs none (some field) =
      guard (all (takes field.wire) needs && not (is_dropped field needs)) security >> ok none
  step_declared needs none none = ok none

  -- What a key of an object asks to walk its value by: its own entity for a clause, the relation's entity for a
  -- relation that is followed, and nothing else.
  unfoldable pub step_key :
      EntityMeta → List EntityAccess → Text → Result (Option (EntityMeta × List EntityAccess))
  step_key meta needs key =
      if is_clause key
      then ok (some (meta, needs))
      else step_declared needs (own_at (first_part key) meta.relations)
          (own_at (first_part key) meta.fields)

  unfoldable mutual
    pub walk : EntityMeta → List EntityAccess → Json → Result (Unit {0})
    walk meta needs (array items) = walk_items meta needs items
    walk meta needs (object members) = walk_members meta needs members
    walk meta needs null = ok tt
    walk meta needs (boolean b) = ok tt
    walk meta needs (number b t) = ok tt
    walk meta needs (text t) = ok tt

    pub walk_items : EntityMeta → List EntityAccess → Items → Result (Unit {0})
    walk_items meta needs no_items = ok tt
    walk_items meta needs (item value values) =
        walk meta needs value >> walk_items meta needs values

    pub walk_members : EntityMeta → List EntityAccess → Members → Result (Unit {0})
    walk_members meta needs no_members = ok tt
    walk_members meta needs (member key value later) =
        (step_key meta needs key >>= λ next. walk_on next (λ m n. walk m n value))
        >> walk_members meta needs later

  unfoldable pub assert_exposed : EntityMeta → ApiOp → Json → Json → Result (Unit {0})
  assert_exposed meta op query payload =
      assert_ops meta (op_needs (api_ops op).access op)
      >> walk meta (reads ∷ []) query
      >> walk meta (writes_of op) payload
