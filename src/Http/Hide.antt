-- ===== src/Http/Hide.antt =====
-- packages/orm/src/http/exposure.ts: the query that a call runs with, which reads no field that its client may not.
-- Where the code hands back an object it did not change, these build an equal one.
pub mod Selection
use uql.Base.{
  String, Bool, true, false, ◌&&◌, not, Option, none, some, if◌then◌else◌, List, [], ◌∷◌, filter,
  map, ◌==◌, Equal,
}
use uql.Text.{Text, codes, text_eq}
use uql.Result.{Result, ok, ◌>>◌, ◌>>=◌}
use uql.Http.Json.{
  Json, null, boolean, number, text, array, object, Members, no_members, member, value_at, is_set,
}
use uql.Http.Wire.{reads, OpAccess, does, saves, WireAnswer, count, OpShape, ApiOp, api_ops}
use uql.Http.Exposure.{EntityMeta, RelationMeta, takes, own_at, assert_exposed}

-- `{ ...object, [key]: value }`
abbrev pub set_member : Text → Json → Members → Members
set_member key value no_members = member key value no_members
set_member key value (member k v ms) =
    let later = set_member key value ms in if k == key then member k value ms else member k v later

abbrev pub no_value_set : Members → Bool
no_value_set no_members = true
no_value_set (member k v ms) = not (is_set v) && no_value_set ms

-- `leavesOut`: whether a projection reads every field but those that it names.
abbrev pub leaves_out : Option Json → Bool
leaves_out none = true
leaves_out (some (object ms)) = no_value_set ms
leaves_out (some _) = false

-- `isPlainObject(value) && value`, spread.
abbrev pub members_of : Option Json → Members
members_of (some (object ms)) = ms
members_of _ = no_members

unfoldable pub hidden_keys : EntityMeta → List Text
hidden_keys meta = map (λ f. f.0) (filter (λ f. not (takes f.1.wire reads)) meta.fields)

abbrev pub leave_out : List Text → Members → Members
leave_out [] ms = ms
leave_out (key ∷ keys) ms = leave_out keys (set_member key (boolean false) ms)

abbrev pub hide_keys : List Text → Option Json → Option Json
hide_keys [] select = select
hide_keys (key ∷ keys) select =
    if leaves_out select then some (object (leave_out (key ∷ keys) (members_of select))) else select

abbrev pub hidden_select : EntityMeta → Option Json → Option Json
hidden_select meta select = hide_keys (hidden_keys meta) select

abbrev pub set_if : Text → Option Json → Members → Members
set_if key none query = query
set_if key (some value) query = set_member key value query

-- What stands for a nested query that is set and is no object.
abbrev pub read_below : Option Json → Json → Json
read_below none nested = nested
read_below (some select) nested =
    if is_set nested then object (member (codes "$select") select no_members) else nested

-- The query with its projection and what it populates in place.
abbrev pub hidden_query : EntityMeta → Members → Option Json → Members
hidden_query meta query populate =
    set_if (codes "$populate") populate
      (set_if (codes "$select") (hidden_select meta (value_at (codes "$select") query)) query)

module _ (meta_of : String → EntityMeta) where
  unfoldable mutual
    -- `$populate` of the query that results.
    pub populate_in : EntityMeta → Members → Option Json
    populate_in meta no_members = none
    populate_in meta (member key value later) =
        let rest = populate_in meta later in
        let found = populate_of meta value in if key == codes "$populate" then some found else rest

    pub populate_of : EntityMeta → Json → Json
    populate_of meta (object entries) = object (populate_each meta entries)
    populate_of meta null = null
    populate_of meta (boolean b) = boolean b
    populate_of meta (number b t) = number b t
    populate_of meta (text t) = text t
    populate_of meta (array vs) = array vs

    pub populate_each : EntityMeta → Members → Members
    populate_each meta no_members = no_members
    populate_each meta (member key nested later) =
        member key (populate_relation (own_at key meta.relations) nested) (populate_each meta later)

    pub populate_relation : Option RelationMeta → Json → Json
    populate_relation none nested = nested
    populate_relation (some relation) (object query) =
        object (
          hidden_query (meta_of relation.entity) query
            (populate_in (meta_of relation.entity) query))
    populate_relation (some relation) null = null
    populate_relation (some relation) (boolean b) =
        read_below (hidden_select (meta_of relation.entity) none) (boolean b)
    populate_relation (some relation) (number b t) =
        read_below (hidden_select (meta_of relation.entity) none) (number b t)
    populate_relation (some relation) (text t) =
        read_below (hidden_select (meta_of relation.entity) none) (text t)
    populate_relation (some relation) (array vs) =
        read_below (hidden_select (meta_of relation.entity) none) (array vs)

  unfoldable pub hide_unreadable : EntityMeta → Members → Members
  hide_unreadable meta query = hidden_query meta query (populate_in meta query)

-- A read that answers rows.
abbrev pub is_counted : WireAnswer → Bool
is_counted count = true
is_counted _ = false

abbrev pub is_reading : OpAccess → Bool
is_reading (does reads) = true
is_reading _ = false

abbrev pub answers_rows : ApiOp → Bool
answers_rows op = is_reading (api_ops op).access && not (is_counted (api_ops op).answers)

module _ (meta_of : String → EntityMeta) (served : String → Bool) where
  unfoldable pub exposed_query : EntityMeta → ApiOp → Members → Json → Result Members
  exposed_query meta op query payload =
      assert_exposed meta_of served meta op (object query) payload
      >> ok (if answers_rows op then hide_unreadable meta_of meta query else query)
