-- ===== src/Querier/RowReader/Paths.antt =====
-- What packages/orm/src/querier/rowReader.ts writes under the paths of a row; a change goes by `holderAt`.
use uql.Base.{List, [], ◌∷◌, Option, none, some, if◌then◌else◌, ◌==◌}
use uql.Text.{Text, text_eq}
use uql.Http.Json.{
  Json, null, boolean, number, text, array, object, Members, no_members, member, value_at,
}

abbrev pub KeyPath : Type 0
KeyPath = List Text

-- `row[key] = v`
abbrev pub assign : Text → Json → Members → Members
assign key v no_members = member key v no_members
assign key v (member k w ms) =
    let rest = assign key v ms in if k == key then member k v ms else member k w rest

-- The record under a key, or a new one.
abbrev pub record_or_new : Option Json → Members
record_or_new none = no_members
record_or_new (some null) = no_members
record_or_new (some (boolean b)) = no_members
record_or_new (some (number b t)) = no_members
record_or_new (some (text t)) = no_members
record_or_new (some (array vs)) = no_members
record_or_new (some (object ms)) = ms

unfoldable pub set_at : KeyPath → Json → Members → Members
set_at [] v row = row
set_at (k ∷ []) v row = assign k v row
set_at (k ∷ j ∷ path) v row =
    assign k (object (set_at (j ∷ path) v (record_or_new (value_at k row)))) row

abbrev pub record_of : Option Json → Option Members
record_of none = none
record_of (some null) = none
record_of (some (boolean b)) = none
record_of (some (number b t)) = none
record_of (some (text t)) = none
record_of (some (array vs)) = none
record_of (some (object ms)) = some ms

-- A change of the record at a path, if every step to it is one.
abbrev pub changed_under : Text → Option Members → (Members → Members) → Members → Members
changed_under k none change row = row
changed_under k (some ms) change row = assign k (object (change ms)) row

unfoldable pub change_at : KeyPath → (Members → Members) → Members → Members
change_at [] change row = change row
change_at (k ∷ path) change row =
    changed_under k (record_of (value_at k row)) (λ ms. change_at path change ms) row
