-- ===== src/Migrate/SchemaChange.antt =====
-- packages/orm/src/migrate/schemaChange.ts: the changes of a table, undone and rolled back. A change
-- list that is left off a diff is `none`.
pub mod Diff
use mathlib.Core.Option
use uql.Base.{
  is_some, String, Bool, true, false, ◌&&◌, ◌||◌, not, List, [], ◌∷◌, Option, none, some,
  if◌then◌else◌, ◌==◌, string_eq, any, filter, map, flat_map,
}

-- `Change` and `Alteration` of packages/orm/src/type/migration.ts.
pub record Change (T : Type 0) : Type 0 where
  pub from : Option T
  pub to : Option T

pub record Alteration (T : Type 0) : Type 0 where
  pub from : T
  pub to : T

-- What `ColumnSchema` says of a column's values: an expression that is empty generates nothing.
pub record ColumnSchema : Type 0 where
  pub name : String
  pub type : String
  pub nullable : Bool
  pub default_value : Option String
  pub generated_as : Option String
  pub is_auto_increment : Bool

abbrev pub is_generated : ColumnSchema → Bool
is_generated c = elim c.generated_as [ some sql ↦ not (sql == "") | none ↦ false ]

-- `lacksValue` of packages/orm/src/util/field.util.ts.
unfoldable pub lacks_value : ColumnSchema → Bool
lacks_value c =
    not c.nullable
    && not (is_some c.default_value)
    && not (is_generated c)
    && not c.is_auto_increment

abbrev pub list_of : {T : Type 0} → Option T → List T
list_of none = []
list_of (some x) = x ∷ []

-- `changes ?? []`
abbrev pub changes_of : {T : Type 0} → Option (List T) → List T
changes_of none = []
changes_of (some xs) = xs

pub data Side : Type 0 where
  from_side to_side : Side

module _ {T : Type 0} where
  abbrev pub end_of : Side → Change T → Option T
  end_of from_side change = change.from
  end_of to_side change = change.to

  unfoldable pub sides : List (Change T) → Side → List T
  sides changes side = flat_map (λ change. list_of (end_of side change)) changes

  abbrev pub added_by : Option T → Option T → List T
  added_by none (some x) = x ∷ []
  added_by _ _ = []

  unfoldable pub added : List (Change T) → List T
  added changes = flat_map (λ change. added_by change.from change.to) changes

  unfoldable pub dropped : List (Change T) → List T
  dropped changes = flat_map (λ change. added_by change.to change.from) changes

  abbrev pub altered_by : Option T → Option T → List (Alteration T)
  altered_by (some x) (some y) = record { from = x; to = y } ∷ []
  altered_by _ _ = []

  unfoldable pub alterations : List (Change T) → List (Alteration T)
  alterations changes = flat_map (λ change. altered_by change.from change.to) changes

  abbrev pub swap : Change T → Change T
  swap change = record { from = change.to; to = change.from }

  abbrev pub put_back : Change T → (T → T) → Change T
  put_back change restore = record { from = change.to; to = Option.map restore change.from }

  abbrev pub non_empty : List T → Option (List T)
  non_empty [] = none
  non_empty (x ∷ xs) = some (x ∷ xs)

-- A column's change, and whether it can lose what the column holds.
pub record ColumnChange : Type 0 where
  pub from : Option ColumnSchema
  pub to : Option ColumnSchema
  pub is_breaking : Bool

abbrev pub change_of : ColumnChange → Change ColumnSchema
change_of c = record { from = c.from; to = c.to }

-- `swap` on a column's change says nothing of what it breaks.
abbrev pub swap_column : ColumnChange → ColumnChange
swap_column c = record { from = c.to; to = c.from; is_breaking = false }

abbrev required_by : Option ColumnSchema → Option ColumnSchema → List (Change ColumnSchema)
required_by from none = []
required_by none (some to) =
    if not to.nullable then record { from = none; to = some to } ∷ [] else []
required_by (some from) (some to) =
    if not to.nullable && from.nullable then record { from = some from; to = some to } ∷ [] else []

unfoldable pub newly_required : List (Change ColumnSchema) → List (Change ColumnSchema)
newly_required changes = flat_map (λ change. required_by change.from change.to) changes

abbrev pub only_rebuilt : ColumnChange → Bool
only_rebuilt c = elim c.from [
  | none ↦ elim c.to [ some to ↦ is_generated to | none ↦ false ]
  | some from ↦ is_some c.to
]
