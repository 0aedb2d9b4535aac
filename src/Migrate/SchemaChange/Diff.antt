-- ===== src/Migrate/SchemaChange/Diff.antt =====
-- `SchemaDiff` of packages/orm/src/type/migration.ts, and how schemaChange.ts undoes one.
pub mod Exchange
pub mod Same
pub mod Reverse
pub mod Rollback
use mathlib.Core.Option
use uql.Base.{
  String, Bool, true, false, ◌&&◌, ◌||◌, not, List, [], ◌∷◌, Option, none, some, if◌then◌else◌,
  ◌==◌, string_eq, any, filter, map, flat_map, is_some,
}
use uql.Migrate.SchemaChange.{
  Change, Alteration, ColumnSchema, ColumnChange, change_of, changes_of, swap, swap_column,
  put_back, non_empty, only_rebuilt, dropped, lacks_value,
}

pub record PrimaryKeySchema : Type 0 where
  pub columns : List String
  pub name : Option String

-- What an index entry reads: a column, a path into a JSON column, or an expression.
pub data EntryRead : Type 0 where
  column : String → EntryRead
  json : String → Option String → EntryRead
  expression : String → EntryRead

-- An index entry: what it reads, and its modifiers as they are written.
pub record IndexEntry : Type 0 where
  pub read : EntryRead
  pub modifiers : List (String × String)

pub record IndexSchema : Type 0 where
  pub name : String
  pub entries : List IndexEntry
  pub unique : Bool
  pub options : List (String × String)

pub record ForeignKeySchema : Type 0 where
  pub name : Option String
  pub columns : List String
  pub table : String
  pub references : List String
  pub on_delete : Option String
  pub on_update : Option String

pub record CheckSchema : Type 0 where
  pub name : String
  pub condition : String

pub record TriggerSchema : Type 0 where
  pub name : String
  pub statements : List String

pub record RebuiltTable : Type 0 where
  pub statements : List String
  pub columns : List String

pub data DiffType : Type 0 where
  create alter drop : DiffType

pub record SchemaDiff : Type 0 where
  pub table_name : String
  pub type : DiffType
  pub primary_key : Option (Change PrimaryKeySchema)
  pub columns : Option (List ColumnChange)
  pub indexes : Option (List (Change IndexSchema))
  pub foreign_keys : Option (List (Change ForeignKeySchema))
  pub checks : Option (List (Change CheckSchema))
  pub triggers : Option (List (Change TriggerSchema))
  pub renamed_columns : Option (List (Alteration String))
  pub rebuild : Option (Alteration RebuiltTable)

unfoldable pub needs_rebuild : SchemaDiff → Bool
needs_rebuild d =
    is_some d.primary_key
    || is_some d.foreign_keys
    || is_some d.checks
    || any only_rebuilt (changes_of d.columns)

unfoldable pub without_rebuild : SchemaDiff → SchemaDiff
without_rebuild d = record d {
  primary_key = none;
  foreign_keys = none;
  checks = none;
  columns = non_empty (filter (λ c. not (only_rebuilt c)) (changes_of d.columns));
  rebuild = none;
}

unfoldable pub unfillable_restores : SchemaDiff → List ColumnSchema
unfillable_restores d =
    if is_some d.rebuild
    then []
    else filter lacks_value (dropped (map change_of (changes_of d.columns)))

abbrev pub turned : {T : Type 0} → Alteration T → Alteration T
turned a = record { from = a.to; to = a.from }

-- `renamed.get(column) ?? column`, where the last rename of a column counts.
unfoldable pub name_of : List (Alteration String) → String → String
name_of [] c = c
name_of (r ∷ rs) c =
    let later = name_of rs c in
    if any (λ q. q.from == c) rs then later else if r.from == c then r.to else c

-- `renamedEntry` of packages/orm/src/util/indexEntry.util.ts.
abbrev pub renamed_read : (String → String) → EntryRead → EntryRead
renamed_read rename (column c) = column (rename c)
renamed_read rename (json c path) = json (rename c) path
renamed_read rename (expression sql) = expression sql

abbrev pub renamed_entry : (String → String) → IndexEntry → IndexEntry
renamed_entry rename e = record e { read = renamed_read rename e.read }

abbrev pub rename_index_entries : List IndexEntry → (String → String) → List IndexEntry
rename_index_entries entries rename = map (renamed_entry rename) entries

abbrev pub rename_key : (String → String) → PrimaryKeySchema → PrimaryKeySchema
rename_key rename key = record key { columns = map rename key.columns }

abbrev pub rename_index : (String → String) → IndexSchema → IndexSchema
rename_index rename index = record index { entries = rename_index_entries index.entries rename }

abbrev pub rename_foreign_key : (String → String) → ForeignKeySchema → ForeignKeySchema
rename_foreign_key rename key = record key { columns = map rename key.columns }

-- `renamedColumns`, and the name that a column has once they have run.
abbrev pub renames_back : SchemaDiff → List (Alteration String)
renames_back d = map turned (changes_of d.renamed_columns)

unfoldable pub reverse_diff : SchemaDiff → SchemaDiff
reverse_diff d =
    let rename = name_of (renames_back d) in
    record d {
      primary_key = Option.map (λ c. put_back c (rename_key rename)) d.primary_key;
      columns = Option.map (map swap_column) d.columns;
      indexes = Option.map (map (λ c. put_back c (rename_index rename))) d.indexes;
      foreign_keys = Option.map (map (λ c. put_back c (rename_foreign_key rename))) d.foreign_keys;
      checks = Option.map (map swap) d.checks;
      triggers = Option.map (map swap) d.triggers;
      renamed_columns = Option.map (map turned) d.renamed_columns;
      rebuild = Option.map turned d.rebuild;
    }

-- Whether a column is one of `unfillable`, told by its name: a diff changes a column once.
abbrev pub is_among : List ColumnSchema → ColumnSchema → Bool
is_among unfillable c = any (λ u. u.name == c.name) unfillable

abbrev pub restored : List ColumnSchema → Option ColumnSchema → Option ColumnSchema
restored unfillable none = none
restored unfillable (some c) = some (record c { nullable = is_among unfillable c || c.nullable })

-- The `to` of a change that puts back a column nothing fills, made nullable.
abbrev pub restore_column : List ColumnSchema → ColumnChange → ColumnChange
restore_column unfillable c = record c { to = restored unfillable c.to }

unfoldable pub rollback_diff : SchemaDiff → SchemaDiff
rollback_diff d =
    let unfillable = unfillable_restores d in
    let reversed = reverse_diff d in
    record reversed { columns = Option.map (map (restore_column unfillable)) reversed.columns }
