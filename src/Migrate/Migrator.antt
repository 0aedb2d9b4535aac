-- ===== src/Migrate/Migrator.antt =====
-- packages/orm/src/migrate/migrator.ts, with the journal of
-- packages/orm/src/migrate/storage/databaseStorage.ts: which migrations a run takes, and the run.
pub mod Runs
pub mod Pending
pub mod Files
use mathlib.Core.Option
use uql.Base.{
  sort, ℕ, String, Bool, true, false, not, List, [], ◌∷◌, ◌++◌, Option, none, some, if◌then◌else◌,
  ◌==◌, string_eq, any, filter, map, reverse, take,
}
use uql.Result.{Result, ok, err, usage, foreign, ◌>>=◌, ◌>>◌}

pub data RunDirection : Type 0 where
  up down : RunDirection

-- The record that a run holds its lock by, on an engine with no named lock.
abbrev pub lock_record : String
lock_record = "uql/lock"

-- What a migration file exports: each function takes the schema and returns the one that it leaves,
-- and whether it ended without an error. `transaction` is whether it is not declared `false`.
pub record MigrationDefinition (S : Type 0) : Type 0 where
  pub up : S → S × Bool
  pub down : S → S × Bool
  pub transaction : Bool

pub record Migration (S : Type 0) : Type 0 where
  pub name : String
  pub definition : MigrationDefinition S

-- The database: its schema, and the names that the journal's table records, each once.
pub record Database (S : Type 0) : Type 0 where
  pub schema : S
  pub journal : List String

-- What a run uses of its surroundings: the order that `sort` puts names in, the module that a file
-- exports, and the transaction that the engine runs a piece of work in.
pub record MigrationSession (S : Type 0) : Type 0 where
  pub leb : String → String → Bool
  pub imports : String → Option (MigrationDefinition S)
  pub transaction : (Database S → Database S × Bool) → Database S → Database S × Bool

-- `to` and `step`; no `step` takes them all, as `Infinity` does.
pub record RunOptions : Type 0 where
  pub to : Option String
  pub step : Option ℕ

pub record MigrationResult : Type 0 where
  pub name : String
  pub direction : RunDirection

abbrev pub is_recorded : List String → String → Bool
is_recorded names name = any (λ n. n == name) names

-- `files.get(name)`
abbrev pub get : List (String × String) → String → Option String
get [] name = none
get ((n, file) ∷ files) name = let later = get files name in if n == name then some file else later

-- `migrationFiles`: the files by name. `is_migration` tells a migration's file and `base` names it.
unfoldable pub add_files :
    (base : String → String)
    → List (String × String)
    → List String
    → Result (List (String × String))
add_files base files [] = ok files
add_files base files (file ∷ rest) =
    let later = add_files base (files ++ (base file, file) ∷ []) rest in
    elim (get files (base file)) [ some other ↦ err usage | none ↦ later ]

unfoldable pub migration_files :
    (is_migration : String → Bool) (base : String → String)
    → List String
    → Result (List (String × String))
unfolding add_files
migration_files is_migration base entries = add_files base [] (filter is_migration entries)

module _ {S : Type 0} where
  -- `executed` of the storage: the names recorded, the lock's left out.
  abbrev pub executed_names : Database S → List String
  executed_names d = filter (λ n. not (n == lock_record)) d.journal

  -- `logWithQuerier`: the names are the table's key, which refuses one that is there.
  abbrev pub log : String → Database S → Database S × Bool
  log name d =
      if is_recorded d.journal name
      then (d, false)
      else (record d { journal = d.journal ++ name ∷ [] }, true)

  abbrev pub unlog : String → Database S → Database S × Bool
  unlog name d = (record d { journal = filter (λ n. not (n == name)) d.journal }, true)

  abbrev pub then_record :
      (Database S → Database S × Bool) → Database S → S × Bool → Database S × Bool
  then_record keep d (s, true) = keep (record d { schema = s })
  then_record keep d (s, false) = (record d { schema = s }, false)

  -- The `work` of `runMigration`.
  abbrev pub work : RunDirection → Migration S → Database S → Database S × Bool
  work up m d = then_record (log m.name) d (m.definition.up d.schema)
  work down m d = then_record (unlog m.name) d (m.definition.down d.schema)

  unfoldable pub run_migration :
      MigrationSession S → RunDirection → Migration S → Database S → Database S × Bool
  run_migration session direction m d =
      if m.definition.transaction
      then session.transaction (work direction m) d
      else work direction m d

  abbrev pub also :
      MigrationResult
      → Database S × Result (List MigrationResult)
      → Database S × Result (List MigrationResult)
  also r (d, ok rs) = (d, ok (r ∷ rs))
  also r (d, err e) = (d, err e)

  -- The loop of `runInOrder`, which the first failure ends.
  unfoldable pub run_each :
      MigrationSession S
      → RunDirection
      → List (Migration S)
      → Database S
      → Database S × Result (List MigrationResult)
  run_each session direction [] d = (d, ok [])
  run_each session direction (m ∷ ms) d =
      let (after, ended) = run_migration session direction m d in
      let later = run_each session direction ms after in
      if ended
      then also (record { name = m.name; direction = direction }) later
      else (after, err foreign)

-- `selected.slice(0, selected.indexOf(to) + 1)`, where `to` is one of them.
abbrev pub slice_to : String → List String → Option (List String)
slice_to to [] = none
slice_to to (n ∷ ns) =
    let later = slice_to to ns in if n == to then some (n ∷ []) else Option.map (λ l. n ∷ l) later

abbrev pub narrow_to : Option String → List String → Result (List String)
narrow_to none names = ok names
narrow_to (some to) names =
    if to == "" then ok names else elim (slice_to to names) [ some l ↦ ok l | none ↦ err usage ]

abbrev pub narrow_step : Option ℕ → List String → List String
narrow_step none names = names
narrow_step (some n) names = take n names

module _ {S : Type 0} (session : MigrationSession S) where
  -- What `loadMigration` makes of the file's module: `none` where it fails to load or exports none.
  abbrev pub from_module : String → Option (MigrationDefinition S) → Result (Migration S)
  from_module name (some definition) = ok (record { name = name; definition = definition })
  from_module name none = err usage

  unfoldable pub load_migration : String → Option String → Result (Migration S)
  load_migration name none = err usage
  load_migration name (some file) = from_module name (session.imports file)

  unfoldable pub load_each : List (String × String) → List String → Result (List (Migration S))
  unfolding load_migration
  load_each files [] = ok []
  load_each files (n ∷ ns) = do
    let rest = load_each files ns
    m ← load_migration n (get files n)
    ms ← rest
    ok (m ∷ ms)

  abbrev pub run_loaded :
      RunDirection
      → Result (List (Migration S))
      → Database S
      → Database S × Result (List MigrationResult)
  run_loaded direction (ok ms) d = run_each session direction ms d
  run_loaded direction (err e) d = (d, err e)

  unfoldable pub run_in_order :
      List (String × String)
      → List String
      → RunDirection
      → RunOptions
      → Database S
      → Database S × Result (List MigrationResult)
  run_in_order files names direction options d =
      run_loaded direction
        (narrow_to options.to names >>= λ l. load_each files (narrow_step options.step l)) d

  -- The pending names of `journal`, and the executed ones, both in name order.
  abbrev pub executed : Database S → List String
  executed d = sort session.leb (executed_names d)

  abbrev pub pending : List (String × String) → Database S → List String
  pending files d =
      filter (λ name. not (is_recorded (executed d) name)) (sort session.leb (map (λ f. f.0) files))

  abbrev pub names_of : RunDirection → List (String × String) → Database S → List String
  names_of up files d = pending files d
  names_of down files d = reverse (executed d)

  -- `migrate`, on the files of `migrationFiles` and under the lock.
  unfoldable pub migrate :
      RunDirection
      → RunOptions
      → List (String × String)
      → Database S
      → Database S × Result (List MigrationResult)
  migrate direction options files d =
      run_in_order files (names_of direction files d) direction options d
