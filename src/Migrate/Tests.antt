-- ===== src/Migrate/Tests.antt =====
-- Runs of the migrations' code on given inputs, and its theorems at them.
use uql.Base.{
  sort, ℕ, ◌+◌, leb, String, Bool, true, false, not, ◌==◌, string_eq, if◌then◌else◌, ◌⊎◌, inl, inr,
  Bool-cases, nat_eq, List, [], ◌∷◌, none, some, ◌≡◌, refl, All, map, flat_map,
}
use uql.Migrate.SchemaChange.{ColumnSchema, changes_of, change_of, added, dropped, lacks_value}
use uql.Migrate.SchemaChange.Diff.{
  SchemaDiff, unfillable_restores, IndexSchema, column, json, alter, reverse_diff, rollback_diff,
}
use uql.Migrate.SchemaChange.Diff.Reverse.{
  reverse_diff-sides, reverse_diff-reverse_diff, unmarked, Undoes,
}
use uql.Migrate.SchemaChange.Diff.Exchange.{Exchanges}
use uql.Migrate.SchemaChange.Diff.Rollback.{rollback_diff-fillable}
use uql.Result.{Error, Result, ok, err, security, foreign}
use uql.Migrate.Target.{
  SqlQuerier, EngineLaws, session_transaction, sql_session, sql_session-TransactionLaws,
}
use uql.Migrate.Lock.{LockSession, ask, holding_lock}
use uql.Migrate.Lock.Holding.{fuel_for}
use uql.Migrate.Migrator.{
  up, down, MigrationDefinition, Migration, Database, MigrationSession, migrate, run_in_order,
  run_each, run_migration, load_each, load_migration,
}
use uql.Migrate.Migrator.Runs.{TransactionLaws, Applied, selected, migrate-Applied}
use uql.Migrate.Migrator.{migration_files, add_files}
use uql.Migrate.Migrator.Pending.{everything}

abbrev age : ColumnSchema
age = record {
  name = "age";
  type = "INT";
  nullable = false;
  default_value = none;
  generated_as = none;
  is_auto_increment = false;
}

abbrev by_mail : IndexSchema
by_mail = record {
  name = "by_mail";
  entries =
      record { read = column "mail"; modifiers = [] }
      ∷ record { read = json "data" none; modifiers = [] }
      ∷ [];
  unique = true;
  options = [];
}

-- Drops a required column and an index of a renamed one.
abbrev shrink : SchemaDiff
shrink = record {
  table_name = "user";
  type = alter;
  primary_key = none;
  columns = some (record { from = some age; to = none; is_breaking = true } ∷ []);
  indexes = some (record { from = some by_mail; to = none } ∷ []);
  foreign_keys = none;
  checks = none;
  triggers = none;
  renamed_columns = some (record { from = "email"; to = "mail" } ∷ []);
  rebuild = none;
}

abbrev unrenamed : SchemaDiff
unrenamed = record shrink { renamed_columns = none }

rollback_diff_run :
    added (map change_of (changes_of (rollback_diff shrink).columns))
    ≡ record age { nullable = true } ∷ []
unfolding rollback_diff added flat_map reverse_diff unfillable_restores lacks_value dropped
rollback_diff_run = refl

reverse_diff-sides_example : Undoes shrink (reverse_diff shrink)
reverse_diff-sides_example = reverse_diff-sides shrink

reverse_diff-reverse_diff_example :
    Exchanges unrenamed (reverse_diff unrenamed)
    × (reverse_diff (reverse_diff unrenamed) ≡ record unrenamed {
      columns = some (unmarked (record { from = some age; to = none; is_breaking = true }) ∷ []);
    })
reverse_diff-reverse_diff_example = reverse_diff-reverse_diff unrenamed refl

rollback_diff-fillable_example :
    All
      (λ x. lacks_value x ≡ false)
      (added (map change_of (changes_of (rollback_diff shrink).columns)))
rollback_diff-fillable_example = rollback_diff-fillable shrink refl

-- A schema that counts what ran on it; the file `3.ts` fails half way.
abbrev adds : Bool → MigrationDefinition ℕ
adds fine = record { up = λ s. (s + 1, fine); down = λ s. (s + 1, true); transaction = true }

-- A SQLite connection, on which a schema of seven leaves a reference to a missing row.
abbrev sqlite : SqlQuerier ℕ
sqlite = record {
  rebuilds_tables = true;
  enforces = λ d. true;
  is_whole = λ d. not (d.schema == 7);
  transaction = λ w d. let r = w d in if r.1 then r else (d, false);
}

sqlite-EngineLaws : EngineLaws sqlite
sqlite-EngineLaws = record {
  ends = λ w d. elim (Bool-cases (w d).1) [ inl e ↦ inl (rw e refl) | inr e ↦ inr (rw e refl) ];
  rolls_back = λ r w d e. rw e refl;
}

abbrev counting : MigrationSession ℕ
counting = sql_session sqlite (λ a b. true) (λ file. some (adds (not (file == "3.ts"))))

counting-TransactionLaws : TransactionLaws counting
counting-TransactionLaws = sql_session-TransactionLaws sqlite sqlite-EngineLaws _ _

abbrev empty_database : Database ℕ
empty_database = record { schema = 0; journal = [] }

-- Leaves the reference to a missing row.
abbrev adds_seven : Database ℕ → Database ℕ × Bool
adds_seven d = (record d { schema = d.schema + 7 }, true)

session_transaction_run :
    session_transaction sqlite adds_seven empty_database ≡ (empty_database, false)
session_transaction_run = refl

abbrev three_files : List (String × String)
three_files = ("1", "1.ts") ∷ ("2", "2.ts") ∷ ("3", "3.ts") ∷ []

abbrev two_files : List (String × String)
two_files = ("1", "1.ts") ∷ ("2", "2.ts") ∷ []

abbrev one_file : List (String × String)
one_file = ("1", "1.ts") ∷ []

abbrev one_ran : Database ℕ
one_ran = record { schema = 1; journal = "1" ∷ [] }

migrate_run :
    migrate counting up everything three_files one_ran
    ≡ (record { schema = 2; journal = "1" ∷ "2" ∷ [] }, err foreign)
unfolding migrate run_in_order run_each run_migration load_each load_migration sort
migrate_run = refl

-- The migration ended, and its transaction failed.
migrate_check_run :
    migrate counting up everything one_file (record { schema = 6; journal = [] })
    ≡ (record { schema = 6; journal = [] }, err foreign)
unfolding migrate run_in_order run_each run_migration load_each load_migration sort
migrate_check_run = refl

migrate_down_run :
    migrate counting down (record { to = none; step = some 1 }) two_files one_ran
    ≡ (record { schema = 2; journal = [] }, ok (record { name = "1"; direction = down } ∷ []))
unfolding migrate run_in_order run_each run_migration load_each load_migration sort
migrate_down_run = refl

migrate-Applied_example :
    ((ms : List (Migration ℕ)) × (selected counting counting-TransactionLaws up everything
          three_files one_ran
        ≡ ok ms)
      × Applied up ms one_ran (migrate counting up everything three_files one_ran))
    ⊎ ((e : Error) × (migrate counting up everything three_files one_ran ≡ (one_ran, err e)))
migrate-Applied_example =
    migrate-Applied counting counting-TransactionLaws up everything three_files one_ran

-- A lock that another run holds until the clock, the first number, reads 500; the second number is 1
-- while this run holds it, and 2 once it was released.
abbrev busy : LockSession (ℕ × ℕ)
busy = record {
  take = λ w. if leb 500 w.0 then ((w.0, 1), ok true) else (w, ok false);
  release = λ w. ((w.0, 2), true);
  now = λ w. w.0;
  wait = λ w. (w.0 + 250, w.1);
}

abbrev fails_in_work : ℕ × ℕ → (ℕ × ℕ) × Result ℕ
fails_in_work w = (w, err security)

holding_lock_run :
    holding_lock busy 1000 (fuel_for 1000) fails_in_work (0, 0) ≡ some ((500, 2), err security)
unfolding holding_lock ask
holding_lock_run = refl

holding_lock_timeout_run :
    holding_lock busy 300 (fuel_for 300) fails_in_work (0, 0) ≡ some ((500, 2), err security)
unfolding holding_lock ask
holding_lock_timeout_run = refl

-- A lock whose statement fails: its error ends the run.
abbrev broken : LockSession (ℕ × ℕ)
broken = record busy { take = λ w. (w, err foreign) }

holding_lock_rejected_run :
    holding_lock broken 300 (fuel_for 300) fails_in_work (0, 0) ≡ some ((0, 0), err foreign)
unfolding holding_lock ask
holding_lock_rejected_run = refl

-- A folder with two migrations and a file that is none; each is named by its first letter.
abbrev is_script : String → Bool
is_script file = not (file == "readme")

abbrev without_suffix : String → String
without_suffix file = if file == "a.ts" then "a" else "b"

migration_files_run :
    migration_files is_script without_suffix ("a.ts" ∷ "readme" ∷ "b.js" ∷ [])
    ≡ ok (("a", "a.ts") ∷ ("b", "b.js") ∷ [])
unfolding migration_files add_files
migration_files_run = refl
