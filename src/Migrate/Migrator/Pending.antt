-- ===== src/Migrate/Migrator/Pending.antt =====
-- After a run of every pending migration, none is pending.
use uql.Base.{String, List, none, string_eq}
use uql.Migrate.Migrator.{Migration, MigrationSession, RunOptions}

abbrev pub everything : RunOptions
everything = record { to = none; step = none }

module _ {S : Type 0} (session : MigrationSession S) where
  abbrev name_of : Migration S → String
  name_of m = m.name
