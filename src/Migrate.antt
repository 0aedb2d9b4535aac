-- ===== src/Migrate.antt =====
-- Migrations, packages/orm/src/migrate: the differences of a schema, and the runs that apply them.
pub mod SchemaChange
pub mod Migrator
pub mod Target
pub mod Lock
mod Tests
