-- ===== src/Schema.antt =====
-- The schema of tables, packages/orm/src/schema.
pub mod CanonicalType
pub mod Match
pub mod Nodes
pub mod Differ
pub mod Renames
pub mod CreateOrder
pub mod Indexes
mod Tests
mod IndexTests
