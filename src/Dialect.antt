-- ===== src/Dialect.antt =====
-- packages/orm/src/dialect, and the SQL text helpers of packages/orm/src/util.
pub mod Like
pub mod WhereSql
pub mod SqlLiteral
mod Tests
