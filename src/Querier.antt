-- ===== src/Querier.antt =====
-- packages/orm/src/querier: queries, pages and transactions.
pub mod Where
pub mod Keyset
pub mod Cursor
pub mod Transaction
pub mod Scope
pub mod RowReader
pub mod SharedHandle
mod Tests
mod ScopeTests
mod RowTests
mod PoolTests
