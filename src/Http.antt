-- ===== src/Http.antt =====
-- The API that serves entities over HTTP, packages/orm/src/http.
pub mod Json
pub mod Wire
pub mod Exposure
pub mod Hide
mod Tests
