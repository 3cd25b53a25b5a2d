-- ===== src/Db.antt =====
-- The database package, db.
pub mod Sql
pub mod Ordering
pub mod Tenancy
pub mod Sessions
