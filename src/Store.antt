-- ===== src/Store.antt =====
-- internal/store
pub mod Audit
pub mod Postgres
pub mod Redis
pub mod Connections
