-- ===== src/Admin.antt =====
-- src/admin.rs: statements, the PostgreSQL server that runs them, and the calls on a client.
pub mod Statements
pub mod Postgres
pub mod Action
pub mod Client
pub mod Deadlines
pub mod Settings
pub mod Keys
pub mod Tracking
pub mod Configured
