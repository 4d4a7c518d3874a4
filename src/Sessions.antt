-- ===== src/Sessions.antt =====
-- src/admin.rs, `AdminSessionPool`: the bounded pool of admin sessions for database lifecycle work.
-- A session's client is known by a number; connecting and preparing it are parameters.
pub mod Pool
pub mod Checkout
pub mod Balance
pub mod Sharing
