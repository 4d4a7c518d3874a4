-- ===== src/Stale.antt =====
-- src/harness.rs: the owner-aware pass that drops stale databases.
pub mod Classify
pub mod Pass
pub mod Revalidation
pub mod Spared
pub mod Dropping
pub mod Report
