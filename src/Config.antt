-- ===== src/Config.antt =====
-- src/config.rs: the configuration of a harness.
pub mod Project
pub mod Harness
pub mod Usable
pub mod Image
pub mod References
