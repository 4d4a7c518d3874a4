-- ===== src/Fingerprint.antt =====
-- src/fingerprint.rs: SHA-256 identities, their hex form and the framed bytes that are hashed.
-- The hash is a parameter.
pub mod Hex
pub mod Frames
pub mod Identity
pub mod Lineage
