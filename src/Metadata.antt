-- ===== src/Metadata.antt =====
-- src/metadata.rs: the metadata that the harness writes as a database's comment, and reads back.
pub mod Decimal
pub mod Fields
pub mod Resource
pub mod RoundTrip
