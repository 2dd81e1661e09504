-- ===== src/Pack.antt =====
-- src/pack.rs: the `.mjpack` container, its writer, its scanner and its readers.
pub mod Format
pub mod Examples
pub mod Store
