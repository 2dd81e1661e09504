-- ===== src/Gc.antt =====
-- src/gc.rs: the collection of pack objects that no index row names.
pub mod Orphans
pub mod Examples
