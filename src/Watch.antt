-- ===== src/Watch.antt =====
-- src/watch.rs: what the collector reports of each game uuid.
pub mod Registry
pub mod Summary
pub mod Log
pub mod Examples
