-- ===== src/Refetch.antt =====
-- src/refetch.rs: the queue between the backfill, which asks for records, and the collectors.
pub mod Broker
pub mod Queue
pub mod Examples
