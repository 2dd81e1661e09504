-- ===== src/Pipeline.antt =====
-- src/indexer.rs: how a record gets from the topic into a pack of the bucket and a row of the index.
pub mod Types
pub mod Packing
pub mod World
pub mod Worker
pub mod Run
pub mod Upload
pub mod Inserted
pub mod Outcome
pub mod Held
pub mod Sealing
pub mod Filling
pub mod Fetching
pub mod Safety
pub mod Progress
pub mod Drain
pub mod Examples
