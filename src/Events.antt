-- ===== src/Events.antt =====
-- src/majsoul/events.rs and tiles.rs: the events of a game, read from the actions of its record.
pub mod Tiles
pub mod Types
pub mod Reading
pub mod Turns
pub mod Ends
pub mod Draw
pub mod Total
pub mod Action
pub mod Written
pub mod Examples
