-- ===== src/Convert.antt =====
-- src/majsoul/convert.rs: the translation of a game's events to mjai.
pub mod Types
pub mod Ranks
pub mod Events
pub mod Stream
pub mod Record
pub mod Bodies
pub mod Clock
pub mod Standing
pub mod Table
pub mod Riichi
pub mod Doras
pub mod Examples
