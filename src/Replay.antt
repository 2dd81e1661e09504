-- ===== src/Replay.antt =====
-- src/replay.rs: the statistics of each seat, read off the mjai events of a game.
pub mod Stats
pub mod Reading
pub mod Dora
pub mod Hands
pub mod Wins
pub mod Game
