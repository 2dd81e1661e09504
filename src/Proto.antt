-- ===== src/Proto.antt =====
-- src/majsoul/proto.rs: the hand-written protobuf decoder.
pub mod Errors
pub mod Varint
pub mod Fields
pub mod Text
pub mod Record
pub mod Game
mod Examples
