-- ===== src/Decode.antt =====
-- src/decode.rs: instructions decoded from the code units of a code item.
pub mod Format
pub mod Insn
pub mod Reader
pub mod Single
pub mod Item
pub mod Payload
pub mod Stream
