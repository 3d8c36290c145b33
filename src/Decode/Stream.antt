-- ===== src/Decode/Stream.antt =====
-- src/decode.rs: `decode_insns`, the loop over the code units of a method and the checks behind it.
pub mod Step
pub mod Checks
pub mod Insns
pub mod Order
pub mod Clean
pub mod Landing
