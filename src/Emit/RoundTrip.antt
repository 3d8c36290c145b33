-- ===== src/Emit/RoundTrip.antt =====
-- `emit_instruction` on what `decode_single` returned, format by format.
pub mod Fields
pub mod Simple
pub mod Branches
pub mod Args
pub mod Redecode
pub mod Whole
