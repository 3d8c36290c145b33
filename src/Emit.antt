-- ===== src/Emit.antt =====
-- src/emit_dex.rs: decoded instructions written back as code units.
pub mod Operands
pub mod Instruction
pub mod Canonical
pub mod RoundTrip
pub mod Payload
pub mod Tables
pub mod Header
pub mod Value
pub mod Annotation
pub mod ClassData
