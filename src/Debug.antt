-- ===== src/Debug.antt =====
-- src/debug.rs: the debug info of a method, read by a state machine.
pub mod Machine
pub mod Parse
pub mod Lookup
pub mod Scan
pub mod Rounds
pub mod Fuel
pub mod Lines
pub mod Scopes
pub mod Extent
