-- ===== src/Debug/Scopes.antt =====
-- The scopes of the locals in one register do not overlap.
pub mod Active
pub mod State
pub mod Machine
pub mod Lookup
