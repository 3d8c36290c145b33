-- ===== src/Cfg.antt =====
-- src/cfg.rs: the control flow graph of a method.
pub mod Blocks
pub mod Boundary
pub mod Edges
pub mod Build
pub mod Views
pub mod Leaders
pub mod Shape
pub mod Partition
pub mod Inside
pub mod Targets
pub mod Total
pub mod Predecessors
