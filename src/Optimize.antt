-- ===== src/Optimize.antt =====
-- src/optimize.rs: constant folding.
pub mod Classes
pub mod Fold
pub mod Range
pub mod Pick
pub mod Emitted
