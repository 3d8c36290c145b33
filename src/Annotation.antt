-- ===== src/Annotation.antt =====
-- src/annotation.rs: encoded values, and the parser of them that keeps its own stack.
pub mod Value
pub mod Primitive
pub mod Numbers
pub mod ReadBack
pub mod RoundTrip
pub mod Frames
pub mod Advances
pub mod Walk
pub mod Items
