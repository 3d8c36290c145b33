-- ===== src/Tests.antt =====
-- The theorems at concrete inputs.
mod Codec
mod Graph
mod Views
mod Stream
mod Folding
mod Tables
mod Header
mod Samples
mod Debug
mod Values
mod Items
mod Classes
