-- ===== src/Cfg/Predecessors.antt =====
-- The predecessor sets that `Cfg::build` fills in are those of the edges.
mod Added
pub use Added.{predecessors_at, HasPair}
use droidsaw_dex.Prelude.{◌≡◌, List, [], All}
use droidsaw_dex.Cfg.Blocks.{BasicBlock, Cfg}

NoPredecessors : List BasicBlock → Type 0
NoPredecessors bs = All (λ (b : BasicBlock). b.predecessors ≡ []) bs
