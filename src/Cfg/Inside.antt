-- ===== src/Cfg/Inside.antt =====
-- No control flow comes into the middle of a block.
use droidsaw_dex.Cfg.Blocks.{Cfg}
use droidsaw_dex.Cfg.Boundary.{Boundary}
