-- ===== src/Tests/Views.antt =====
-- The view without the edges to exception handlers, of three blocks.
use droidsaw_dex.Prelude.{ℕ, refl, List, [], ◌∷◌, ◌↔◌}
use droidsaw_dex.Prelude.Sets.{In}
use droidsaw_dex.Cfg.Blocks.{EdgeKind, Edge, BasicBlock, Cfg}
use droidsaw_dex.Cfg.Views.{
  predecessors_of, normal_predecessors, is_exception, normal_successors,
  normal_predecessors-normal_successors,
}

abbrev block_of : ℕ → List Edge → List ℕ → BasicBlock
block_of id successors predecessors = record {
  id = id;
  start_addr = id;
  instructions = [];
  successors = successors;
  predecessors = predecessors;
}

-- Block 0 falls through to block 1; block 2 handles the exceptions of both.
abbrev guarded : Cfg
guarded = record {
  blocks =
      block_of 0
        (record { target = 1; kind = EdgeKind.fall_through }
          ∷ record { target = 2; kind = EdgeKind.exception_handler 5 }
          ∷ [])
        []
      ∷ block_of 1 (record { target = 2; kind = EdgeKind.exception_catch_all } ∷ []) (0 ∷ [])
      ∷ block_of 2 [] (0 ∷ 1 ∷ [])
      ∷ [];
  entry = 0;
  exception_regions = [];
  addr_to_block = (0, 0) ∷ (1, 1) ∷ (2, 2) ∷ [];
}

normal_predecessors-normal_successors_example : In 0 (0 ∷ []) ↔ (In 0 (0 ∷ []) × In 1 (1 ∷ []))
unfolding predecessors_of normal_predecessors is_exception normal_successors
normal_predecessors-normal_successors_example =
    normal_predecessors-normal_successors guarded 1 0 (0 ∷ []) (0 ∷ []) (1 ∷ []) refl refl refl
