-- ===== src/Cfg/Build.antt =====
-- src/cfg.rs: `Cfg::build`, the exception regions and the look-up by address.
use droidsaw_dex.Prelude.{ℕ, ◌+◌, Option, none, some, List, [], ◌∷◌, get_elem?, leb, if◌then◌else◌}
use droidsaw_dex.Decode.Insn.{Instruction}
use droidsaw_dex.Decode.Item.{TryItem, CatchHandler, CodeItem}
use droidsaw_dex.Cfg.Blocks.{EdgeKind, Edge, ExceptionRegion, Cfg, find_leaders, build_blocks}
use droidsaw_dex.Cfg.Edges.{handler_edges, add_edges, add_exception_edges, fill_predecessors}

unfoldable pub handler_blocks : List Edge → List (EdgeKind × ℕ)
handler_blocks [] = []
handler_blocks (e ∷ es) = (e.kind, e.target) ∷ handler_blocks es

unfoldable pub exception_region : List (ℕ × ℕ) → TryItem → CatchHandler → ExceptionRegion
exception_region addr_map try handler = record {
  start_addr = try.start_addr;
  end_addr = try.start_addr + try.insn_count;
  handler_blocks = handler_blocks (handler_edges addr_map handler);
}

-- `none` is the panic of an index out of range.
unfoldable pub regions_from :
    List TryItem → List CatchHandler → List (ℕ × ℕ) → Option (List ExceptionRegion)
regions_from [] handlers addr_map = some []
regions_from (try ∷ tries) handlers addr_map =
    let rest = regions_from tries handlers addr_map in
    elim (get_elem? handlers try.handler_idx) [
      | none ↦ none
      | some handler ↦ elim rest [
        | none ↦ none
        | some regions ↦ some (exception_region addr_map try handler ∷ regions)
      ]
    ]

unfoldable pub build_exception_regions : CodeItem → List (ℕ × ℕ) → Option (List ExceptionRegion)
build_exception_regions code addr_map = regions_from code.tries code.catch_handlers addr_map

infixl 1 ◌>>=◌
abbrev ◌>>=◌ : {A B : Type 0} → Option A → (A → Option B) → Option B
none >>= f = none
some a >>= f = f a

-- The graph of a code item with instructions; `none` is a panic on the way.
unfoldable pub build_nonempty : CodeItem → Option Cfg
build_nonempty code = do
  let built = build_blocks code (find_leaders code)
  blocks ← add_exception_edges (add_edges built.0 built.1 code) built.1 code
  linked ← fill_predecessors blocks
  regions ← build_exception_regions code built.1
  some (record { blocks = linked; entry = 0; exception_regions = regions; addr_to_block = built.1 })

unfoldable pub build_from : List Instruction → CodeItem → Option Cfg
build_from [] code =
    some (record { blocks = []; entry = 0; exception_regions = []; addr_to_block = [] })
build_from (i ∷ is) code = build_nonempty code

-- `Cfg::build`
unfoldable pub build : CodeItem → Option Cfg
unfolding build_from
build code = build_from code.instructions code

-- `addr_to_block.range(..=addr).next_back()`
unfoldable pub last_at_most : ℕ → List (ℕ × ℕ) → Option ℕ → Option ℕ
last_at_most addr [] found = found
last_at_most addr ((a, idx) ∷ m) found =
    last_at_most addr m (if leb a addr then some idx else found)

unfoldable pub block_at : Cfg → ℕ → Option ℕ
block_at cfg addr = last_at_most addr cfg.addr_to_block none
