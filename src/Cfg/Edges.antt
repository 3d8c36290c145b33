-- ===== src/Cfg/Edges.antt =====
-- src/cfg.rs: the edges of the graph and the predecessor sets.
use droidsaw_dex.Prelude.{
  ℕ, zero, suc, ◌+◌, Bool, ◌&&◌, Option, none, some, List, [], ◌∷◌, ◌++◌, get_elem?, ltb,
  if◌then◌else◌,
}
use droidsaw_dex.Prelude.Int.{ℤ, pos, ◌+ℤ◌}
use droidsaw_dex.Prelude.Words.{wrap_signed}
use droidsaw_dex.Prelude.Sets.{set_insert, map_get}
use droidsaw_dex.Decode.Insn.{Instruction}
use droidsaw_dex.Decode.Item.{
  PayloadData, packed_switch, sparse_switch, fill_array_data, TryItem, TypedCatch, CatchHandler,
  CodeItem,
}
use droidsaw_dex.Cfg.Blocks.{
  EdgeKind, Edge, BasicBlock, is_branch, is_unconditional_branch, is_terminal, is_switch, next_addr,
}

-- `if let Some(&idx) = addr_to_block.get(&addr) { edges.push(..) }`
unfoldable pub edge_to : List (ℕ × ℕ) → ℕ → EdgeKind → List Edge
edge_to addr_map addr kind = elim (map_get addr addr_map) [
  | none ↦ []
  | some idx ↦ record { target = idx; kind = kind } ∷ []
]

unfoldable pub edge_to? : List (ℕ × ℕ) → Option ℕ → EdgeKind → List Edge
edge_to? addr_map none kind = []
edge_to? addr_map (some addr) kind = edge_to addr_map addr kind

-- The cases of a packed switch from case number `j` on. The sum of the keys wraps as an `i32`.
unfoldable pub packed_cases : List (ℕ × ℕ) → ℤ → ℕ → List ℕ → List Edge
packed_cases addr_map first_key j [] = []
packed_cases addr_map first_key j (t ∷ ts) =
    edge_to addr_map t (EdgeKind.switch_case (wrap_signed 32 (first_key +ℤ pos j)))
    ++ packed_cases addr_map first_key (j + 1) ts

-- `keys.iter().zip(targets.iter())`
unfoldable pub sparse_cases : List (ℕ × ℕ) → List ℤ → List ℕ → List Edge
sparse_cases addr_map (k ∷ ks) (t ∷ ts) =
    edge_to addr_map t (EdgeKind.switch_case k) ++ sparse_cases addr_map ks ts
sparse_cases addr_map (k ∷ ks) [] = []
sparse_cases addr_map [] ts = []

unfoldable pub payload_edges : List (ℕ × ℕ) → Option PayloadData → List Edge
unfolding packed_cases sparse_cases
payload_edges addr_map (some (packed_switch first_key targets)) =
    packed_cases addr_map first_key 0 targets
payload_edges addr_map (some (sparse_switch keys targets)) = sparse_cases addr_map keys targets
payload_edges addr_map (some (fill_array_data width elements)) = []
payload_edges addr_map none = []

unfoldable pub switch_edges : CodeItem → List (ℕ × ℕ) → Option ℕ → List Edge
switch_edges code addr_map none = []
switch_edges code addr_map (some target) = payload_edges addr_map (map_get target code.payloads)

-- The edges that the last instruction of a block gives it.
unfoldable pub last_edges : CodeItem → List (ℕ × ℕ) → Instruction → List Edge
last_edges code addr_map last =
    if is_terminal last.op
    then []
    else if is_unconditional_branch last.op
    then edge_to? addr_map last.target EdgeKind.branch
    else if is_switch last.op
    then edge_to addr_map (next_addr last) EdgeKind.switch_default
      ++ switch_edges code addr_map last.target
    else if is_branch last.op
    then edge_to addr_map (next_addr last) EdgeKind.fall_through
      ++ edge_to? addr_map last.target EdgeKind.branch
    else edge_to addr_map (next_addr last) EdgeKind.fall_through

unfoldable pub last_insn : List Instruction → Option Instruction
last_insn [] = none
last_insn (i ∷ []) = some i
last_insn (i ∷ j ∷ is) = last_insn (j ∷ is)

unfoldable pub block_edges : CodeItem → List (ℕ × ℕ) → Option Instruction → List Edge
block_edges code addr_map none = []
block_edges code addr_map (some last) = last_edges code addr_map last

unfoldable pub add_edges : List BasicBlock → List (ℕ × ℕ) → CodeItem → List BasicBlock
unfolding block_edges
add_edges [] addr_map code = []
add_edges (b ∷ bs) addr_map code =
    record b { successors = block_edges code addr_map (last_insn b.instructions) }
    ∷ add_edges bs addr_map code

unfoldable pub catch_edges : List (ℕ × ℕ) → List TypedCatch → List Edge
catch_edges addr_map [] = []
catch_edges addr_map (c ∷ cs) =
    edge_to addr_map c.handler_addr (EdgeKind.exception_handler c.exception_type)
    ++ catch_edges addr_map cs

-- The edges to a handler's blocks, the typed catches first.
unfoldable pub handler_edges : List (ℕ × ℕ) → CatchHandler → List Edge
handler_edges addr_map handler =
    catch_edges addr_map handler.catches
    ++ edge_to? addr_map handler.catch_all_addr EdgeKind.exception_catch_all

-- `block_start < try_end && block_end > try_start` for a block with a last instruction.
unfoldable pub overlaps : TryItem → BasicBlock → Option Instruction → Bool
overlaps try b none = Bool.false
overlaps try b (some last) =
    ltb b.start_addr (try.start_addr + try.insn_count) && ltb try.start_addr (next_addr last)

unfoldable pub add_try_edges : TryItem → List Edge → List BasicBlock → List BasicBlock
add_try_edges try edges [] = []
add_try_edges try edges (b ∷ bs) =
    (if overlaps try b (last_insn b.instructions)
      then record b { successors = b.successors ++ edges }
      else b)
    ∷ add_try_edges try edges bs

-- `none` is the panic of an index out of range: `code.catch_handlers[try_item.handler_idx]`.
unfoldable pub exception_edges_from :
    List TryItem → List CatchHandler → List (ℕ × ℕ) → List BasicBlock → Option (List BasicBlock)
exception_edges_from [] handlers addr_map blocks = some blocks
exception_edges_from (try ∷ tries) handlers addr_map blocks =
    elim (get_elem? handlers try.handler_idx) [
      | none ↦ none
      | some handler ↦
          exception_edges_from tries handlers addr_map
            (add_try_edges try (handler_edges addr_map handler) blocks)
    ]

unfoldable pub add_exception_edges :
    List BasicBlock → List (ℕ × ℕ) → CodeItem → Option (List BasicBlock)
add_exception_edges blocks addr_map code =
    exception_edges_from code.tries code.catch_handlers addr_map blocks

-- `blocks[dst].predecessors.insert(src)`; `none` is the panic of an index out of range.
unfoldable pub add_predecessor : ℕ → ℕ → List BasicBlock → Option (List BasicBlock)
add_predecessor src dst [] = none
add_predecessor src zero (b ∷ bs) =
    some (record b { predecessors = set_insert src b.predecessors } ∷ bs)
add_predecessor src (suc dst) (b ∷ bs) = elim (add_predecessor src dst bs) [
  | none ↦ none
  | some bs' ↦ some (b ∷ bs')
]

unfoldable pub block_pairs : ℕ → List Edge → List (ℕ × ℕ)
block_pairs src [] = []
block_pairs src (e ∷ es) = (src, e.target) ∷ block_pairs src es

-- `(b.id, e.target)` for every block and edge
unfoldable pub edge_pairs : List BasicBlock → List (ℕ × ℕ)
edge_pairs [] = []
edge_pairs (b ∷ bs) = block_pairs b.id b.successors ++ edge_pairs bs

unfoldable pub add_predecessors : List (ℕ × ℕ) → List BasicBlock → Option (List BasicBlock)
add_predecessors [] blocks = some blocks
add_predecessors ((src, dst) ∷ edges) blocks = elim (add_predecessor src dst blocks) [
  | none ↦ none
  | some blocks' ↦ add_predecessors edges blocks'
]

unfoldable pub fill_predecessors : List BasicBlock → Option (List BasicBlock)
fill_predecessors blocks = add_predecessors (edge_pairs blocks) blocks
