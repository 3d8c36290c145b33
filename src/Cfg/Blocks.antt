-- ===== src/Cfg/Blocks.antt =====
-- src/cfg.rs: leaders and basic blocks.
use droidsaw_dex.Prelude.{
  ℕ, ◌+◌, Bool, true, false, ◌&&◌, ◌||◌, Option, none, some, List, [], ◌∷◌, leb, ltb, if◌then◌else◌,
}
use droidsaw_dex.Prelude.Int.{ℤ}
use droidsaw_dex.Prelude.Sets.{set_insert, map_get}
use droidsaw_dex.Opcodes.{Opcode}
use droidsaw_dex.Decode.Insn.{Instruction}
use droidsaw_dex.Decode.Item.{
  PayloadData, packed_switch, sparse_switch, fill_array_data, TypedCatch, CatchHandler, CodeItem,
}

pub data EdgeKind : Type 0 where
  fall_through branch switch_default exception_catch_all : EdgeKind
  switch_case : ℤ → EdgeKind
  exception_handler : ℕ → EdgeKind

pub record Edge : Type 0 where
  pub target : ℕ
  pub kind : EdgeKind

-- `predecessors` is a set of block numbers.
pub record BasicBlock : Type 0 where
  pub id : ℕ
  pub start_addr : ℕ
  pub instructions : List Instruction
  pub successors : List Edge
  pub predecessors : List ℕ

pub record ExceptionRegion : Type 0 where
  pub start_addr : ℕ
  pub end_addr : ℕ
  pub handler_blocks : List (EdgeKind × ℕ)

pub record Cfg : Type 0 where
  pub blocks : List BasicBlock
  pub entry : ℕ
  pub exception_regions : List ExceptionRegion
  pub addr_to_block : List (ℕ × ℕ)

unfoldable pub is_branch : Opcode → Bool
is_branch Opcode.goto = true
is_branch Opcode.goto16 = true
is_branch Opcode.goto32 = true
is_branch Opcode.if_eq = true
is_branch Opcode.if_ne = true
is_branch Opcode.if_lt = true
is_branch Opcode.if_ge = true
is_branch Opcode.if_gt = true
is_branch Opcode.if_le = true
is_branch Opcode.if_eqz = true
is_branch Opcode.if_nez = true
is_branch Opcode.if_ltz = true
is_branch Opcode.if_gez = true
is_branch Opcode.if_gtz = true
is_branch Opcode.if_lez = true
is_branch Opcode.packed_switch = true
is_branch Opcode.sparse_switch = true
is_branch _ = false

unfoldable pub is_unconditional_branch : Opcode → Bool
is_unconditional_branch Opcode.goto = true
is_unconditional_branch Opcode.goto16 = true
is_unconditional_branch Opcode.goto32 = true
is_unconditional_branch _ = false

unfoldable pub is_terminal : Opcode → Bool
is_terminal Opcode.throw = true
is_terminal Opcode.return_void = true
is_terminal Opcode.return = true
is_terminal Opcode.return_wide = true
is_terminal Opcode.return_object = true
is_terminal _ = false

-- `matches!(op, PackedSwitch | SparseSwitch)`
unfoldable pub is_switch : Opcode → Bool
is_switch Opcode.packed_switch = true
is_switch Opcode.sparse_switch = true
is_switch _ = false

-- `insn.addr + u32::from(insn.size)`; the decoder has checked that the sum is a u32.
unfoldable pub next_addr : Instruction → ℕ
next_addr insn = insn.addr + insn.size

unfoldable pub insert_all : List ℕ → List ℕ → List ℕ
insert_all [] leaders = leaders
insert_all (t ∷ ts) leaders = insert_all ts (set_insert t leaders)

unfoldable pub payload_targets : Option PayloadData → List ℕ
payload_targets (some (packed_switch first_key targets)) = targets
payload_targets (some (sparse_switch keys targets)) = targets
payload_targets (some (fill_array_data width elements)) = []
payload_targets none = []

-- The addresses that the `if let Some(target)` of `find_leaders` inserts.
unfoldable pub target_leaders : CodeItem → Opcode → Option ℕ → List ℕ
unfolding is_switch is_branch payload_targets
target_leaders code op none = []
target_leaders code op (some target) =
    if is_switch op
    then payload_targets (map_get target code.payloads)
    else if is_branch op
    then target ∷ []
    else []

-- One round of the loop over the instructions.
unfoldable pub add_leaders : CodeItem → Instruction → List ℕ → List ℕ
unfolding target_leaders insert_all
add_leaders code insn leaders =
    let after =
      if is_branch insn.op || is_terminal insn.op
      then set_insert (next_addr insn) leaders
      else leaders in
    insert_all (target_leaders code insn.op insn.target) after

unfoldable pub insn_leaders : CodeItem → List Instruction → List ℕ → List ℕ
insn_leaders code [] leaders = leaders
insn_leaders code (insn ∷ insns) leaders = insn_leaders code insns (add_leaders code insn leaders)

unfoldable pub catch_addrs : List TypedCatch → List ℕ
catch_addrs [] = []
catch_addrs (c ∷ cs) = c.handler_addr ∷ catch_addrs cs

unfoldable pub add_handler : CatchHandler → List ℕ → List ℕ
unfolding catch_addrs
add_handler handler leaders =
    let typed = insert_all (catch_addrs handler.catches) leaders in
    elim handler.catch_all_addr [ none ↦ typed | some addr ↦ set_insert addr typed ]

unfoldable pub handler_leaders : List CatchHandler → List ℕ → List ℕ
handler_leaders [] leaders = leaders
handler_leaders (h ∷ hs) leaders = handler_leaders hs (add_handler h leaders)

unfoldable pub find_leaders : CodeItem → List ℕ
find_leaders code =
    handler_leaders code.catch_handlers (insn_leaders code code.instructions (set_insert 0 []))

-- `filter(|insn| insn.addr >= leader_addr && insn.addr < next_leader)`
unfoldable pub insns_between : ℕ → ℕ → List Instruction → List Instruction
insns_between lo hi [] = []
insns_between lo hi (insn ∷ insns) =
    let rest = insns_between lo hi insns in
    if leb lo insn.addr && ltb insn.addr hi then insn ∷ rest else rest

-- `leader_vec.get(i + 1).copied().unwrap_or(u32::MAX)`
unfoldable pub next_leader : List ℕ → ℕ
next_leader [] = 0xffff_ffff
next_leader (l ∷ ls) = l

-- The loop of `build_blocks` from leader number `i` on.
unfoldable pub blocks_from : List Instruction → ℕ → List ℕ → List BasicBlock
blocks_from insns i [] = []
blocks_from insns i (l ∷ ls) =
    record {
      id = i;
      start_addr = l;
      instructions = insns_between l (next_leader ls) insns;
      successors = [];
      predecessors = [];
    }
    ∷ blocks_from insns (i + 1) ls

unfoldable pub addr_map_from : ℕ → List ℕ → List (ℕ × ℕ)
addr_map_from i [] = []
addr_map_from i (l ∷ ls) = (l, i) ∷ addr_map_from (i + 1) ls

unfoldable pub build_blocks : CodeItem → List ℕ → List BasicBlock × List (ℕ × ℕ)
build_blocks code leaders = (blocks_from code.instructions 0 leaders, addr_map_from 0 leaders)
