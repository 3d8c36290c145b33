-- ===== src/Tests/Graph.antt =====
-- The graph of a method with a branch and a handler.
use droidsaw_dex.Prelude.{ℕ, ◌≡◌, arith, Option, none, some, [], ◌∷◌, ◌↔◌}
use droidsaw_dex.Prelude.Int.{pos}
use droidsaw_dex.Prelude.Sets.{In}
use droidsaw_dex.Cfg.Blocks.{find_leaders}
use droidsaw_dex.Cfg.Build.{build, handler_blocks}
use droidsaw_dex.Opcodes.{Opcode}
use droidsaw_dex.Decode.Insn.{Instruction}
use droidsaw_dex.Decode.Item.{CodeItem}
use droidsaw_dex.Cfg.Blocks.{EdgeKind, BasicBlock, Cfg}
use droidsaw_dex.Cfg.Boundary.{Boundary}
use droidsaw_dex.Cfg.Leaders.{find_leaders-Boundary}
use droidsaw_dex.Cfg.Partition.{all_insns, build-partition}
use droidsaw_dex.Cfg.Total.{build-total}

abbrev insn_at : ℕ → Opcode → ℕ → Option ℕ → Instruction
insn_at addr op size target = record {
  addr = addr;
  op = op;
  size = size;
  dst = none;
  src = record { regs = 0 ∷ 0 ∷ 0 ∷ 0 ∷ 0 ∷ []; len = 0 };
  literal = pos 0;
  target = target;
  pool_idx = none;
}

-- `if-eqz` to 3, `return-void` twice; the first two instructions stand in a region whose handler is
-- the last one.
abbrev branching : CodeItem
branching = record {
  registers_size = 1;
  ins_size = 0;
  outs_size = 0;
  debug_info_off = 0;
  instructions =
      insn_at 0 Opcode.if_eqz 2 (some 3)
      ∷ insn_at 2 Opcode.return_void 1 none
      ∷ insn_at 3 Opcode.return_void 1 none
      ∷ [];
  tries = record { start_addr = 0; insn_count = 3; handler_idx = 0 } ∷ [];
  catch_handlers = record { catches = []; catch_all_addr = some 3 } ∷ [];
  payloads = [];
  invariant_violations = [];
}

branching_cfg : (cfg : Cfg) × (build branching ≡ some cfg)
branching_cfg = build-total branching (omega arith, tt)

build-total_example : (cfg : Cfg) × (build branching ≡ some cfg)
build-total_example = build-total branching (omega arith, tt)

build-partition_example : all_insns branching_cfg.0.blocks ≡ branching.instructions
build-partition_example =
    build-partition branching branching_cfg.0
      ((omega arith, omega arith, (omega arith, omega arith, (omega arith, omega arith, tt))))
      branching_cfg.1

find_leaders-Boundary_example : In 3 (find_leaders branching) ↔ Boundary branching 3
find_leaders-Boundary_example = find_leaders-Boundary branching 3

abbrev landing : Instruction
landing = insn_at 3 Opcode.return_void 1 none

abbrev landing_block : BasicBlock
landing_block = record {
  id = 2;
  start_addr = 3;
  instructions = landing ∷ [];
  successors = [];
  predecessors = 0 ∷ 1 ∷ [];
}

abbrev branching_graph : Cfg
branching_graph = record {
  blocks =
      record {
        id = 0;
        start_addr = 0;
        instructions = insn_at 0 Opcode.if_eqz 2 (some 3) ∷ [];
        successors =
            record { target = 1; kind = EdgeKind.fall_through }
            ∷ record { target = 2; kind = EdgeKind.branch }
            ∷ record { target = 2; kind = EdgeKind.exception_catch_all }
            ∷ [];
        predecessors = [];
      }
      ∷ record {
        id = 1;
        start_addr = 2;
        instructions = insn_at 2 Opcode.return_void 1 none ∷ [];
        successors = record { target = 2; kind = EdgeKind.exception_catch_all } ∷ [];
        predecessors = 0 ∷ [];
      }
      ∷ landing_block
      ∷ record { id = 3; start_addr = 4; instructions = []; successors = []; predecessors = [] }
      ∷ [];
  entry = 0;
  exception_regions =
      record {
        start_addr = 0;
        end_addr = 3;
        handler_blocks = (EdgeKind.exception_catch_all, 2) ∷ [];
      }
      ∷ [];
  addr_to_block = (0, 0) ∷ (2, 1) ∷ (3, 2) ∷ (4, 3) ∷ [];
}
