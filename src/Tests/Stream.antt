-- ===== src/Tests/Stream.antt =====
-- The decoding of whole methods.
use droidsaw_dex.Prelude.{
  ℕ, ◌<◌, ◌≤◌, ◌≡◌, ◌⊎◌, refl, arith, inl, inr, Option, none, some, List, [], ◌∷◌,
}
use droidsaw_dex.Prelude.Int.{pos}
use droidsaw_dex.Prelude.Errors.{ok, err}
use droidsaw_dex.Prelude.Sets.{set_insert}
use droidsaw_dex.Opcodes.{Opcode}
use droidsaw_dex.Opcodes.Bytes.{from_u8}
use droidsaw_dex.Decode.Format.{insn_format, format_size}
use droidsaw_dex.Decode.Insn.{Instruction}
use droidsaw_dex.Decode.Reader.{DexError, read_unit, safe_add_u32, branch_target}
use droidsaw_dex.Decode.Single.{decode_single, decode_operands}
use droidsaw_dex.Decode.Payload.{BoundCount}
use droidsaw_dex.Decode.Stream.Step.{
  Scan, start, step, step_insn, is_table_op, is_non_static_invoke, is_checked_branch,
}
use droidsaw_dex.Decode.Stream.Checks.{
  is_start, opcode_at, is_move_result_or_exception, check_targets, tail_bytes, resolve,
}
use droidsaw_dex.Decode.Stream.Insns.{scan, decode_insns}
use droidsaw_dex.Decode.Stream.Order.{scan-enough, decode_insns-InsnsFrom}
use droidsaw_dex.Decode.Stream.Clean.{StandsAt}
use droidsaw_dex.Decode.Stream.Landing.{decode_insns-StandsAt}
use droidsaw_dex.Cfg.Partition.{InsnsFrom}

-- A bound on counts that lets every count pass.
abbrev any_count : BoundCount
any_count got stride data_len = ok got

-- `nop` and a `goto` back to it.
abbrev loop : List ℕ
loop = 0x00 ∷ 0x00 ∷ 0x28 ∷ 0xff ∷ []

abbrev plain : ℕ → Opcode → Option ℕ → Instruction
plain addr op target = record {
  addr = addr;
  op = op;
  size = 1;
  dst = none;
  src = record { regs = 0 ∷ 0 ∷ 0 ∷ 0 ∷ 0 ∷ []; len = 0 };
  literal = pos 0;
  target = target;
  pool_idx = none;
}

abbrev loop_insns : List Instruction
loop_insns = plain 0 Opcode.nop none ∷ plain 1 Opcode.goto (some 0) ∷ []

loop_decoded :
    decode_insns any_count loop 0 2
    ≡ ok (record { instructions = loop_insns; payloads = []; violations = [] })
unfolding decode_insns scan step decode_single start read_unit from_u8 step_insn decode_operands
    insn_format safe_add_u32 format_size branch_target is_table_op set_insert is_non_static_invoke
    is_checked_branch resolve tail_bytes check_targets is_start opcode_at
    is_move_result_or_exception
loop_decoded = refl

scan-enough_example :
    (((e : Scan) × (scan loop 0 2 2 start ≡ ok e) × (2 ≤ e.pc))
      ⊎ ((e : DexError) × (scan loop 0 2 2 start ≡ err e)))
    × (scan loop 0 2 9 start ≡ scan loop 0 2 2 start)
scan-enough_example = scan-enough loop 0 2 9 (omega arith)

decode_insns-InsnsFrom_example : InsnsFrom 0 loop_insns
decode_insns-InsnsFrom_example = decode_insns-InsnsFrom any_count loop 0 2 _ loop_decoded

decode_insns-StandsAt_example : (0 < 2) × StandsAt 0 loop_insns
unfolding is_table_op
decode_insns-StandsAt_example =
    decode_insns-StandsAt any_count loop 0 2 _ (plain 1 Opcode.goto (some 0)) 0 loop_decoded refl
      (inr (inl refl)) refl refl
