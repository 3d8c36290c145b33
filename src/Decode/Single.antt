-- ===== src/Decode/Single.antt =====
-- src/decode.rs: `decode_single` and what it calls.
pub mod Reads
use Prim.Native.Nat.{bit_and, bit_or, min}
use droidsaw_dex.Prelude.{
  ℕ, zero, suc, ◌+◌, ◌*◌, ◌/◌, ◌%◌, ◌^◌, none, some, List, [], ◌∷◌, ◌++◌, set, ltb, ◌==◌,
  if◌then◌else◌,
}
use droidsaw_dex.Prelude.Int.{ℤ, pos}
use droidsaw_dex.Prelude.Errors.{ok, err, ◌>>=◌}
use droidsaw_dex.Prelude.Words.{u16_mod, as_signed}
use droidsaw_dex.Opcodes.{Opcode}
use droidsaw_dex.Decode.Format.{InsnFormat, insn_format, format_size}
use droidsaw_dex.Decode.Insn.{
  RegList, no_regs, one, two, copy_regs, PoolIndex, Instruction, classify_pool_21c,
  classify_pool_22c, classify_pool_35c, classify_pool_3rc,
}
use droidsaw_dex.Decode.Reader.{Res, invalid_instruction, read_unit, branch_target}

-- `CodeItemInvariantViolation`
pub data Violation : Type 0 where
  try_item_range_invalid : ℕ → ℕ → ℕ → ℕ → Violation
  empty_try_region : ℕ → ℕ → Violation
  try_items_unsorted_or_overlapping : ℕ → ℕ → ℕ → Violation
  register_count_inverted : ℕ → ℕ → Violation
  opcode_arg_count_out_of_range : Opcode → ℕ → ℕ → ℕ → Violation
  branch_target_out_of_range : Opcode → ℕ → ℕ → ℕ → Violation
  payload_ident_mismatch : Opcode → ℕ → ℕ → ℕ → ℕ → Violation
  unknown_opcode_byte : ℕ → ℕ → Violation
  branch_offset_zero : Opcode → ℕ → Violation
  branch_target_mid_instruction : Opcode → ℕ → ℕ → ℕ → Violation
  branch_target_is_move_result_or_move_exception : Opcode → ℕ → ℕ → Opcode → Violation
  unaligned_table_dex_pc : Opcode → ℕ → ℕ → Violation
  tail_bytes_after_last_instruction : ℕ → ℕ → Violation
  non_static_invoke_arg_count_zero : Opcode → ℕ → Violation

unfoldable pub sign_extend_4bit_to_i64 : ℕ → ℤ
sign_extend_4bit_to_i64 nibble =
    if bit_and nibble 8 == 0 then as_signed 8 nibble else as_signed 8 (bit_or nibble 0xf0)

-- The instruction before its format's arm fills it in.
unfoldable pub blank : ℕ → Opcode → Instruction
unfolding no_regs
blank pc op = record {
  addr = pc;
  op = op;
  size = format_size (insn_format op);
  dst = none;
  src = no_regs;
  literal = pos 0;
  target = none;
  pool_idx = none;
}

-- The loop of F3rc and F4rcc: `regs[i] = start_reg + i` for the next `n` values of `i`.
unfoldable pub range_regs : ℕ → ℕ → ℕ → ℕ → List ℕ → Res (List ℕ)
range_regs pc start zero i regs = ok regs
range_regs pc start (suc n) i regs =
    let rest = range_regs pc start n (i + 1) (set regs i (start + i)) in
    if ltb (start + i) u16_mod then rest else err (invalid_instruction pc)

abbrev pub Decoded : Type 0
Decoded = Instruction × List Violation

-- The violation of an argument count above five, pushed by F35c and F45cc.
unfoldable pub check_arg_count : Instruction → ℕ → List Violation → List Violation
check_arg_count insn count violations =
    if ltb 5 count
    then violations ++ opcode_arg_count_out_of_range insn.op insn.addr count 5 ∷ []
    else violations

-- The five registers of F35c and F45cc: `count` of the nibbles of `u2` and then `g`.
unfoldable pub arg_regs : ℕ → ℕ → ℕ → RegList
unfolding copy_regs
arg_regs arg_count u2 g =
    let all = u2 % 2 ^ 4 ∷ u2 / 2 ^ 4 % 2 ^ 4 ∷ u2 / 2 ^ 8 % 2 ^ 4 ∷ u2 / 2 ^ 12 % 2 ^ 4 ∷ g ∷ [] in
    let count = min arg_count 5 in record { regs = copy_regs count all 5; len = count }

-- The literal of F21h.
unfoldable pub high16_literal : Opcode → ℕ → ℤ
high16_literal Opcode.const_high16 u1 = as_signed 32 (u1 * 2 ^ 16)
high16_literal Opcode.const_wide_high16 u1 = as_signed 64 (u1 * 2 ^ 48)
high16_literal _ u1 = pos u1

-- The match of `decode_single` on the format. `unit` reads a code unit of the instruction; `aa` is
-- the high byte of the first, `a` and `b` its third and fourth nibble.
unfoldable pub decode_operands :
    InsnFormat → Instruction → ℕ → ℕ → ℕ → (ℕ → Res ℕ) → List Violation → Res Decoded
unfolding one two range_regs check_arg_count arg_regs no_regs
decode_operands InsnFormat.f10x insn aa a b unit vs = ok (insn, vs)
decode_operands InsnFormat.f12x insn aa a b unit vs =
    ok (record insn { dst = some a; src = one b }, vs)
decode_operands InsnFormat.f11n insn aa a b unit vs =
    ok (record insn { dst = some a; literal = sign_extend_4bit_to_i64 b }, vs)
decode_operands InsnFormat.f11x insn aa a b unit vs = ok (record insn { dst = some aa }, vs)
decode_operands InsnFormat.f10t insn aa a b unit vs = do
  t ← branch_target insn.addr (as_signed 8 aa)
  ok (record insn { target = some t }, vs)
decode_operands InsnFormat.f20t insn aa a b unit vs = do
  u1 ← unit 1
  t ← branch_target insn.addr (as_signed 16 u1)
  ok (record insn { target = some t }, vs)
decode_operands InsnFormat.f22x insn aa a b unit vs = do
  u1 ← unit 1
  ok (record insn { dst = some aa; src = one u1 }, vs)
decode_operands InsnFormat.f21t insn aa a b unit vs = do
  u1 ← unit 1
  t ← branch_target insn.addr (as_signed 16 u1)
  ok (record insn { dst = some aa; target = some t }, vs)
decode_operands InsnFormat.f21s insn aa a b unit vs = do
  u1 ← unit 1
  ok (record insn { dst = some aa; literal = as_signed 16 u1 }, vs)
decode_operands InsnFormat.f21h insn aa a b unit vs = do
  u1 ← unit 1
  ok (record insn { dst = some aa; literal = high16_literal insn.op u1 }, vs)
decode_operands InsnFormat.f21c insn aa a b unit vs = do
  u1 ← unit 1
  ok (record insn { dst = some aa; pool_idx = some (classify_pool_21c insn.op u1) }, vs)
decode_operands InsnFormat.f23x insn aa a b unit vs = do
  u1 ← unit 1
  ok (record insn { dst = some aa; src = two (u1 % 2 ^ 8) (u1 / 2 ^ 8 % 2 ^ 8) }, vs)
decode_operands InsnFormat.f22t insn aa a b unit vs = do
  u1 ← unit 1
  t ← branch_target insn.addr (as_signed 16 u1)
  ok (record insn { src = two a b; target = some t }, vs)
decode_operands InsnFormat.f22s insn aa a b unit vs = do
  u1 ← unit 1
  ok (record insn { dst = some a; src = one b; literal = as_signed 16 u1 }, vs)
decode_operands InsnFormat.f22c insn aa a b unit vs = do
  u1 ← unit 1
  ok (record insn { dst = some a; src = one b; pool_idx = some (classify_pool_22c insn.op u1) }, vs)
decode_operands InsnFormat.f22b insn aa a b unit vs = do
  u1 ← unit 1
  ok (
    record insn {
      dst = some aa;
      src = one (u1 % 2 ^ 8);
      literal = as_signed 8 (u1 / 2 ^ 8 % 2 ^ 8);
    },
    vs,
  )
decode_operands InsnFormat.f30t insn aa a b unit vs = do
  u1 ← unit 1
  u2 ← unit 2
  t ← branch_target insn.addr (as_signed 32 (bit_or u1 (u2 * 2 ^ 16)))
  ok (record insn { target = some t }, vs)
decode_operands InsnFormat.f32x insn aa a b unit vs = do
  u1 ← unit 1
  u2 ← unit 2
  ok (record insn { dst = some u1; src = one u2 }, vs)
decode_operands InsnFormat.f31i insn aa a b unit vs = do
  u1 ← unit 1
  u2 ← unit 2
  ok (record insn { dst = some aa; literal = as_signed 32 (bit_or u1 (u2 * 2 ^ 16)) }, vs)
decode_operands InsnFormat.f31t insn aa a b unit vs = do
  u1 ← unit 1
  u2 ← unit 2
  t ← branch_target insn.addr (as_signed 32 (bit_or u1 (u2 * 2 ^ 16)))
  ok (record insn { dst = some aa; target = some t }, vs)
decode_operands InsnFormat.f31c insn aa a b unit vs = do
  u1 ← unit 1
  u2 ← unit 2
  ok (
    record insn { dst = some aa; pool_idx = some (PoolIndex.string (bit_or u1 (u2 * 2 ^ 16))) },
    vs,
  )
decode_operands InsnFormat.f35c insn aa a b unit vs = do
  u1 ← unit 1
  u2 ← unit 2
  ok (
    record insn { src = arg_regs b u2 a; pool_idx = some (classify_pool_35c insn.op u1) },
    check_arg_count insn b vs,
  )
decode_operands InsnFormat.f3rc insn aa a b unit vs = do
  u1 ← unit 1
  u2 ← unit 2
  regs ← range_regs insn.addr u2 (min aa 5) 0 (u2 ∷ 0 ∷ 0 ∷ 0 ∷ 0 ∷ [])
  ok (
    record insn {
      src = record { regs = regs; len = min aa 5 };
      literal = pos aa;
      pool_idx = some (classify_pool_3rc insn.op u1);
    },
    vs,
  )
decode_operands InsnFormat.f45cc insn aa a b unit vs = do
  u1 ← unit 1
  u2 ← unit 2
  u3 ← unit 3
  ok (
    record insn { src = arg_regs b u2 a; pool_idx = some (PoolIndex.method_and_proto u1 u3) },
    check_arg_count insn b vs,
  )
decode_operands InsnFormat.f4rcc insn aa a b unit vs = do
  u1 ← unit 1
  u2 ← unit 2
  u3 ← unit 3
  regs ← range_regs insn.addr u2 (min aa 5) 0 (0 ∷ 0 ∷ 0 ∷ 0 ∷ 0 ∷ [])
  ok (
    record insn {
      src = record { regs = regs; len = min aa 5 };
      literal = pos aa;
      pool_idx = some (PoolIndex.method_and_proto u1 u3);
    },
    vs,
  )
decode_operands InsnFormat.f51l insn aa a b unit vs = do
  u1 ← unit 1
  u2 ← unit 2
  u3 ← unit 3
  u4 ← unit 4
  ok (
    record insn {
      dst = some aa;
      literal =
          as_signed 64 (bit_or (bit_or (bit_or u1 (u2 * 2 ^ 16)) (u3 * 2 ^ 32)) (u4 * 2 ^ 48));
    },
    vs,
  )

unfoldable pub decode_single : List ℕ → ℕ → ℕ → Opcode → List Violation → Res Decoded
unfolding blank
decode_single bytes insns_off pc op violations = do
  u0 ← read_unit bytes insns_off pc 0
  decode_operands (insn_format op) (blank pc op) (u0 / 2 ^ 8 % 2 ^ 8) (u0 / 2 ^ 8 % 2 ^ 4)
      (u0 / 2 ^ 12 % 2 ^ 4) (read_unit bytes insns_off pc) violations
