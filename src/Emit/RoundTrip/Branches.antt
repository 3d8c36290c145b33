-- ===== src/Emit/RoundTrip/Branches.antt =====
-- Formats with a branch target, and the high halves of F21h.
use Prim.Native.Nat.{bit_or}
use droidsaw_dex.Prelude.{ℕ, ◌*◌, ◌/◌, ◌%◌, ◌^◌, ◌<◌, ◌≡◌, arith, List}
use droidsaw_dex.Prelude.Errors.{ok, IfOk-bind}
use droidsaw_dex.Prelude.Words.{as_signed, u32_mod}
use droidsaw_dex.Opcodes.{Opcode}
use droidsaw_dex.Decode.Format.{InsnFormat, insn_format}
use droidsaw_dex.Decode.Reader.{branch_target}
use droidsaw_dex.Decode.Insn.{as_slice}
use droidsaw_dex.Decode.Single.{Violation, blank, decode_operands, high16_literal}
use droidsaw_dex.Emit.Operands.{dst_u8, src_u4}
use droidsaw_dex.Emit.Instruction.{emit_operands, high16_unit}
use droidsaw_dex.Emit.Canonical.{push_units, canonical_units, op_aa-head, op_ab-head}
use droidsaw_dex.Emit.RoundTrip.Fields.{
  branch_i8_as_u8-branch_target, branch_i16_as_u16-branch_target, branch_i32-branch_target,
  low_or_high,
}
use droidsaw_dex.Emit.RoundTrip.Simple.{Emits}

high16_unit-high16_literal :
    (op : Opcode) (u1 : ℕ)
    → insn_format op ≡ InsnFormat.f21h
    → u1 < 2 ^ 16
    → high16_unit op (high16_literal op u1) ≡ ok u1
unfolding high16_unit high16_literal insn_format
high16_unit-high16_literal Opcode.const_high16 u1 e h = ground arith
high16_unit-high16_literal Opcode.const_wide_high16 u1 e h = ground arith
high16_unit-high16_literal _ u1 e h = cc

module _ (op u0 : ℕ) (us : ℕ → ℕ) (pc : ℕ) (opcode : Opcode) (vs : List Violation)
    (head : u0 % 2 ^ 8 ≡ op) (fits : u0 < 2 ^ 16) (wide : (i : ℕ) → us i < 2 ^ 16)
    (in_u32 : pc < u32_mod) where
  pub Emits-f10t : Emits InsnFormat.f10t op u0 us pc opcode vs
  unfolding decode_operands emit_operands canonical_units push_units blank
  Emits-f10t =
      IfOk-bind _ _ (branch_target pc (as_signed 8 (u0 / 2 ^ 8 % 2 ^ 8))) _
        (branch_i8_as_u8-branch_target pc in_u32 (u0 / 2 ^ 8 % 2 ^ 8) (omega arith))
        (λ t back out. ground (arith, op_aa-head op u0 head fits))

  pub Emits-f20t : Emits InsnFormat.f20t op u0 us pc opcode vs
  unfolding decode_operands emit_operands canonical_units push_units blank
  Emits-f20t =
      IfOk-bind _ _ (branch_target pc (as_signed 16 (us 1))) _
        (branch_i16_as_u16-branch_target pc in_u32 (us 1) (omega (arith, wide 1)))
        (λ t back out. ground (arith, wide 1, wide 2))

  pub Emits-f21t : Emits InsnFormat.f21t op u0 us pc opcode vs
  unfolding decode_operands emit_operands canonical_units push_units blank dst_u8
  Emits-f21t =
      IfOk-bind _ _ (branch_target pc (as_signed 16 (us 1))) _
        (branch_i16_as_u16-branch_target pc in_u32 (us 1) (omega (arith, wide 1)))
        (λ t back out. ground (arith, wide 1, wide 2, op_aa-head op u0 head fits))

  pub Emits-f22t : Emits InsnFormat.f22t op u0 us pc opcode vs
  unfolding decode_operands emit_operands canonical_units push_units blank src_u4 as_slice
  Emits-f22t =
      IfOk-bind _ _ (branch_target pc (as_signed 16 (us 1))) _
        (branch_i16_as_u16-branch_target pc in_u32 (us 1) (omega (arith, wide 1)))
        (λ t back out. ground (arith, wide 1, wide 2, op_ab-head op u0 head fits))

  pub Emits-f30t : Emits InsnFormat.f30t op u0 us pc opcode vs
  unfolding decode_operands emit_operands canonical_units push_units blank
  Emits-f30t =
      IfOk-bind _ _ (branch_target pc (as_signed 32 (bit_or (us 1) (us 2 * 2 ^ 16)))) _
        (branch_i32-branch_target pc in_u32 (bit_or (us 1) (us 2 * 2 ^ 16))
          (omega (arith, wide 1, wide 2, low_or_high (us 1) (us 2))))
        (λ t back out. ground (arith, wide 1, wide 2, low_or_high (us 1) (us 2)))

  pub Emits-f31t : Emits InsnFormat.f31t op u0 us pc opcode vs
  unfolding decode_operands emit_operands canonical_units push_units blank dst_u8
  Emits-f31t =
      IfOk-bind _ _ (branch_target pc (as_signed 32 (bit_or (us 1) (us 2 * 2 ^ 16)))) _
        (branch_i32-branch_target pc in_u32 (bit_or (us 1) (us 2 * 2 ^ 16))
          (omega (arith, wide 1, wide 2, low_or_high (us 1) (us 2))))
        (λ t back out.
          ground (arith, wide 1, wide 2, op_aa-head op u0 head fits, low_or_high (us 1) (us 2)))

  pub Emits-f21h :
      insn_format opcode ≡ InsnFormat.f21h → Emits InsnFormat.f21h op u0 us pc opcode vs
  unfolding decode_operands emit_operands canonical_units push_units blank dst_u8
  Emits-f21h is_high16 out = ground (
    arith,
    op_aa-head op u0 head fits,
    high16_unit-high16_literal opcode (us 1) is_high16 (wide 1),
  )
