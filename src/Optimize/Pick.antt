-- ===== src/Optimize/Pick.antt =====
-- src/optimize.rs: `pick_const_opcode` and the rewriting of one instruction.
use droidsaw_dex.Prelude.{
  ℕ, ◌<◌, ◌≤◌, ◌≡◌, ◌⊎◌, refl, arith, Bool, true, false, ◌&&◌, Bool-cases, inl, inr, none, some,
  List, if◌then◌else◌,
}
use droidsaw_dex.Prelude.Int.{ℤ, pos, negsuc, leb_ℤ}
use droidsaw_dex.Prelude.Errors.{Result, ok, err}
use droidsaw_dex.Prelude.Words.{i16_min, i16_max, i32_min, i32_max}
use droidsaw_dex.Opcodes.{Opcode}
use droidsaw_dex.Decode.Format.{InsnFormat, insn_format}
use droidsaw_dex.Decode.Insn.{Instruction, no_regs}
use droidsaw_dex.Emit.Operands.{
  dst_u4, dst_u8, literal_i4, literal_i16_as_u16, literal_i32, at_most, unrepresentable_ir,
}
use droidsaw_dex.Emit.Instruction.{emit_operands}
use droidsaw_dex.Optimize.Classes.{is_wide_op}
use droidsaw_dex.Optimize.Fold.{to_i32}
use droidsaw_dex.Optimize.Range.{IsI32}

unfoldable pub within : ℤ → ℤ → ℤ → Bool
within lo hi v = leb_ℤ lo v && leb_ℤ v hi

unfoldable pub pick_narrow : ℤ → Opcode
unfolding within
pick_narrow v =
    if within (negsuc 7) (pos 7) v
    then Opcode.const4
    else if within i16_min i16_max v
    then Opcode.const16
    else Opcode.const

unfoldable pub pick_const_opcode : ℤ → Bool → Opcode
unfolding within pick_narrow to_i32
pick_const_opcode v true =
    if within i16_min i16_max v
    then Opcode.const_wide16
    else if within i32_min i32_max v
    then Opcode.const_wide32
    else Opcode.const_wide
pick_const_opcode v false = pick_narrow (to_i32 v)

-- What `constant_fold` makes of an instruction with a known value.
unfoldable pub folded_insn : Instruction → ℤ → Instruction
unfolding no_regs
folded_insn insn v = record insn {
  op = pick_const_opcode v (is_wide_op insn.op);
  literal = v;
  pool_idx = none;
  target = none;
  src = no_regs;
}

pub to_i32-of-IsI32 : (v : ℤ) → IsI32 v → to_i32 v ≡ v
unfolding to_i32
to_i32-of-IsI32 (pos n) h = ground arith
to_i32-of-IsI32 (negsuc n) h = ground arith

unfoldable pub is_ok {ℓ} : {E : Type 0} {A : Type ℓ} → Result E A → Bool
is_ok (ok a) = true
is_ok (err e) = false

pub is_ok→value {ℓ} :
    {E : Type 0} {A : Type ℓ} (r : Result E A) → is_ok r ≡ true → (a : A) × (r ≡ ok a)
unfolding is_ok
is_ok→value (ok a) h = (a, refl)
is_ok→value (err e) h = cc

module _ (out : List ℕ) (b r : ℕ) (insn : Instruction) (dst : insn.dst ≡ some r) where
  const4_is_ok :
      r < 16
      → within (negsuc 7) (pos 7) insn.literal ≡ true
      → is_ok (emit_operands InsnFormat.f11n out b insn) ≡ true
  unfolding is_ok within emit_operands dst_u4 literal_i4 at_most
  const4_is_ok lt range = ground arith

  const16_is_ok :
      r < 256
      → within i16_min i16_max insn.literal ≡ true
      → is_ok (emit_operands InsnFormat.f21s out b insn) ≡ true
  unfolding is_ok within emit_operands dst_u8 literal_i16_as_u16 at_most
  const16_is_ok lt range = ground arith

  const32_is_ok :
      r < 256
      → within i32_min i32_max insn.literal ≡ true
      → is_ok (emit_operands InsnFormat.f31i out b insn) ≡ true
  unfolding is_ok within emit_operands dst_u8 literal_i32 at_most
  const32_is_ok lt range = ground arith

  const64_is_ok : r < 256 → is_ok (emit_operands InsnFormat.f51l out b insn) ≡ true
  unfolding is_ok emit_operands dst_u8 at_most
  const64_is_ok lt = ground arith

  pub narrow_is_ok :
      r < 256
      → (r < 16) ⊎ (within (negsuc 7) (pos 7) insn.literal ≡ false)
      → IsI32 insn.literal
      → is_ok (emit_operands (insn_format (pick_narrow insn.literal)) out b insn) ≡ true
  unfolding pick_narrow insn_format
  narrow_is_ok lt room range = elim (Bool-cases (within (negsuc 7) (pos 7) insn.literal)) [
    | inl short ↦ rw (short, insn_format) (const4_is_ok (ground (arith, room, short)) short)
    | inr long ↦ elim (Bool-cases (within i16_min i16_max insn.literal)) [
      | inl half ↦ rw (long, half, insn_format) (const16_is_ok lt half)
      | inr full ↦ rw (long, full, insn_format) (const32_is_ok lt (ground (arith, range)))
    ]
  ]

  pub short_fails :
      16 ≤ r
      → within (negsuc 7) (pos 7) insn.literal ≡ true
      → emit_operands (insn_format (pick_narrow insn.literal)) out b insn ≡ err unrepresentable_ir
  unfolding pick_narrow insn_format emit_operands dst_u4 at_most
  short_fails le short = rw (short, insn_format) (ground arith)

  pub wide_is_ok :
      r < 256
      → is_ok (emit_operands (insn_format (pick_const_opcode insn.literal true)) out b insn) ≡ true
  unfolding pick_const_opcode insn_format
  wide_is_ok lt = elim (Bool-cases (within i16_min i16_max insn.literal)) [
    | inl half ↦ rw (half, insn_format) (const16_is_ok lt half)
    | inr long ↦ elim (Bool-cases (within i32_min i32_max insn.literal)) [
      | inl full ↦ rw (long, full, insn_format) (const32_is_ok lt full)
      | inr over ↦ rw (long, over, insn_format) (const64_is_ok lt)
    ]
  ]
