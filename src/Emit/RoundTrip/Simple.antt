-- ===== src/Emit/RoundTrip/Simple.antt =====
-- Formats whose decoding cannot fail after the reads.
use droidsaw_dex.Prelude.{ℕ, ◌/◌, ◌%◌, ◌^◌, ◌<◌, ◌≡◌, refl, arith, List}
use droidsaw_dex.Prelude.Bits.{bit_or-shifted}
use droidsaw_dex.Prelude.Errors.{ok, IfOk}
use droidsaw_dex.Opcodes.{Opcode}
use droidsaw_dex.Decode.Format.{InsnFormat}
use droidsaw_dex.Decode.Insn.{as_slice}
use droidsaw_dex.Decode.Single.{Decoded, Violation, blank, decode_operands}
use droidsaw_dex.Emit.Operands.{
  dst_u4, dst_u8, src_u4, src_u8, src_u16, literal_i4, literal_i8_as_u8, literal_i16_as_u16,
  literal_i32, pool_u16, pool_u32,
}
use droidsaw_dex.Emit.Instruction.{emit_operands}
use droidsaw_dex.Emit.Canonical.{push_units, canonical_units, op_aa-head, op_ab-head}
use droidsaw_dex.Emit.RoundTrip.Fields.{
  pool_number-classify_pool_21c, pool_number-classify_pool_22c,
  sign_extend_4bit_to_i64-eq-as_signed, low_or_high, four_units,
}

-- What a format's arm of the decoder builds from pure units, the same arm of the emitter writes
-- back as the canonical units.
abbrev pub Emits : InsnFormat → ℕ → ℕ → (ℕ → ℕ) → ℕ → Opcode → List Violation → Type 0
Emits fmt op u0 us pc opcode vs =
    IfOk
      (λ (d : Decoded).
        (out : List ℕ)
        → emit_operands fmt out op d.0 ≡ ok (push_units out (canonical_units fmt op u0 us)))
      (decode_operands fmt (blank pc opcode) (u0 / 2 ^ 8 % 2 ^ 8) (u0 / 2 ^ 8 % 2 ^ 4)
        (u0 / 2 ^ 12 % 2 ^ 4) (λ i. ok (us i)) vs)

module _ (op u0 : ℕ) (us : ℕ → ℕ) (pc : ℕ) (opcode : Opcode) (vs : List Violation)
    (head : u0 % 2 ^ 8 ≡ op) (fits : u0 < 2 ^ 16) (wide : (i : ℕ) → us i < 2 ^ 16) where
  pub Emits-f10x : Emits InsnFormat.f10x op u0 us pc opcode vs
  unfolding decode_operands emit_operands canonical_units push_units
  Emits-f10x out = refl

  pub Emits-f12x : Emits InsnFormat.f12x op u0 us pc opcode vs
  unfolding decode_operands emit_operands canonical_units push_units dst_u4 src_u4 as_slice blank
  Emits-f12x out = ground (arith, op_ab-head op u0 head fits)

  pub Emits-f11n : Emits InsnFormat.f11n op u0 us pc opcode vs
  unfolding decode_operands emit_operands canonical_units push_units dst_u4 literal_i4 blank
  Emits-f11n out = ground (
    arith,
    op_ab-head op u0 head fits,
    sign_extend_4bit_to_i64-eq-as_signed (u0 / 2 ^ 12 % 2 ^ 4),
  )

  pub Emits-f11x : Emits InsnFormat.f11x op u0 us pc opcode vs
  unfolding decode_operands emit_operands canonical_units push_units dst_u8 blank
  Emits-f11x out = ground (arith, op_aa-head op u0 head fits)

  pub Emits-f22x : Emits InsnFormat.f22x op u0 us pc opcode vs
  unfolding decode_operands emit_operands canonical_units push_units dst_u8 src_u16 as_slice blank
  Emits-f22x out = ground (arith, op_aa-head op u0 head fits)

  pub Emits-f21s : Emits InsnFormat.f21s op u0 us pc opcode vs
  unfolding decode_operands emit_operands canonical_units push_units dst_u8 literal_i16_as_u16 blank
  Emits-f21s out = ground (arith, op_aa-head op u0 head fits, wide 1)

  pub Emits-f21c : Emits InsnFormat.f21c op u0 us pc opcode vs
  unfolding decode_operands emit_operands canonical_units push_units dst_u8 pool_u16 pool_u32 blank
  Emits-f21c out =
      ground
        (arith, op_aa-head op u0 head fits, wide 1, pool_number-classify_pool_21c opcode (us 1))

  pub Emits-f23x : Emits InsnFormat.f23x op u0 us pc opcode vs
  unfolding decode_operands emit_operands canonical_units push_units dst_u8 src_u8 as_slice blank
  Emits-f23x out = ground (
    arith,
    op_aa-head op u0 head fits,
    wide 1,
    bit_or-shifted 8 (us 1 % 2 ^ 8) (us 1 / 2 ^ 8 % 2 ^ 8),
  )

  pub Emits-f22s : Emits InsnFormat.f22s op u0 us pc opcode vs
  unfolding decode_operands emit_operands canonical_units push_units dst_u4 src_u4 as_slice
      literal_i16_as_u16 blank
  Emits-f22s out = ground (arith, op_ab-head op u0 head fits, wide 1)

  pub Emits-f22c : Emits InsnFormat.f22c op u0 us pc opcode vs
  unfolding decode_operands emit_operands canonical_units push_units dst_u4 src_u4 as_slice pool_u16
      pool_u32 blank
  Emits-f22c out =
      ground
        (arith, op_ab-head op u0 head fits, wide 1, pool_number-classify_pool_22c opcode (us 1))

  pub Emits-f22b : Emits InsnFormat.f22b op u0 us pc opcode vs
  unfolding decode_operands emit_operands canonical_units push_units dst_u8 src_u8 as_slice
      literal_i8_as_u8 blank
  Emits-f22b out = ground (
    arith,
    op_aa-head op u0 head fits,
    wide 1,
    bit_or-shifted 8 (us 1 % 2 ^ 8) (us 1 / 2 ^ 8 % 2 ^ 8),
  )

  pub Emits-f32x : Emits InsnFormat.f32x op u0 us pc opcode vs
  unfolding decode_operands emit_operands canonical_units push_units src_u16 as_slice blank
  Emits-f32x out = refl

  pub Emits-f31i : Emits InsnFormat.f31i op u0 us pc opcode vs
  unfolding decode_operands emit_operands canonical_units push_units dst_u8 literal_i32 blank
  Emits-f31i out =
      ground (arith, op_aa-head op u0 head fits, wide 1, wide 2, low_or_high (us 1) (us 2))

  pub Emits-f31c : Emits InsnFormat.f31c op u0 us pc opcode vs
  unfolding decode_operands emit_operands canonical_units push_units dst_u8 pool_u32 blank
  Emits-f31c out =
      ground (arith, op_aa-head op u0 head fits, wide 1, wide 2, low_or_high (us 1) (us 2))

  pub Emits-f51l : Emits InsnFormat.f51l op u0 us pc opcode vs
  unfolding decode_operands emit_operands canonical_units push_units dst_u8 blank
  Emits-f51l out = ground (
    arith,
    op_aa-head op u0 head fits,
    wide 1,
    wide 2,
    wide 3,
    wide 4,
    four_units (us 1) (us 2) (us 3) (us 4),
  )
