-- ===== src/Emit/Operands.antt =====
-- src/emit_dex.rs: the operand fields of an instruction, with their range checks.
-- The texts of the errors are left out of the error values.
use droidsaw_dex.Prelude.{
  ℕ, ◌/◌, ◌%◌, ◌^◌, List, [], ◌∷◌, ◌++◌, get_elem?, ltb, if◌then◌else◌, ◌||◌,
}
use droidsaw_dex.Prelude.Int.{ℤ, pos, negsuc, ◌-ℤ◌, ltb_ℤ}
use droidsaw_dex.Prelude.Errors.{Result, ok, err, ◌>>=◌, ok_or}
use droidsaw_dex.Prelude.Words.{
  low_bits, i8_min, i8_max, i16_min, i16_max, i32_min, i32_max, u16_mod,
}
use droidsaw_dex.Decode.Insn.{
  as_slice, PoolIndex, string, type, field, method, method_and_proto, call_site, Instruction,
}

-- The variants of `DexEmitError` that the emission of a code item raises.
pub data DexEmitError : Type 0 where
  unrepresentable_ir offset_overflow size_overflow : DexEmitError

abbrev pub Emitted {ℓ} : Type ℓ → Type ℓ
Emitted A = Result DexEmitError A

-- `out.extend_from_slice(&val.to_le_bytes())`
unfoldable pub push_u16 : List ℕ → ℕ → List ℕ
push_u16 out val = out ++ val % 2 ^ 8 ∷ val / 2 ^ 8 ∷ []

unfoldable pub branch_offset : ℕ → ℕ → ℤ
branch_offset target pc = pos target -ℤ pos pc

-- `v` if it does not exceed `max`.
unfoldable pub at_most : ℕ → ℕ → Emitted ℕ
at_most max v = if ltb max v then err unrepresentable_ir else ok v

unfoldable pub dst_u4 : Instruction → Emitted ℕ
unfolding at_most
dst_u4 insn = do d ← ok_or insn.dst unrepresentable_ir; at_most 0x0f d

unfoldable pub dst_u8 : Instruction → Emitted ℕ
unfolding at_most
dst_u8 insn = do d ← ok_or insn.dst unrepresentable_ir; at_most 0xff d

unfoldable pub src_u4 : Instruction → ℕ → Emitted ℕ
unfolding at_most
src_u4 insn slot = do
  s ← ok_or (get_elem? (as_slice insn.src) slot) unrepresentable_ir
  at_most 0x0f s

unfoldable pub src_u8 : Instruction → ℕ → Emitted ℕ
unfolding at_most
src_u8 insn slot = do
  s ← ok_or (get_elem? (as_slice insn.src) slot) unrepresentable_ir
  at_most 0xff s

unfoldable pub src_u16 : Instruction → ℕ → Emitted ℕ
src_u16 insn slot = ok_or (get_elem? (as_slice insn.src) slot) unrepresentable_ir

-- `v` if it lies between `lo` and `hi`.
unfoldable pub in_range : ℤ → ℤ → ℤ → DexEmitError → Emitted ℤ
in_range lo hi v e = if ltb_ℤ v lo || ltb_ℤ hi v then err e else ok v

unfoldable pub literal_i4 : Instruction → Emitted ℕ
unfolding in_range
literal_i4 insn = do
  v ← in_range (negsuc 7) (pos 7) insn.literal unrepresentable_ir
  ok (low_bits 8 v % 2 ^ 4)

unfoldable pub literal_i8_as_u8 : Instruction → Emitted ℕ
unfolding in_range
literal_i8_as_u8 insn = do
  v ← in_range i8_min i8_max insn.literal unrepresentable_ir
  ok (low_bits 8 v)

unfoldable pub literal_i16_as_u16 : Instruction → Emitted ℕ
unfolding in_range
literal_i16_as_u16 insn = do
  v ← in_range i16_min i16_max insn.literal unrepresentable_ir
  ok (low_bits 16 v)

unfoldable pub literal_i32 : Instruction → Emitted ℤ
unfolding in_range
literal_i32 insn = in_range i32_min i32_max insn.literal unrepresentable_ir

unfoldable pub pool_number : PoolIndex → ℕ
pool_number (string s) = s
pool_number (type t) = t
pool_number (field f) = f
pool_number (method m) = m
pool_number (method_and_proto m _) = m
pool_number (call_site c) = c

unfoldable pub pool_u32 : Instruction → Emitted ℕ
unfolding pool_number
pool_u32 insn = do p ← ok_or insn.pool_idx unrepresentable_ir; ok (pool_number p)

-- `u16::try_from`
unfoldable pub to_u16 : ℕ → Emitted ℕ
to_u16 n = if ltb n u16_mod then ok n else err unrepresentable_ir

unfoldable pub pool_u16 : Instruction → Emitted ℕ
unfolding pool_u32 to_u16
pool_u16 insn = do idx ← pool_u32 insn; to_u16 idx

unfoldable pub proto_number : PoolIndex → Emitted ℕ
proto_number (method_and_proto _ proto) = ok proto
proto_number _ = err unrepresentable_ir

unfoldable pub pool_proto_u16 : Instruction → Emitted ℕ
unfolding proto_number to_u16
pool_proto_u16 insn = do
  p ← ok_or insn.pool_idx unrepresentable_ir
  proto ← proto_number p
  to_u16 proto

unfoldable pub branch_i8_as_u8 : ℕ → ℕ → Emitted ℕ
unfolding in_range branch_offset
branch_i8_as_u8 target pc = do
  diff ← in_range i8_min i8_max (branch_offset target pc) offset_overflow
  ok (low_bits 8 diff)

unfoldable pub branch_i16_as_u16 : ℕ → ℕ → Emitted ℕ
unfolding in_range branch_offset
branch_i16_as_u16 target pc = do
  diff ← in_range i16_min i16_max (branch_offset target pc) offset_overflow
  ok (low_bits 16 diff)

unfoldable pub branch_i32 : ℕ → ℕ → Emitted ℤ
unfolding in_range branch_offset
branch_i32 target pc = in_range i32_min i32_max (branch_offset target pc) offset_overflow
