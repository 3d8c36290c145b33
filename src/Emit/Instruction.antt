-- ===== src/Emit/Instruction.antt =====
-- src/emit_dex.rs: `emit_instruction`, the inverse of `decode_single`.
use Prim.Native.Nat.{bit_or}
use droidsaw_dex.Prelude.{ℕ, ◌*◌, ◌/◌, ◌%◌, ◌^◌, not, List, ltb, ◌==◌, if◌then◌else◌}
use droidsaw_dex.Prelude.Int.{ℤ, pos}
use droidsaw_dex.Prelude.Errors.{ok, err, ◌>>=◌, ◌>>◌, ok_or, guard}
use droidsaw_dex.Prelude.Words.{low_bits, i32_min, i32_max}
use droidsaw_dex.Opcodes.{Opcode}
use droidsaw_dex.Opcodes.Bytes.{to_u8}
use droidsaw_dex.Decode.Format.{InsnFormat, insn_format}
use droidsaw_dex.Decode.Insn.{raw_at, is_empty, Instruction}
use droidsaw_dex.Emit.Operands.{
  Emitted, unrepresentable_ir, push_u16, dst_u4, dst_u8, src_u4, src_u8, src_u16, literal_i4,
  literal_i8_as_u8, literal_i16_as_u16, literal_i32, pool_u32, pool_u16, pool_proto_u16,
  branch_i8_as_u8, branch_i16_as_u16, branch_i32, in_range,
}

-- The first unit: the opcode byte with a high byte, or with two nibbles.
unfoldable pub op_aa : ℕ → ℕ → ℕ
op_aa op aa = bit_or op (aa * 2 ^ 8)

unfoldable pub op_ab : ℕ → ℕ → ℕ → ℕ
op_ab op a b = bit_or (bit_or op (a * 2 ^ 8)) (b * 2 ^ 12)

-- The target that a branch format requires.
unfoldable pub branch_to : Instruction → Emitted ℕ
branch_to insn = ok_or insn.target unrepresentable_ir

-- The unit of F21h: the high half of the literal, whose low bits have to be zero.
unfoldable pub high16_unit : Opcode → ℤ → Emitted ℕ
unfolding in_range
high16_unit Opcode.const_high16 lit = do
  guard (low_bits 16 lit == 0) unrepresentable_ir
  v ← in_range i32_min i32_max lit unrepresentable_ir
  ok (low_bits 32 v / 2 ^ 16)
high16_unit Opcode.const_wide_high16 lit = do
  guard (low_bits 48 lit == 0) unrepresentable_ir
  ok (low_bits 64 lit / 2 ^ 48)
high16_unit _ lit = err unrepresentable_ir

-- `if arg_count > slot { src_u4(insn, slot)? } else { 0 }`
unfoldable pub arg_u4 : Instruction → ℕ → Emitted ℕ
arg_u4 insn slot = if ltb slot insn.src.len then src_u4 insn slot else ok 0

-- The units of F35c and F45cc that hold the argument registers: the nibble `g` and the unit CDEF.
unfoldable pub arg_units : Instruction → Emitted (ℕ × ℕ)
unfolding arg_u4
arg_units insn = do
  guard (not (ltb 5 insn.src.len)) unrepresentable_ir
  g ← if insn.src.len == 5 then src_u4 insn 4 else ok 0
  c ← arg_u4 insn 0
  d ← arg_u4 insn 1
  e ← arg_u4 insn 2
  f ← arg_u4 insn 3
  ok (g, bit_or (bit_or (bit_or c (d * 2 ^ 4)) (e * 2 ^ 8)) (f * 2 ^ 12))

-- The argument count of F3rc and F4rcc, kept in the literal.
unfoldable pub range_count : Instruction → Emitted ℕ
unfolding in_range
range_count insn = do
  v ← in_range (pos 0) (pos 255) insn.literal unrepresentable_ir
  ok (low_bits 16 v)

-- The two halves of a 32-bit pattern.
unfoldable pub push_u32_units : List ℕ → ℕ → List ℕ
unfolding push_u16
push_u32_units out v = push_u16 (push_u16 out (v % 2 ^ 16)) (v / 2 ^ 16 % 2 ^ 16)

-- The match of `emit_instruction` on the format; `op` is the opcode byte.
unfoldable pub emit_operands : InsnFormat → List ℕ → ℕ → Instruction → Emitted (List ℕ)
unfolding branch_to range_count push_u32_units
emit_operands InsnFormat.f10x out op insn = ok (push_u16 out op)
emit_operands InsnFormat.f12x out op insn = do
  a ← dst_u4 insn
  b ← src_u4 insn 0
  ok (push_u16 out (op_ab op a b))
emit_operands InsnFormat.f11n out op insn = do
  a ← dst_u4 insn
  b ← literal_i4 insn
  ok (push_u16 out (op_ab op a b))
emit_operands InsnFormat.f11x out op insn = do aa ← dst_u8 insn; ok (push_u16 out (op_aa op aa))
emit_operands InsnFormat.f10t out op insn = do
  target ← branch_to insn
  off ← branch_i8_as_u8 target insn.addr
  ok (push_u16 out (op_aa op off))
emit_operands InsnFormat.f20t out op insn = do
  target ← branch_to insn
  off ← branch_i16_as_u16 target insn.addr
  ok (push_u16 (push_u16 out op) off)
emit_operands InsnFormat.f22x out op insn = do
  aa ← dst_u8 insn
  b ← src_u16 insn 0
  ok (push_u16 (push_u16 out (op_aa op aa)) b)
emit_operands InsnFormat.f21t out op insn = do
  aa ← dst_u8 insn
  target ← branch_to insn
  off ← branch_i16_as_u16 target insn.addr
  ok (push_u16 (push_u16 out (op_aa op aa)) off)
emit_operands InsnFormat.f21s out op insn = do
  aa ← dst_u8 insn
  lit ← literal_i16_as_u16 insn
  ok (push_u16 (push_u16 out (op_aa op aa)) lit)
emit_operands InsnFormat.f21h out op insn = do
  aa ← dst_u8 insn
  unit ← high16_unit insn.op insn.literal
  ok (push_u16 (push_u16 out (op_aa op aa)) unit)
emit_operands InsnFormat.f21c out op insn = do
  aa ← dst_u8 insn
  idx ← pool_u16 insn
  ok (push_u16 (push_u16 out (op_aa op aa)) idx)
emit_operands InsnFormat.f23x out op insn = do
  aa ← dst_u8 insn
  bb ← src_u8 insn 0
  cc' ← src_u8 insn 1
  ok (push_u16 (push_u16 out (op_aa op aa)) (bit_or bb (cc' * 2 ^ 8)))
emit_operands InsnFormat.f22t out op insn = do
  a ← src_u4 insn 0
  b ← src_u4 insn 1
  target ← branch_to insn
  off ← branch_i16_as_u16 target insn.addr
  ok (push_u16 (push_u16 out (op_ab op a b)) off)
emit_operands InsnFormat.f22s out op insn = do
  a ← dst_u4 insn
  b ← src_u4 insn 0
  lit ← literal_i16_as_u16 insn
  ok (push_u16 (push_u16 out (op_ab op a b)) lit)
emit_operands InsnFormat.f22c out op insn = do
  a ← dst_u4 insn
  b ← src_u4 insn 0
  idx ← pool_u16 insn
  ok (push_u16 (push_u16 out (op_ab op a b)) idx)
emit_operands InsnFormat.f22b out op insn = do
  aa ← dst_u8 insn
  bb ← src_u8 insn 0
  cc' ← literal_i8_as_u8 insn
  ok (push_u16 (push_u16 out (op_aa op aa)) (bit_or bb (cc' * 2 ^ 8)))
emit_operands InsnFormat.f30t out op insn = do
  target ← branch_to insn
  off ← branch_i32 target insn.addr
  ok (push_u32_units (push_u16 out op) (low_bits 32 off))
emit_operands InsnFormat.f32x out op insn = do
  d ← ok_or insn.dst unrepresentable_ir
  s ← src_u16 insn 0
  ok (push_u16 (push_u16 (push_u16 out op) d) s)
emit_operands InsnFormat.f31i out op insn = do
  aa ← dst_u8 insn
  lit ← literal_i32 insn
  ok (push_u32_units (push_u16 out (op_aa op aa)) (low_bits 32 lit))
emit_operands InsnFormat.f31t out op insn = do
  aa ← dst_u8 insn
  target ← branch_to insn
  off ← branch_i32 target insn.addr
  ok (push_u32_units (push_u16 out (op_aa op aa)) (low_bits 32 off))
emit_operands InsnFormat.f31c out op insn = do
  aa ← dst_u8 insn
  idx ← pool_u32 insn
  ok (push_u32_units (push_u16 out (op_aa op aa)) idx)
emit_operands InsnFormat.f35c out op insn = do
  (g, u2) ← arg_units insn
  idx ← pool_u16 insn
  ok (push_u16 (push_u16 (push_u16 out (op_ab op g insn.src.len)) idx) u2)
emit_operands InsnFormat.f3rc out op insn = do
  aa ← range_count insn
  idx ← pool_u16 insn
  ok (push_u16 (push_u16 (push_u16 out (op_aa op aa)) idx) (raw_at insn.src 0))
emit_operands InsnFormat.f45cc out op insn = do
  (g, u2) ← arg_units insn
  method ← pool_u16 insn
  proto ← pool_proto_u16 insn
  ok (push_u16 (push_u16 (push_u16 (push_u16 out (op_ab op g insn.src.len)) method) u2) proto)
emit_operands InsnFormat.f4rcc out op insn = do
  aa ← range_count insn
  method ← pool_u16 insn
  proto ← pool_proto_u16 insn
  start ← if is_empty insn.src then ok 0 else src_u16 insn 0
  ok (push_u16 (push_u16 (push_u16 (push_u16 out (op_aa op aa)) method) start) proto)
emit_operands InsnFormat.f51l out op insn = do
  aa ← dst_u8 insn
  let lit = low_bits 64 insn.literal
  let low = push_u32_units (push_u16 out (op_aa op aa)) lit
  ok (push_u16 (push_u16 low (lit / 2 ^ 32 % 2 ^ 16)) (lit / 2 ^ 48 % 2 ^ 16))

unfoldable pub emit_instruction : List ℕ → Instruction → Emitted (List ℕ)
emit_instruction out insn = emit_operands (insn_format insn.op) out (to_u8 insn.op) insn
