-- ===== src/Tests/Codec.antt =====
-- The opcode and instruction codecs at concrete code units.
use droidsaw_dex.Prelude.{
  ℕ, ◌*◌, ◌%◌, ◌^◌, ◌≡◌, refl, arith, ◌↔◌, none, some, List, [], ◌∷◌, ◌++◌, All, length,
}
use droidsaw_dex.Prelude.Int.{negsuc}
use droidsaw_dex.Prelude.Errors.{ok}
use droidsaw_dex.Opcodes.{Opcode}
use droidsaw_dex.Opcodes.Bytes.{to_u8, from_u8}
use droidsaw_dex.Opcodes.RoundTrip.{from_u8-iff-to_u8, mnemonic-injective}
use droidsaw_dex.Decode.Format.{insn_format, format_size}
use droidsaw_dex.Decode.Insn.{Instruction}
use droidsaw_dex.Decode.Reader.{read_unit}
use droidsaw_dex.Decode.Reader.Bounds.{IsByte}
use droidsaw_dex.Decode.Single.{decode_single, decode_operands}
use droidsaw_dex.Emit.Operands.{push_u16}
use droidsaw_dex.Emit.Canonical.{push_units, canonical_units}
use droidsaw_dex.Decode.Single.Reads.{decoded_insn}
use droidsaw_dex.Emit.Instruction.{emit_instruction}
use droidsaw_dex.Emit.RoundTrip.Whole.{
  emit_instruction-decode_single, decode_single-emit_instruction,
}

-- `add-int/lit8 v1, v2, #-3` at unit 1, behind a `nop`.
abbrev nop_add : List ℕ
nop_add = 0x00 ∷ 0x00 ∷ 0xd8 ∷ 0x01 ∷ 0x02 ∷ 0xfd ∷ []

abbrev add_insn : Instruction
add_insn = record {
  addr = 1;
  op = Opcode.add_int_lit8;
  size = 2;
  dst = some 1;
  src = record { regs = 2 ∷ 0 ∷ 0 ∷ 0 ∷ 0 ∷ []; len = 1 };
  literal = negsuc 2;
  target = none;
  pool_idx = none;
}

nop_add-bytes : All IsByte nop_add
nop_add-bytes =
    (omega arith, (omega arith, (omega arith, (omega arith, (omega arith, (omega arith, tt))))))

nop_add-first : read_unit nop_add 0 1 0 ≡ ok 0x1d8
unfolding read_unit
nop_add-first = refl

nop_add-dispatch : 0x1d8 % 2 ^ 8 ≡ to_u8 Opcode.add_int_lit8
unfolding to_u8
nop_add-dispatch = refl

nop_add-decoded : decode_single nop_add 0 1 Opcode.add_int_lit8 [] ≡ ok (add_insn, [])
unfolding decode_single decode_operands read_unit insn_format format_size
nop_add-decoded = refl

emit_instruction-decode_single_example :
    emit_instruction [] add_insn ≡ ok (0xd8 ∷ 0x01 ∷ 0x02 ∷ 0xfd ∷ [])
unfolding push_units canonical_units insn_format push_u16 read_unit
emit_instruction-decode_single_example =
    emit_instruction-decode_single nop_add 0 1 0x1d8 Opcode.add_int_lit8 [] (add_insn, [])
      nop_add-bytes nop_add-first nop_add-dispatch nop_add-decoded []

decode_single-emit_instruction_example :
    (emitted : List ℕ) × (emit_instruction [] add_insn ≡ ok emitted)
    × (length emitted ≡ 2 * format_size (insn_format Opcode.add_int_lit8))
    × (decoded_insn (decode_single ((7 ∷ 7 ∷ []) ++ (emitted ++ 9 ∷ [])) 0 1 Opcode.add_int_lit8 [])
        ≡ ok add_insn)
decode_single-emit_instruction_example =
    decode_single-emit_instruction nop_add 0 1 0x1d8 Opcode.add_int_lit8 [] (add_insn, [])
      nop_add-bytes nop_add-first nop_add-dispatch nop_add-decoded (7 ∷ 7 ∷ []) (9 ∷ []) refl []

from_u8-iff-to_u8_example :
    (from_u8 0xd8 ≡ some Opcode.add_int_lit8) ↔ (to_u8 Opcode.add_int_lit8 ≡ 0xd8)
from_u8-iff-to_u8_example = from_u8-iff-to_u8 0xd8 Opcode.add_int_lit8

mnemonic-injective_example : Opcode.goto ≡ Opcode.goto
mnemonic-injective_example = mnemonic-injective Opcode.goto Opcode.goto refl
