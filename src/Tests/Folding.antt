-- ===== src/Tests/Folding.antt =====
-- Folding of single instructions.
use droidsaw_dex.Prelude.{
  ℕ, zero, suc, ◌-◌, ◌^◌, ◌≤◌, ◌≡◌, ◌⊎◌, refl, arith, Option, none, some, List, [], ◌∷◌,
}
use droidsaw_dex.Prelude.Int.{ℤ, pos, negsuc, ◌≤ℤ◌, ◌+ℤ◌}
use droidsaw_dex.Prelude.Errors.{ok, err}
use droidsaw_dex.Prelude.Words.{i32_min, i32_max}
use droidsaw_dex.Opcodes.{Opcode}
use droidsaw_dex.Decode.Insn.{Instruction}
use droidsaw_dex.Emit.Operands.{unrepresentable_ir}
use droidsaw_dex.Emit.Instruction.{emit_instruction}
use droidsaw_dex.Optimize.Classes.{is_wide_op}
use droidsaw_dex.Optimize.Fold.{
  value, try_fold, fold_arm, fold_two, fold_binary, operand, arm_of, to_i32,
}
use droidsaw_dex.Optimize.Range.{is_ushr_int, try_fold-IsI32}
use droidsaw_dex.Optimize.Pick.{folded_insn}
use droidsaw_dex.Optimize.Emitted.{
  IsShort, emit_instruction-folded_insn, emit_instruction-folded_ushr,
}

-- Variable 0 is 2 ^ 31 - 1, variable 1 is 1, variable 2 is -1, every other one is 0.
abbrev known : ℕ → Option ℤ
known zero = some (pos 0x7fff_ffff)
known (suc zero) = some (pos 1)
known (suc (suc zero)) = some (negsuc 0)
known (suc (suc (suc v))) = some (pos 0)

abbrev three_regs : Opcode → Instruction
three_regs op = record {
  addr = 0;
  op = op;
  size = 2;
  dst = some 3;
  src = record { regs = 0 ∷ 1 ∷ 0 ∷ 0 ∷ 0 ∷ []; len = 2 };
  literal = pos 0;
  target = none;
  pool_idx = none;
}

sum_wraps : try_fold Opcode.add_int (0 ∷ 1 ∷ []) (pos 0) known ≡ value (negsuc 0x7fff_ffff)
unfolding try_fold fold_arm arm_of operand fold_two fold_binary to_i32 ◌+ℤ◌
sum_wraps = refl

try_fold-IsI32_example : (i32_min ≤ℤ negsuc 0x7fff_ffff) × (negsuc 0x7fff_ffff ≤ℤ i32_max)
unfolding is_wide_op is_ushr_int
try_fold-IsI32_example =
    try_fold-IsI32 Opcode.add_int (0 ∷ 1 ∷ []) (pos 0) known (negsuc 0x7fff_ffff) refl refl
      sum_wraps

emit_instruction-folded_insn_example :
    ((¬ IsShort (three_regs Opcode.add_int) 3 (negsuc 0x7fff_ffff))
      × ((bytes : List ℕ) × (emit_instruction []
              (folded_insn (three_regs Opcode.add_int) (negsuc 0x7fff_ffff))
            ≡ ok bytes)))
    ⊎ (IsShort (three_regs Opcode.add_int) 3 (negsuc 0x7fff_ffff)
        × (emit_instruction [] (folded_insn (three_regs Opcode.add_int) (negsuc 0x7fff_ffff))
            ≡ err unrepresentable_ir))
unfolding is_ushr_int
emit_instruction-folded_insn_example =
    emit_instruction-folded_insn (three_regs Opcode.add_int) (0 ∷ 1 ∷ []) known (negsuc 0x7fff_ffff)
      3 [] sum_wraps refl refl (omega arith)

emit_instruction-folded_ushr_example :
    (try_fold Opcode.ushr_int (2 ∷ 3 ∷ []) (pos 0) known ≡ value (pos (2 ^ 32 - 1 - 0)))
    × (2 ^ 31 ≤ 2 ^ 32 - 1 - 0)
    × (emit_instruction [] (folded_insn (three_regs Opcode.ushr_int) (pos (2 ^ 32 - 1 - 0)))
        ≡ err unrepresentable_ir)
emit_instruction-folded_ushr_example =
    emit_instruction-folded_ushr (three_regs Opcode.ushr_int) 2 3 known 0 3 [] refl refl
      (omega arith) refl refl (omega arith)
