-- ===== src/Optimize/Emitted.antt =====
-- Folded instructions against the emitter.
use droidsaw_dex.Prelude.{
  ℕ, ◌-◌, ◌^◌, ◌<◌, ◌≤◌, ◌≡◌, refl, sym, ap, ◌∙◌, subst, arith, true, false, Bool-cases, ◌⊎◌, inl,
  inr, Option, some, List, [], ◌∷◌, ltb,
}
use droidsaw_dex.Prelude.Int.{ℤ, pos, negsuc, ◌≤ℤ◌}
use droidsaw_dex.Prelude.Errors.{ok, err}
use droidsaw_dex.Prelude.Words.{i16_min, i16_max}
use droidsaw_dex.Opcodes.{Opcode}
use droidsaw_dex.Opcodes.Bytes.{to_u8}
use droidsaw_dex.Decode.Format.{InsnFormat, insn_format}
use droidsaw_dex.Decode.Insn.{Instruction}
use droidsaw_dex.Emit.Operands.{
  dst_u4, dst_u8, literal_i4, literal_i16_as_u16, literal_i32, at_most, unrepresentable_ir,
}
use droidsaw_dex.Emit.Instruction.{emit_operands, emit_instruction}
use droidsaw_dex.Optimize.Classes.{is_wide_op}
use droidsaw_dex.Optimize.Fold.{
  to_i32, value, arm_of, fold_arm, operand, fold_two, try_fold, shift_right_unsigned, shift_count,
  fold_binary,
}
use droidsaw_dex.Optimize.Range.{IsI32, is_ushr_int, try_fold-IsI32}
use droidsaw_dex.Optimize.Pick.{
  within, pick_narrow, pick_const_opcode, folded_insn, to_i32-of-IsI32, is_ok, is_ok→value,
  narrow_is_ok, wide_is_ok, short_fails,
}

picked-is_ok :
    (out : List ℕ) (f : Instruction) (r : ℕ) (o : Opcode)
    → f.op ≡ o
    → is_ok (emit_operands (insn_format o) out (to_u8 o) f) ≡ true
    → is_ok (emit_instruction out f) ≡ true
unfolding emit_instruction
picked-is_ok out f r o e h =
    subst (λ x. is_ok (emit_operands (insn_format x) out (to_u8 x) f) ≡ true) (sym e) h

-- A 4-bit destination is needed: the register is above 15 and the value is one of the ints that
-- `pick_const_opcode` gives to const/4.
abbrev pub IsShort : Instruction → ℕ → ℤ → Type 0
IsShort insn r v = (16 ≤ r) × (is_wide_op insn.op ≡ false) × (negsuc 7 ≤ℤ v) × (v ≤ℤ pos 7)

-- The same as a choice between two tests.
short_cases :
    (r : ℕ) (v : ℤ)
    → (16 ≤ r) × (within (negsuc 7) (pos 7) v ≡ true) × (negsuc 7 ≤ℤ v) × (v ≤ℤ pos 7)
      ⊎ ((r < 16) ⊎ (within (negsuc 7) (pos 7) v ≡ false))
        × ((16 ≤ r) → (negsuc 7 ≤ℤ v) → (v ≤ℤ pos 7) → ⊥)
unfolding within
short_cases r v = elim (Bool-cases (ltb r 16)) [
  | inl low ↦ inr (inl (ground (arith, low)), λ high lo hi. ground (arith, low, high))
  | inr high ↦ elim (Bool-cases (within (negsuc 7) (pos 7) v)) [
    | inl short ↦ inl (ground (arith, high), short, ground (arith, short), ground (arith, short))
    | inr long ↦ inr (inr long, λ above lo hi. ground (arith, long, lo, hi))
  ]
]

folded-is_ok :
    (out : List ℕ) (insn : Instruction) (r : ℕ) (v : ℤ)
    → insn.dst ≡ some r
    → r < 256
    → (is_wide_op insn.op ≡ true)
      ⊎ ((is_wide_op insn.op ≡ false)
          × IsI32 v
          × ((r < 16) ⊎ (within (negsuc 7) (pos 7) v ≡ false)))
    → is_ok (emit_instruction out (folded_insn insn v)) ≡ true
unfolding folded_insn pick_const_opcode
folded-is_ok out insn r v dst lt (inl wide) =
    picked-is_ok out (folded_insn insn v) r (pick_const_opcode v true)
      (ap (pick_const_opcode v) wide)
      (wide_is_ok out (to_u8 (pick_const_opcode v true)) r (folded_insn insn v) dst lt)
folded-is_ok out insn r v dst lt (inr (narrow, range, room)) =
    picked-is_ok out (folded_insn insn v) r (pick_narrow v)
      (ap (pick_const_opcode v) narrow ∙ ap pick_narrow (to_i32-of-IsI32 v range))
      (narrow_is_ok out (to_u8 (pick_narrow v)) r (folded_insn insn v) dst lt room range)

folded-short :
    (out : List ℕ) (insn : Instruction) (r : ℕ) (v : ℤ)
    → insn.dst ≡ some r
    → 16 ≤ r
    → is_wide_op insn.op ≡ false
    → IsI32 v
    → within (negsuc 7) (pos 7) v ≡ true
    → emit_instruction out (folded_insn insn v) ≡ err unrepresentable_ir
unfolding emit_instruction folded_insn pick_const_opcode
folded-short out insn r v dst le narrow range short =
    let f = folded_insn insn v in
    let picked : f.op ≡ pick_narrow v =
      ap (pick_const_opcode v) narrow ∙ ap pick_narrow (to_i32-of-IsI32 v range) in
    subst (λ o. emit_operands (insn_format o) out (to_u8 o) f ≡ err unrepresentable_ir) (sym picked)
      (short_fails out (to_u8 (pick_narrow v)) r f dst le short)

-- When folding gives a value to an instruction other than an unsigned shift of ints, the constant
-- instruction that takes its place can be emitted, unless its destination is a register above 15,
-- its value is an int from -8 to 7, and the opcode is not wide: then const/4 is picked, which has no
-- room for the register, and the emitter refuses it. The destination is a register below 256.
pub emit_instruction-folded_insn :
    {V : Type 0} (insn : Instruction) (uses : List V) (consts : V → Option ℤ) (v : ℤ) (r : ℕ)
    (out : List ℕ)
    → try_fold insn.op uses insn.literal consts ≡ value v
    → is_ushr_int insn.op ≡ false
    → insn.dst ≡ some r
    → r < 256
    → ((¬ IsShort insn r v)
        × ((bytes : List ℕ) × (emit_instruction out (folded_insn insn v) ≡ ok bytes)))
      ⊎ (IsShort insn r v × (emit_instruction out (folded_insn insn v) ≡ err unrepresentable_ir))
emit_instruction-folded_insn insn uses consts v r out folds signed dst lt =
    elim (Bool-cases (is_wide_op insn.op)) [
      | inl wide ↦ inl (
        λ short. absurd (cc (wide, short.1)),
        is_ok→value _ (folded-is_ok out insn r v dst lt (inl wide)),
      )
      | inr narrow ↦
          let range = try_fold-IsI32 insn.op uses insn.literal consts v narrow signed folds in
          elim (short_cases r v) [
            | inl (high, within_4, lo, hi) ↦
                inr
                  ((high, narrow, lo, hi), folded-short out insn r v dst high narrow range within_4)
            | inr (room, long) ↦ inl (
              λ short. long short.0 short.2 short.3,
              is_ok→value _ (folded-is_ok out insn r v dst lt (inr (narrow, range, room))),
            )
          ]
    ]

large_literal :
    (out : List ℕ) (b : ℕ) (f : Instruction) (m r : ℕ)
    → f.literal ≡ pos m
    → 2 ^ 31 ≤ m
    → f.dst ≡ some r
    → r < 16
    → (emit_operands InsnFormat.f11n out b f ≡ err unrepresentable_ir)
      × (emit_operands InsnFormat.f21s out b f ≡ err unrepresentable_ir)
      × (emit_operands InsnFormat.f31i out b f ≡ err unrepresentable_ir)
unfolding emit_operands dst_u4 dst_u8 at_most literal_i4 literal_i16_as_u16 literal_i32
large_literal out b f m r lit big dst lt = (ground arith, ground arith, ground arith)

large_narrow :
    (out : List ℕ) (b : ℕ) (f : Instruction) (m r : ℕ) (w : ℤ)
    → f.literal ≡ pos m
    → 2 ^ 31 ≤ m
    → f.dst ≡ some r
    → r < 16
    → emit_operands (insn_format (pick_narrow w)) out b f ≡ err unrepresentable_ir
unfolding pick_narrow insn_format
large_narrow out b f m r w lit big dst lt =
    let fails = large_literal out b f m r lit big dst lt in
    elim (Bool-cases (within (negsuc 7) (pos 7) w)) [
      | inl short ↦ rw (short, insn_format) fails.0
      | inr long ↦ elim (Bool-cases (within i16_min i16_max w)) [
        | inl half ↦ rw (long, half, insn_format) fails.1
        | inr full ↦ rw (long, full, insn_format) fails.2
      ]
    ]

large-fails :
    (out : List ℕ) (insn : Instruction) (m r : ℕ)
    → is_wide_op insn.op ≡ false
    → 2 ^ 31 ≤ m
    → insn.dst ≡ some r
    → r < 16
    → emit_instruction out (folded_insn insn (pos m)) ≡ err unrepresentable_ir
unfolding emit_instruction folded_insn pick_const_opcode
large-fails out insn m r narrow big dst lt =
    let f = folded_insn insn (pos m) in
    let picked : f.op ≡ pick_narrow (to_i32 (pos m)) = ap (pick_const_opcode (pos m)) narrow in
    subst (λ o. emit_operands (insn_format o) out (to_u8 o) f ≡ err unrepresentable_ir) (sym picked)
      (large_narrow out (to_u8 (pick_narrow (to_i32 (pos m)))) f m r (to_i32 (pos m)) refl big dst
        lt)

ushr_int-narrow : (op : Opcode) → op ≡ Opcode.ushr_int → is_wide_op op ≡ false
unfolding is_wide_op
ushr_int-narrow op e = rw e refl

ushr_value :
    {V : Type 0} (op : Opcode) (a b : V) (consts : V → Option ℤ) (literal : ℤ) (n : ℕ)
    → op ≡ Opcode.ushr_int
    → consts a ≡ some (negsuc n)
    → n < 2 ^ 31
    → consts b ≡ some (pos 0)
    → try_fold op (a ∷ b ∷ []) literal consts ≡ value (pos (2 ^ 32 - 1 - n))
unfolding try_fold arm_of fold_arm operand fold_two fold_binary shift_right_unsigned shift_count
ushr_value op a b consts literal n e at_a small at_b =
    rw e (rw (at_a, at_b, try_fold) (ap (λ (x : ℕ). value (pos x)) (omega arith)))

-- The unsigned shift of a negative int by zero folds to a value above the ints, and the constant
-- instruction that is picked for it cannot be emitted.
pub emit_instruction-folded_ushr :
    {V : Type 0} (insn : Instruction) (a b : V) (consts : V → Option ℤ) (n r : ℕ) (out : List ℕ)
    → insn.op ≡ Opcode.ushr_int
    → consts a ≡ some (negsuc n)
    → n < 2 ^ 31
    → consts b ≡ some (pos 0)
    → insn.dst ≡ some r
    → r < 16
    → (try_fold insn.op (a ∷ b ∷ []) insn.literal consts ≡ value (pos (2 ^ 32 - 1 - n)))
      × (2 ^ 31 ≤ 2 ^ 32 - 1 - n)
      × (emit_instruction out (folded_insn insn (pos (2 ^ 32 - 1 - n))) ≡ err unrepresentable_ir)
emit_instruction-folded_ushr insn a b consts n r out op at_a small at_b dst lt =
    let big : 2 ^ 31 ≤ 2 ^ 32 - 1 - n = omega arith in
    (
      ushr_value insn.op a b consts insn.literal n op at_a small at_b,
      big,
      large-fails out insn (2 ^ 32 - 1 - n) r (ushr_int-narrow insn.op op) big dst lt,
    )
