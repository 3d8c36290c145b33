-- ===== src/Emit/Canonical.antt =====
-- The code units that the emitter writes for decoded units, as a function of the units alone.
-- It differs from them in the bits that an instruction does not use, in an argument count above five,
-- which becomes five, and in the first register of a range call of F4rcc without arguments.
pub mod Bytes
use Prim.Native.Nat.{bit_or, min}
use droidsaw_dex.Prelude.{
  ℕ, ◌+◌, ◌*◌, ◌/◌, ◌%◌, ◌^◌, ◌<◌, ◌≡◌, arith, List, [], ◌∷◌, ltb, ◌==◌, if◌then◌else◌, ap, ◌∙◌,
}
use droidsaw_dex.Prelude.Bits.{bit_or-shifted}
use droidsaw_dex.Decode.Format.{InsnFormat}
use droidsaw_dex.Emit.Operands.{push_u16}
use droidsaw_dex.Emit.Instruction.{op_aa, op_ab}

unfoldable pub push_units : List ℕ → List ℕ → List ℕ
push_units out [] = out
push_units out (u ∷ us) = push_units (push_u16 out u) us

-- The nibbles of CDEF that `count` arguments use.
unfoldable pub used_args : ℕ → ℕ → ℕ
used_args count u2 = if ltb count 4 then u2 % 2 ^ (4 * count) else u2

-- The first unit of F35c and F45cc: a count above five becomes five, and G stays only with five.
unfoldable pub used_head : ℕ → ℕ → ℕ
used_head op u0 =
    op
    + (if ltb (u0 / 2 ^ 12) 5 then 0 else u0 / 2 ^ 8 % 2 ^ 4) * 2 ^ 8
    + min (u0 / 2 ^ 12) 5 * 2 ^ 12

-- The units that the emitter writes: the bits that the instruction does not use are zero, a count of
-- arguments above five in F35c and F45cc is five, and CCCC in F4rcc is zero when AA is.
unfoldable pub canonical_units : InsnFormat → ℕ → ℕ → (ℕ → ℕ) → List ℕ
unfolding used_args used_head
canonical_units InsnFormat.f10x op u0 us = op ∷ []
canonical_units InsnFormat.f12x op u0 us = u0 ∷ []
canonical_units InsnFormat.f11n op u0 us = u0 ∷ []
canonical_units InsnFormat.f11x op u0 us = u0 ∷ []
canonical_units InsnFormat.f10t op u0 us = u0 ∷ []
canonical_units InsnFormat.f20t op u0 us = op ∷ us 1 ∷ []
canonical_units InsnFormat.f30t op u0 us = op ∷ us 1 ∷ us 2 ∷ []
canonical_units InsnFormat.f32x op u0 us = op ∷ us 1 ∷ us 2 ∷ []
canonical_units InsnFormat.f31i op u0 us = u0 ∷ us 1 ∷ us 2 ∷ []
canonical_units InsnFormat.f31t op u0 us = u0 ∷ us 1 ∷ us 2 ∷ []
canonical_units InsnFormat.f31c op u0 us = u0 ∷ us 1 ∷ us 2 ∷ []
canonical_units InsnFormat.f35c op u0 us =
    used_head op u0 ∷ us 1 ∷ used_args (u0 / 2 ^ 12) (us 2) ∷ []
canonical_units InsnFormat.f3rc op u0 us = u0 ∷ us 1 ∷ us 2 ∷ []
canonical_units InsnFormat.f45cc op u0 us =
    used_head op u0 ∷ us 1 ∷ used_args (u0 / 2 ^ 12) (us 2) ∷ us 3 ∷ []
canonical_units InsnFormat.f4rcc op u0 us =
    u0 ∷ us 1 ∷ (if u0 / 2 ^ 8 == 0 then 0 else us 2) ∷ us 3 ∷ []
canonical_units InsnFormat.f51l op u0 us = u0 ∷ us 1 ∷ us 2 ∷ us 3 ∷ us 4 ∷ []
canonical_units _ op u0 us = u0 ∷ us 1 ∷ []

pub op_aa_lem : (op aa : ℕ) → op < 2 ^ 8 → op_aa op aa ≡ op + aa * 2 ^ 8
unfolding op_aa
op_aa_lem op aa h = bit_or-shifted 8 op aa h

pub op_ab_lem : (op a b : ℕ) → op < 2 ^ 8 → a < 2 ^ 4 → op_ab op a b ≡ op + a * 2 ^ 8 + b * 2 ^ 12
unfolding op_ab
op_ab_lem op a b h k =
    ap (λ lo. bit_or lo (b * 2 ^ 12)) (bit_or-shifted 8 op a h)
    ∙ bit_or-shifted 12 (op + a * 2 ^ 8) b (omega arith)

module _ (op u0 : ℕ) (head : u0 % 2 ^ 8 ≡ op) (fits : u0 < 2 ^ 16) where
  pub op_aa-head : op_aa op (u0 / 2 ^ 8 % 2 ^ 8) ≡ u0
  op_aa-head = omega (arith, op_aa_lem op (u0 / 2 ^ 8 % 2 ^ 8) (omega arith))

  pub op_ab-head : op_ab op (u0 / 2 ^ 8 % 2 ^ 4) (u0 / 2 ^ 12 % 2 ^ 4) ≡ u0
  op_ab-head =
      omega
        (arith, op_ab_lem op (u0 / 2 ^ 8 % 2 ^ 4) (u0 / 2 ^ 12 % 2 ^ 4) (omega arith) (omega arith))
