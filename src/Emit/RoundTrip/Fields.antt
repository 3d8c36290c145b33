-- ===== src/Emit/RoundTrip/Fields.antt =====
-- Signed fields and branch offsets, packed by the emitter as the decoder read them.
use Prim.Native.Nat.{bit_or}
use droidsaw_dex.Prelude.{
  ℕ, zero, suc, ◌+◌, ◌*◌, ◌^◌, ◌<◌, ◌≡◌, refl, arith, ◌∙◌, ap, Bool-cases, ◌==◌, inl, inr, subst,
  sym,
}
use droidsaw_dex.Prelude.Bits.{bit_or-shifted}
use droidsaw_dex.Prelude.Int.{◌-ℤ◌}
use droidsaw_dex.Prelude.Errors.{ok, IfOk}
use droidsaw_dex.Prelude.Words.{as_signed, u32_mod, u16_mod}
use droidsaw_dex.Opcodes.{Opcode}
use droidsaw_dex.Decode.Insn.{
  classify_pool_21c, classify_pool_22c, classify_pool_35c, classify_pool_3rc,
}
use droidsaw_dex.Decode.Reader.{branch_target}
use droidsaw_dex.Decode.Single.{sign_extend_4bit_to_i64}
use droidsaw_dex.Emit.Operands.{pool_number, branch_i8_as_u8, branch_i16_as_u16, branch_i32}

abbrev SignsBelow : ℕ → Type 0
SignsBelow zero = Unit
SignsBelow (suc n) = (sign_extend_4bit_to_i64 n ≡ as_signed 4 n) × SignsBelow n

SignsBelow-at : (n i : ℕ) → i < n → SignsBelow n → sign_extend_4bit_to_i64 i ≡ as_signed 4 i
SignsBelow-at zero i lt table = absurd (omega arith)
SignsBelow-at (suc n) i lt table = elim (Bool-cases (i == n)) [
  | inl last ↦
      let same : i ≡ n = ground (arith, last) in
      subst (λ k. sign_extend_4bit_to_i64 k ≡ as_signed 4 k) (sym same) table.0
  | inr before ↦ SignsBelow-at n i (ground (arith, before, lt)) table.1
]

nibbles : SignsBelow 16
unfolding sign_extend_4bit_to_i64
nibbles = (
  refl,
  (
    refl,
    (
      refl,
      (
        refl,
        (
          refl,
          (
            refl,
            (refl, (refl, (refl, (refl, (refl, (refl, (refl, (refl, (refl, (refl, tt)))))))))),
          ),
        ),
      ),
    ),
  ),
)

-- The bit trick of the decoder is the two's complement reading of a nibble: `v` below 8 and
-- `v - 16` from 8 on.
pub sign_extend_4bit_to_i64-eq-as_signed :
    (nibble : ℕ) → nibble < 16 → sign_extend_4bit_to_i64 nibble ≡ as_signed 4 nibble
sign_extend_4bit_to_i64-eq-as_signed nibble h = SignsBelow-at 16 nibble h nibbles

module _ (pc : ℕ) (in_u32 : pc < u32_mod) where
  pub branch_i8_as_u8-branch_target :
      (u : ℕ)
      → u < 2 ^ 8
      → IfOk (λ t. branch_i8_as_u8 t pc ≡ ok u) (branch_target pc (as_signed 8 u))
  unfolding branch_target branch_i8_as_u8 ◌-ℤ◌
  branch_i8_as_u8-branch_target u h = ground arith

  pub branch_i16_as_u16-branch_target :
      (u : ℕ)
      → u < u16_mod
      → IfOk (λ t. branch_i16_as_u16 t pc ≡ ok u) (branch_target pc (as_signed 16 u))
  unfolding branch_target branch_i16_as_u16 ◌-ℤ◌
  branch_i16_as_u16-branch_target u h = ground arith

  pub branch_i32-branch_target :
      (u : ℕ)
      → u < u32_mod
      → IfOk (λ t. branch_i32 t pc ≡ ok (as_signed 32 u)) (branch_target pc (as_signed 32 u))
  unfolding branch_target branch_i32 ◌-ℤ◌
  branch_i32-branch_target u h = ground arith

pub low_or_high : (lo hi : ℕ) → lo < 2 ^ 16 → bit_or lo (hi * 2 ^ 16) ≡ lo + hi * 2 ^ 16
low_or_high lo hi h = bit_or-shifted 16 lo hi h

pub four_units :
    (a b c d : ℕ)
    → a < 2 ^ 16
    → b < 2 ^ 16
    → c < 2 ^ 16
    → bit_or (bit_or (bit_or a (b * 2 ^ 16)) (c * 2 ^ 32)) (d * 2 ^ 48)
      ≡ a + b * 2 ^ 16 + c * 2 ^ 32 + d * 2 ^ 48
four_units a b c d ha hb hc =
    ap (λ x. bit_or (bit_or x (c * 2 ^ 32)) (d * 2 ^ 48)) (bit_or-shifted 16 a b ha)
    ∙ ap (λ x. bit_or x (d * 2 ^ 48)) (bit_or-shifted 32 (a + b * 2 ^ 16) c (omega arith))
    ∙ bit_or-shifted 48 (a + b * 2 ^ 16 + c * 2 ^ 32) d (omega arith)

-- The emitter reads back the number that a classification was given.
pub pool_number-classify_pool_21c :
    (op : Opcode) (idx : ℕ) → pool_number (classify_pool_21c op idx) ≡ idx
unfolding pool_number classify_pool_21c
pool_number-classify_pool_21c Opcode.nop idx = refl
pool_number-classify_pool_21c _ idx = refl

pub pool_number-classify_pool_22c :
    (op : Opcode) (idx : ℕ) → pool_number (classify_pool_22c op idx) ≡ idx
unfolding pool_number classify_pool_22c
pool_number-classify_pool_22c Opcode.nop idx = refl
pool_number-classify_pool_22c _ idx = refl

pub pool_number-classify_pool_35c :
    (op : Opcode) (idx : ℕ) → pool_number (classify_pool_35c op idx) ≡ idx
unfolding pool_number classify_pool_35c
pool_number-classify_pool_35c Opcode.nop idx = refl
pool_number-classify_pool_35c _ idx = refl

pub pool_number-classify_pool_3rc :
    (op : Opcode) (idx : ℕ) → pool_number (classify_pool_3rc op idx) ≡ idx
unfolding pool_number classify_pool_3rc
pool_number-classify_pool_3rc Opcode.nop idx = refl
pool_number-classify_pool_3rc _ idx = refl
