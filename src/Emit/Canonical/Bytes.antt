-- ===== src/Emit/Canonical/Bytes.antt =====
-- The canonical units as bytes, and read back from them.
use mathlib.Core.List.{append_assoc, append-nil}
use droidsaw_dex.Prelude.{
  ℕ, zero, suc, ◌*◌, ◌/◌, ◌%◌, ◌^◌, ◌≤◌, ◌<◌, ◌≡◌, refl, sym, arith, ◌∙◌, List, [], ◌∷◌, ◌++◌, All,
  length, drop, get_or,
}
use droidsaw_dex.Prelude.Errors.{ok}
use droidsaw_dex.Decode.Format.{InsnFormat, format_size}
use droidsaw_dex.Decode.Reader.{le_u16}
use droidsaw_dex.Emit.Operands.{push_u16}
use droidsaw_dex.Emit.Canonical.{canonical_units, push_units, used_args, used_head}

abbrev pub unit_bytes : List ℕ → List ℕ
unit_bytes [] = []
unit_bytes (u ∷ us) = u % 2 ^ 8 ∷ u / 2 ^ 8 ∷ unit_bytes us

pub push_units-unit_bytes : (out us : List ℕ) → push_units out us ≡ out ++ unit_bytes us
unfolding push_units push_u16
push_units-unit_bytes out [] = sym (append-nil out)
push_units-unit_bytes out (u ∷ us) =
    push_units-unit_bytes (out ++ u % 2 ^ 8 ∷ u / 2 ^ 8 ∷ []) us ∙ append_assoc out _ _

abbrev pub IsUnit : ℕ → Type 0
IsUnit u = u < 2 ^ 16

two_more : (i : ℕ) → suc i * 2 ≡ suc (suc (i * 2))
two_more i = omega arith

pub le_u16-unit_bytes :
    (us rest : List ℕ) (i off : ℕ)
    → All IsUnit us
    → i < length us
    → le_u16 (drop (i * 2) (unit_bytes us ++ rest)) off ≡ ok (get_or us i 0)
unfolding le_u16
le_u16-unit_bytes [] rest i off h lt = absurd (omega arith)
le_u16-unit_bytes (u ∷ us) rest zero off (h, hs) lt = ground arith
le_u16-unit_bytes (u ∷ us) rest (suc i) off (h, hs) lt =
    rw two_more (le_u16-unit_bytes us rest i off hs (omega arith))

used_args-le : (count u2 : ℕ) → used_args count u2 ≤ u2
unfolding used_args
used_args-le count u2 = grind arith

module _ (op u0 : ℕ) (us : ℕ → ℕ) (head : u0 % 2 ^ 8 ≡ op) (fits : u0 < 2 ^ 16)
    (wide : (i : ℕ) → us i < 2 ^ 16) where
  pub length-canonical_units :
      (fmt : InsnFormat) → length (canonical_units fmt op u0 us) ≡ format_size fmt
  unfolding canonical_units format_size
  length-canonical_units InsnFormat.f10x = refl
  length-canonical_units _ = refl

  used_head-lt : used_head op u0 < 2 ^ 16
  unfolding used_head
  used_head-lt = ground arith

  pub canonical_units-IsUnit : (fmt : InsnFormat) → All IsUnit (canonical_units fmt op u0 us)
  unfolding canonical_units
  canonical_units-IsUnit InsnFormat.f10x = omega arith
  canonical_units-IsUnit InsnFormat.f4rcc = ground (arith, wide 1, wide 2, wide 3)
  canonical_units-IsUnit _ =
      omega (arith, wide 1, wide 2, wide 3, wide 4, used_args-le (u0 / 2 ^ 12) (us 2), used_head-lt)
