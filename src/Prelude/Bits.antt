-- ===== src/Prelude/Bits.antt =====
-- Disjoint bit fields: `lo | hi << k` is a sum.
use Prim.Native.Nat.{
  ℕ, zero, suc, ◌+◌, ◌*◌, ◌/◌, ◌%◌, ◌^◌, ◌≤◌, ◌<◌, max, bit_or, digits, bit_or-bitwise,
}
use mathlib.Core.Path.{◌≡◌, ◌∙◌}
use native.Mathlib.Nat.{pow-suc}
use native.Mathlib.Omega.{arith}

-- The digits of `lo` and of `hi * 2 ^ k` never meet, whatever fuel beyond `lo` is given.
digits_disjoint :
    (fuel k lo hi : ℕ)
    → lo ≤ fuel
    → lo < 2 ^ k
    → digits (λ rest. rest) max fuel lo (hi * 2 ^ k) ≡ lo + hi * 2 ^ k
digits_disjoint zero k zero hi enough small = omega arith
digits_disjoint zero k (suc lo) hi enough small = absurd (omega arith)
digits_disjoint (suc fuel) k zero hi enough small = omega arith
digits_disjoint (suc fuel) zero (suc lo) hi enough small = absurd (omega arith)
digits_disjoint (suc fuel) (suc k) (suc lo) hi enough small =
    let half : hi * 2 ^ suc k / 2 ≡ hi * 2 ^ k = rw pow-suc (omega arith) in
    let even : hi * 2 ^ suc k % 2 ≡ 0 = rw pow-suc (omega arith) in
    let twice : hi * 2 ^ suc k ≡ 2 * (hi * 2 ^ k) = rw pow-suc (omega arith) in
    let bound : suc lo < 2 ^ k * 2 = rw pow-suc at small in
    rw half (rw (digits_disjoint fuel k (suc lo / 2) hi (omega arith) (omega arith)) (omega arith))

-- `lo | hi << k` for `lo` of `k` bits.
pub bit_or-shifted : (k lo hi : ℕ) → lo < 2 ^ k → bit_or lo (hi * 2 ^ k) ≡ lo + hi * 2 ^ k
bit_or-shifted k lo hi small =
    bit_or-bitwise lo (hi * 2 ^ k) ∙ digits_disjoint lo k lo hi (omega arith) small
