-- ===== src/Emit/Value/Widths.antt =====
-- The width that is chosen holds the number.
use native.Mathlib.Nat.{pow-suc, pow-le-pow_right}
use droidsaw_dex.Prelude.{
  ℕ, zero, suc, ◌+◌, ◌*◌, ◌/◌, ◌^◌, ◌≤◌, ◌<◌, ◌≡◌, arith, Bool-cases, ==_iff, inl, inr, ◌==◌,
}
use droidsaw_dex.Prelude.Int.{ℤ}
use droidsaw_dex.Emit.Value.{
  magnitude, bit_length, byte_count, min_signed_bytes, min_unsigned_bytes,
}

-- A number has no more bits than its length says.
bit_length-lt : (fuel n : ℕ) → n < 2 ^ fuel → n < 2 ^ bit_length fuel n
unfolding bit_length
bit_length-lt zero n h = h
bit_length-lt (suc fuel) n h = elim (Bool-cases (n == 0)) [
  | inl none ↦ rw (none, bit_length) (ground arith)
  | inr some ↦
      let half : n / 2 < 2 ^ fuel =
        let double : n < 2 ^ fuel * 2 = rw pow-suc at h in omega arith in
      let small = bit_length-lt fuel (n / 2) half in
      rw (some, bit_length, pow-suc) (omega (arith, small))
]

-- Its length is the least that is enough.
bit_length-le : (fuel n k : ℕ) → n < 2 ^ k → bit_length fuel n ≤ k
unfolding bit_length
bit_length-le zero n k h = omega arith
bit_length-le (suc fuel) n zero h = ground arith
bit_length-le (suc fuel) n (suc k) h = elim (Bool-cases (n == 0)) [
  | inl none ↦ rw (none, bit_length) (omega arith)
  | inr some ↦
      let double : n < 2 ^ k * 2 = rw pow-suc at h in
      rw (some, bit_length) (omega (arith, bit_length-le fuel (n / 2) k (omega arith)))
]

byte_count-bounds : (bits : ℕ) → (1 ≤ byte_count bits) × (byte_count bits ≤ 8)
unfolding byte_count
byte_count-bounds bits = ground arith

byte_count-holds : (bits : ℕ) → bits ≤ 64 → bits ≤ byte_count bits * 8
unfolding byte_count
byte_count-holds bits h = ground arith

byte_count-least : (bits k : ℕ) → 1 ≤ k → bits ≤ k * 8 → byte_count bits ≤ k
unfolding byte_count
byte_count-least bits k one h = ground arith

-- A width of one to eight bytes that holds `n` and is not above `most`.
abbrev pub Holds : ℕ → ℕ → Type 0
Holds n size = (1 ≤ size) × (size ≤ 8) × (n < 2 ^ (size * 8))

pub min_unsigned_bytes-Holds : (n : ℕ) → n < 2 ^ 64 → Holds n (min_unsigned_bytes n)
unfolding min_unsigned_bytes
min_unsigned_bytes-Holds n h = elim (Bool-cases (n == 0)) [
  | inl none ↦
      let zero_eq : n ≡ 0 = (==_iff n 0).0 none in
      rw (none, min_unsigned_bytes) (omega arith, omega arith, rw zero_eq (omega arith))
  | inr some ↦
      let bits = bit_length 64 n in
      let bounds = byte_count-bounds bits in
      let few : bits ≤ 64 = bit_length-le 64 n 64 h in
      let grows : 2 ^ bits ≤ 2 ^ (byte_count bits * 8) =
        pow-le-pow_right (omega arith) (byte_count-holds bits few) in
      rw (some, min_unsigned_bytes) (bounds.0, bounds.1, omega (arith, bit_length-lt 64 n h, grows))
]

pub min_unsigned_bytes-le : (n k : ℕ) → 1 ≤ k → n < 2 ^ (k * 8) → min_unsigned_bytes n ≤ k
unfolding min_unsigned_bytes
min_unsigned_bytes-le n k one h = elim (Bool-cases (n == 0)) [
  | inl none ↦ rw (none, min_unsigned_bytes) one
  | inr some ↦
      rw (some, min_unsigned_bytes)
        (byte_count-least (bit_length 64 n) k one (bit_length-le 64 n (k * 8) h))
]

pub min_signed_bytes-Holds :
    (z : ℤ) → magnitude z < 2 ^ 63 → Holds (magnitude z * 2) (min_signed_bytes z)
unfolding min_signed_bytes
min_signed_bytes-Holds z h = elim (Bool-cases (magnitude z == 0)) [
  | inl none ↦
      let zero_eq : magnitude z ≡ 0 = (==_iff (magnitude z) 0).0 none in
      rw (none, min_signed_bytes) (omega arith, omega arith, rw zero_eq (omega arith))
  | inr some ↦
      let n = magnitude z in
      let bits = bit_length 64 n in
      let bounds = byte_count-bounds (bits + 1) in
      let few : bits ≤ 63 = bit_length-le 64 n 63 h in
      let grows : 2 ^ suc bits ≤ 2 ^ (byte_count (bits + 1) * 8) =
        pow-le-pow_right (omega arith) (omega (arith, byte_count-holds (bits + 1))) in
      let doubled : n * 2 < 2 ^ suc bits =
        rw pow-suc (omega (arith, bit_length-lt 64 n (omega arith))) in
      rw (some, min_signed_bytes) (bounds.0, bounds.1, omega (arith, doubled, grows))
]

pub min_signed_bytes-le :
    (z : ℤ) (k : ℕ) → 1 ≤ k → magnitude z * 2 < 2 ^ (k * 8) → min_signed_bytes z ≤ k
unfolding min_signed_bytes
min_signed_bytes-le z zero one h = absurd (omega arith)
min_signed_bytes-le z (suc k) one h = elim (Bool-cases (magnitude z == 0)) [
  | inl none ↦ rw (none, min_signed_bytes) one
  | inr some ↦
      let halved : magnitude z < 2 ^ (k * 8 + 7) =
        let bits : suc k * 8 ≡ suc (k * 8 + 7) = omega arith in
        let doubled : magnitude z * 2 < 2 ^ (k * 8 + 7) * 2 = rw (bits, pow-suc) at h in
        omega arith in
      rw (some, min_signed_bytes)
        (byte_count-least (bit_length 64 (magnitude z) + 1) (suc k) one
          (omega (arith, bit_length-le 64 (magnitude z) (k * 8 + 7) halved)))
]
