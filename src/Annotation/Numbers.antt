-- ===== src/Annotation/Numbers.antt =====
-- src/annotation.rs: the loops over the bytes of a number, against the bytes that are emitted.
use Prim.Native.Nat.{bit_or}
use native.Mathlib.Nat.{pow-suc}
use droidsaw_dex.Prelude.{
  ℕ, zero, suc, ◌+◌, ◌*◌, ◌%◌, ◌^◌, ◌≤◌, ◌<◌, ◌≡◌, refl, sym, ap, ◌∙◌, arith, List, [], ◌∷◌, ◌++◌,
  All, All-take, subst, if◌then◌else◌, length, drop, ltb,
}
use droidsaw_dex.Prelude.Int.{ℤ}
use droidsaw_dex.Prelude.Errors.{ok}
use droidsaw_dex.Prelude.Bits.{bit_or-shifted}
use droidsaw_dex.Prelude.Words.{as_signed, low_bits, usize_mod}
use droidsaw_dex.Prelude.Positions.{drop-suc, drop-within}
use droidsaw_dex.Decode.Reader.{safe_add, safe_mul}
use droidsaw_dex.Annotation.Primitive.{pread_u8, read_bytes, read_int, read_uint}
use droidsaw_dex.Emit.Value.{magnitude, low_le_bytes, le_bytes_64}

-- The number that little-endian bytes make up.
abbrev pub value_of : List ℕ → ℕ
value_of [] = 0
value_of (b ∷ bs) = b + 2 ^ 8 * value_of bs

pub pread_u8-drop :
    (bytes : List ℕ) (at : ℕ) {b : ℕ} {rest : List ℕ}
    → drop at bytes ≡ b ∷ rest
    → pread_u8 bytes at ≡ ok b
unfolding pread_u8
pread_u8-drop bytes at h = rw h refl

pub safe_add_lem : (a b : ℕ) → a + b < usize_mod → safe_add a b ≡ ok (a + b)
unfolding safe_add
safe_add_lem a b h = ground arith

safe_mul_lem : (a b : ℕ) → a * b < usize_mod → safe_mul a b ≡ ok (a * b)
unfolding safe_mul
safe_mul_lem a b h = ground arith

-- One byte further.
pow_byte : (k n : ℕ) → n ≡ suc k * 8 → 2 ^ n ≡ 2 ^ (k * 8) * 2 ^ 8
pow_byte k n e =
    let same : n ≡ suc (suc (suc (suc (suc (suc (suc (suc (k * 8)))))))) = omega arith in
    rw (same, pow-suc) (omega arith)

placed : (p b v val : ℕ) → val + b * p + p * 2 ^ 8 * v ≡ val + p * (b + 2 ^ 8 * v)
placed p b v val = grind arith

placed-lt : (p b val : ℕ) → val < p → b < 2 ^ 8 → val + b * p < p * 2 ^ 8
placed-lt p b val lt small = grind arith

pub read_bytes_lem :
    (bytes bs rest : List ℕ) (at pad i val : ℕ)
    → length bytes < usize_mod
    → drop (at + i) bytes ≡ bs ++ rest
    → All (λ b. b < 2 ^ 8) bs
    → val < 2 ^ ((pad + i) * 8)
    → pad + i + length bs ≤ 8
    → read_bytes bytes at pad (length bs) i val ≡ ok (val + 2 ^ ((pad + i) * 8) * value_of bs)
unfolding read_bytes
read_bytes_lem bytes [] rest at pad i val short h small lt few =
    let none_left : val + 2 ^ ((pad + i) * 8) * 0 ≡ val = omega arith in rw none_left refl
read_bytes_lem bytes (b ∷ bs) rest at pad i val short h small lt few =
    let within = drop-within (at + i) bytes h in
    let next : drop (at + (i + 1)) bytes ≡ bs ++ rest =
      let same : at + (i + 1) ≡ suc (at + i) = omega arith in rw same (drop-suc (at + i) bytes h) in
    let grown : 2 ^ ((pad + (i + 1)) * 8) ≡ 2 ^ ((pad + i) * 8) * 2 ^ 8 =
      pow_byte (pad + i) ((pad + (i + 1)) * 8) (omega arith) in
    let joined : bit_or val (b * 2 ^ ((pad + i) * 8)) ≡ val + b * 2 ^ ((pad + i) * 8) =
      bit_or-shifted ((pad + i) * 8) val b lt in
    rw
      (
        safe_add_lem at i (omega (arith, within)),
        pread_u8-drop bytes (at + i) h,
        safe_mul_lem (pad + i) 8 (omega arith),
        joined,
      )
      (rw (sym (placed (2 ^ ((pad + i) * 8)) b (value_of bs) val), sym grown)
        (read_bytes_lem bytes bs rest at pad (i + 1) (val + b * 2 ^ ((pad + i) * 8)) short next
          small.1 (rw grown (placed-lt (2 ^ ((pad + i) * 8)) b val lt small.0)) (omega arith)))

-- What holds at each width of one to eight bytes.
by_width {ℓ} :
    (P : ℕ → Type ℓ)
    → P 1
    → P 2
    → P 3
    → P 4
    → P 5
    → P 6
    → P 7
    → P 8
    → (size : ℕ) → 1 ≤ size
    → size ≤ 8
    → P size
by_width P a b c d e f g h zero one le = absurd (omega arith)
by_width P a b c d e f g h (suc zero) one le = a
by_width P a b c d e f g h (suc (suc zero)) one le = b
by_width P a b c d e f g h (suc (suc (suc zero))) one le = c
by_width P a b c d e f g h (suc (suc (suc (suc zero)))) one le = d
by_width P a b c d e f g h (suc (suc (suc (suc (suc zero))))) one le = e
by_width P a b c d e f g h (suc (suc (suc (suc (suc (suc zero)))))) one le = f
by_width P a b c d e f g h (suc (suc (suc (suc (suc (suc (suc zero))))))) one le = g
by_width P a b c d e f g h (suc (suc (suc (suc (suc (suc (suc (suc zero)))))))) one le = h
by_width P a b c d e f g h (suc (suc (suc (suc (suc (suc (suc (suc (suc n))))))))) one le =
    absurd (omega arith)

pub le_bytes_64-bytes : (v : ℕ) → All (λ b. b < 2 ^ 8) (le_bytes_64 v)
le_bytes_64-bytes v = (
  omega arith,
  (
    omega arith,
    (omega arith, (omega arith, (omega arith, (omega arith, (omega arith, (omega arith, tt)))))),
  ),
)

low_le_bytes-bytes : (v size : ℕ) → All (λ b. b < 2 ^ 8) (low_le_bytes v size)
unfolding low_le_bytes
low_le_bytes-bytes v size =
    All-take _ (if ltb size 8 then size else 8) (le_bytes_64 v) (le_bytes_64-bytes v)

pub length-low_le_bytes : (v size : ℕ) → 1 ≤ size → size ≤ 8 → length (low_le_bytes v size) ≡ size
unfolding low_le_bytes
length-low_le_bytes v =
    by_width (λ size. length (low_le_bytes v size) ≡ size) refl refl refl refl refl refl refl refl

-- What is written at a width makes up the number's low bits.
value_of-low_le_bytes :
    (v size : ℕ) → 1 ≤ size → size ≤ 8 → value_of (low_le_bytes v size) ≡ v % 2 ^ (size * 8)
unfolding low_le_bytes
value_of-low_le_bytes v =
    by_width (λ size. value_of (low_le_bytes v size) ≡ v % 2 ^ (size * 8)) (omega arith)
      (omega arith) (omega arith) (omega arith) (omega arith) (omega arith) (omega arith)
      (omega arith)

module _ (bytes rest : List ℕ) (at v size : ℕ) (one : 1 ≤ size) (le : size ≤ 8)
    (short : length bytes < usize_mod) (h : drop at bytes ≡ low_le_bytes v size ++ rest) where
  read_at : drop (at + 0) bytes ≡ low_le_bytes v size ++ rest
  read_at = let same : at + 0 ≡ at = omega arith in rw same h

  pub read_uint-low_le_bytes : read_uint bytes at size ≡ ok (v % 2 ^ (size * 8))
  unfolding read_uint
  read_uint-low_le_bytes =
      subst (λ n. read_bytes bytes at 0 n 0 0 ≡ ok (v % 2 ^ (size * 8)))
        (length-low_le_bytes v size one le)
        (read_bytes_lem bytes (low_le_bytes v size) rest at 0 0 0 short read_at
            (low_le_bytes-bytes v size) (omega arith)
            (omega (arith, length-low_le_bytes v size one le))
          ∙ ap ok (omega (arith, value_of-low_le_bytes v size one le)))

  pub read_int-low_le_bytes :
      read_int bytes at size ≡ ok (as_signed (size * 8) (v % 2 ^ (size * 8)))
  unfolding read_int read_uint
  read_int-low_le_bytes = rw read_uint-low_le_bytes refl

-- The sign is extended from the width that was written.
pub as_signed-low_bits :
    (z : ℤ) (size : ℕ)
    → magnitude z * 2 < 2 ^ (size * 8)
    → 1 ≤ size
    → size ≤ 8
    → as_signed (size * 8) (low_bits 64 z % 2 ^ (size * 8)) ≡ z
as_signed-low_bits z size fits one le =
    by_width
      (λ k. magnitude z * 2 < 2 ^ (k * 8) → as_signed (k * 8) (low_bits 64 z % 2 ^ (k * 8)) ≡ z)
      (ground arith) (ground arith) (ground arith) (ground arith) (ground arith) (ground arith)
      (ground arith) (ground arith) size one le fits
