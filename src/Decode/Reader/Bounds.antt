-- ===== src/Decode/Reader/Bounds.antt =====
-- Units read from bytes are below 2 ^ 16, and a read behind a prefix sees the rest.
use droidsaw_dex.Prelude.{
  ℕ, zero, suc, ◌+◌, ◌*◌, ◌^◌, ◌<◌, ◌≡◌, arith, List, [], ◌∷◌, ◌++◌, All, length, drop,
}
use droidsaw_dex.Prelude.Errors.{ok, err}
use droidsaw_dex.Prelude.Words.{u32_mod, usize_mod}
use droidsaw_dex.Decode.Reader.{Res, le_u16, pread_u16, read_unit, unit_offset}

abbrev pub IsByte : ℕ → Type 0
IsByte b = b < 2 ^ 8

-- The unit that was read; a unit that cannot be read counts as 0.
abbrev pub value : Res ℕ → ℕ
value (ok u) = u
value (err _) = 0

All-drop {ℓ} : {A : Type 0} (P : A → Type ℓ) (n : ℕ) (xs : List A) → All P xs → All P (drop n xs)
All-drop P zero xs h = h
All-drop P (suc n) [] h = h
All-drop P (suc n) (x ∷ xs) (_, h) = All-drop P n xs h

le_u16-lt : (bytes : List ℕ) (off : ℕ) → All IsByte bytes → value (le_u16 bytes off) < 2 ^ 16
unfolding le_u16
le_u16-lt [] off h = omega arith
le_u16-lt (b ∷ []) off h = omega arith
le_u16-lt (b ∷ c ∷ bytes) off h = omega arith

-- A code unit read from bytes has 16 bits.
pub read_unit-lt :
    (bytes : List ℕ) (insns_off pc i : ℕ)
    → All IsByte bytes
    → value (read_unit bytes insns_off pc i) < 2 ^ 16
unfolding read_unit unit_offset pread_u16
read_unit-lt bytes insns_off pc i h = ground (
  arith,
  le_u16-lt (drop (insns_off + (pc + i) * 2) bytes) (insns_off + (pc + i) * 2)
      (All-drop IsByte _ bytes h),
)

-- A unit can be read only where its offset does not overflow.
pub unit_offset-fits :
    (bytes : List ℕ) (insns_off pc i : ℕ) {u : ℕ}
    → read_unit bytes insns_off pc i ≡ ok u
    → (pc + i < u32_mod) × (insns_off + (pc + i) * 2 < usize_mod)
unfolding read_unit unit_offset
unit_offset-fits bytes insns_off pc i h = ground arith

pub drop-append :
    (pre rest : List ℕ) (n k : ℕ) → n ≡ length pre + k → drop n (pre ++ rest) ≡ drop k rest
drop-append [] rest n k e = let e' : n ≡ k = omega arith in λ i. drop (e' i) rest
drop-append (x ∷ pre) rest zero k e = absurd (omega arith)
drop-append (x ∷ pre) rest (suc n) k e = drop-append pre rest n k (omega arith)

-- Behind a prefix that ends where the instruction starts, unit `i` is read from the rest.
pub read_unit-append :
    (pre rest : List ℕ) (insns_off pc i : ℕ)
    → length pre ≡ insns_off + pc * 2
    → pc + i < u32_mod
    → insns_off + (pc + i) * 2 < usize_mod
    → read_unit (pre ++ rest) insns_off pc i ≡ le_u16 (drop (i * 2) rest) (insns_off + (pc + i) * 2)
unfolding read_unit unit_offset pread_u16
read_unit-append pre rest insns_off pc i e in_u32 in_usize =
    ground (arith, drop-append pre rest (insns_off + (pc + i) * 2) (i * 2) (omega arith))
