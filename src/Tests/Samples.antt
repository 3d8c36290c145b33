-- ===== src/Tests/Samples.antt =====
-- Concrete functions for what droidsaw_common provides: LEB128 numbers of up to five bytes.
use droidsaw_dex.Prelude.{
  ℕ, zero, suc, ◌+◌, ◌-◌, ◌*◌, ◌/◌, ◌%◌, ◌<◌, ◌≡◌, ap, ◌∙◌, arith, ◌⊎◌, inl, inr, Option, none,
  some, List, [], ◌∷◌, ◌++◌, length, drop, ltb, leb, le→leb, refl, if◌then◌else◌,
}
use droidsaw_dex.Prelude.Int.{ℤ}
use droidsaw_dex.Prelude.Errors.{ok, err}
use droidsaw_dex.Prelude.Words.{as_signed, u32_mod}
use droidsaw_dex.Decode.Reader.{bound_count_exceeded}
use droidsaw_dex.Decode.Reader.Bounds.{drop-append}
use droidsaw_dex.Decode.Payload.{BoundCount}
use droidsaw_dex.Leb.{Leb128, IsWriter}
use droidsaw_dex.Annotation.Walk.Opening.{IsBoundCount}

abbrev more_groups : ℕ → Option (ℕ × ℕ) → Option (ℕ × ℕ)
more_groups b none = none
more_groups b (some (v, n)) = some (b - 128 + 128 * v, suc n)

abbrev read_groups : ℕ → List ℕ → Option (ℕ × ℕ)
read_groups zero bytes = none
read_groups (suc f) [] = none
read_groups (suc f) (b ∷ bytes) =
    let rest = read_groups f bytes in if ltb b 128 then some (b, 1) else more_groups b rest

abbrev write_groups : ℕ → ℕ → List ℕ
write_groups zero v = []
write_groups (suc f) v =
    let rest = write_groups f (v / 128) in if ltb v 128 then v ∷ [] else (v % 128 + 128) ∷ rest

-- The number fits in this many groups of seven bits.
abbrev Fits : ℕ → ℕ → Type 0
Fits zero v = ⊥
Fits (suc f) v = (v < 128) ⊎ Fits f (v / 128)

read_groups-write_groups :
    (f v : ℕ) (rest : List ℕ)
    → Fits f v
    → read_groups f (write_groups f v ++ rest) ≡ some (v, length (write_groups f v))
read_groups-write_groups zero v rest h = absurd h
read_groups-write_groups (suc f) v rest h =
    ground (arith, read_groups-write_groups f (v / 128) rest)

u32-Fits : (v : ℕ) → v < u32_mod → Fits 5 v
u32-Fits v h = inr (inr (inr (inr (inl (omega arith)))))

abbrev u32_only : Option (ℕ × ℕ) → Option (ℕ × ℕ)
u32_only none = none
u32_only (some (v, n)) = if ltb v u32_mod then some (v, n) else none

u32_only-some : (v n : ℕ) → v < u32_mod → u32_only (some (v, n)) ≡ some (v, n)
u32_only-some v n h = ground arith

-- One byte is enough for the signed numbers in the tests.
abbrev signed_groups : List ℕ → Option (ℤ × ℕ)
signed_groups [] = none
signed_groups (b ∷ bytes) = some (as_signed 7 (b % 128), 1)

abbrev pub sample_leb128 : Leb128
sample_leb128 = record {
  uleb128 = λ bytes off. u32_only (read_groups 5 (drop off bytes));
  sleb128 = λ bytes off. signed_groups (drop off bytes);
  write_uleb128 = write_groups 5;
}

pub sample_leb128-IsWriter : IsWriter sample_leb128
sample_leb128-IsWriter = record {
  uleb128-write = λ pre rest v lt.
      rw (drop-append pre (write_groups 5 v ++ rest) (length pre) 0 (omega arith))
        (ap u32_only (read_groups-write_groups 5 v rest (u32-Fits v lt)) ∙ u32_only-some v _ lt);
}

-- A count whose items fit in the input passes.
abbrev pub sample_bound_count : BoundCount
sample_bound_count got stride data_len =
    if leb (got * stride) data_len then ok got else err bound_count_exceeded

pub sample_bound_count-IsBoundCount : IsBoundCount sample_bound_count
sample_bound_count-IsBoundCount = record {
  bound_count-fits = λ got stride data_len le. rw (le→leb (got * stride) data_len le) refl;
}
