-- ===== src/Prelude/Words.antt =====
-- Machine words. A `w`-bit unsigned value is a native number below `2 ^ w`; a signed value is an
-- integer. `x >> k` is `x / 2 ^ k` and `x & (2 ^ k - 1)` is `x % 2 ^ k`.
use droidsaw_dex.Prelude.{ℕ, ◌-◌, ◌*◌, ◌%◌, ◌^◌, ◌<◌, ◌≡◌, arith, ltb, if◌then◌else◌}
use droidsaw_dex.Prelude.Int.{ℤ, pos, negsuc}

-- The integer that a `w`-bit pattern stands for in two's complement, as in `x as i8` for `w` 8.
abbrev pub as_signed : ℕ → ℕ → ℤ
as_signed w n = if ltb (n * 2) (2 ^ w) then pos n else negsuc (2 ^ w - n - 1)

-- The `w` low bits of an integer, as in `z as i8 as u8` for `w` 8.
abbrev pub low_bits : ℕ → ℤ → ℕ
low_bits w (pos n) = n % 2 ^ w
low_bits w (negsuc n) = 2 ^ w - 1 - n % 2 ^ w

-- `z as i32` for `w` 32: wrap into the signed range.
abbrev pub wrap_signed : ℕ → ℤ → ℤ
wrap_signed w z = as_signed w (low_bits w z)

abbrev pub i8_min : ℤ
i8_min = negsuc 127

abbrev pub i8_max : ℤ
i8_max = pos 127

abbrev pub i16_min : ℤ
i16_min = negsuc 0x7fff

abbrev pub i16_max : ℤ
i16_max = pos 0x7fff

abbrev pub i32_min : ℤ
i32_min = negsuc 0x7fff_ffff

abbrev pub i32_max : ℤ
i32_max = pos 0x7fff_ffff

abbrev pub u16_mod : ℕ
u16_mod = 0x1_0000

abbrev pub u32_mod : ℕ
u32_mod = 0x1_0000_0000

abbrev pub usize_mod : ℕ
usize_mod = 0x1_0000_0000_0000_0000

pub low_bits-as_signed_8 : (n : ℕ) → n < 0x100 → low_bits 8 (as_signed 8 n) ≡ n
low_bits-as_signed_8 n h = ground arith

pub low_bits-as_signed_16 : (n : ℕ) → n < u16_mod → low_bits 16 (as_signed 16 n) ≡ n
low_bits-as_signed_16 n h = ground arith

pub low_bits-as_signed_32 : (n : ℕ) → n < u32_mod → low_bits 32 (as_signed 32 n) ≡ n
low_bits-as_signed_32 n h = ground arith
