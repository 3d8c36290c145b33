-- ===== src/Emit/Value.antt =====
-- src/emit_dex.rs: the widths of encoded values and the bytes of those that hold no others.
pub mod Widths
pub mod Tasks
pub mod Spec
pub mod Refine
pub mod Room
use Prim.Native.Nat.{bit_or}
use droidsaw_dex.Prelude.{
  ℕ, zero, suc, ◌+◌, ◌-◌, ◌*◌, ◌/◌, ◌%◌, ◌^◌, Bool, true, false, List, [], ◌∷◌, ◌++◌, take, ltb,
  ◌==◌, if◌then◌else◌,
}
use droidsaw_dex.Prelude.Int.{ℤ, pos, negsuc}
use droidsaw_dex.Prelude.Words.{low_bits}
use droidsaw_dex.Emit.Payload.{le_bytes}
use droidsaw_dex.Annotation.Value.{
  EncodedValue, byte, short, int, long, char, float, double, string, type_of, field, method,
  enum_of, method_type, method_handle, null_value, boolean, array, annotation,
}

-- `64 - val.leading_zeros()`, by halving 64 times at most
unfoldable pub bit_length : ℕ → ℕ → ℕ
bit_length zero n = 0
bit_length (suc fuel) n = let rest = bit_length fuel (n / 2) in if n == 0 then 0 else suc rest

-- `bits.div_ceil(8).clamp(1, 8)`
unfoldable pub byte_count : ℕ → ℕ
byte_count bits =
    let bytes = (bits + 7) / 8 in if ltb bytes 1 then 1 else if ltb 8 bytes then 8 else bytes

-- `val` where it is not negative, and `!val` where it is
abbrev pub magnitude : ℤ → ℕ
magnitude (pos n) = n
magnitude (negsuc n) = n

unfoldable pub min_signed_bytes : ℤ → ℕ
min_signed_bytes val =
    if magnitude val == 0 then 1 else byte_count (bit_length 64 (magnitude val) + 1)

unfoldable pub min_unsigned_bytes : ℕ → ℕ
min_unsigned_bytes val = if val == 0 then 1 else byte_count (bit_length 64 val)

-- `val.to_le_bytes()` of a 64-bit pattern
abbrev pub le_bytes_64 : ℕ → List ℕ
le_bytes_64 v = le_bytes (v % 2 ^ 32) ++ le_bytes (v / 2 ^ 32)

-- What `write_le_bytes` appends.
unfoldable pub low_le_bytes : ℕ → ℕ → List ℕ
low_le_bytes val size = take (if ltb size 8 then size else 8) (le_bytes_64 val)

-- A header byte with the width, and the low bytes.
unfoldable pub sized : ℕ → ℕ → ℕ → List ℕ
sized tag val size = bit_or tag ((size - 1) * 2 ^ 5) ∷ low_le_bytes val size

unfoldable pub sized_signed : ℕ → ℤ → List ℕ
unfolding sized
sized_signed tag z = sized tag (low_bits 64 z) (min_signed_bytes z)

unfoldable pub sized_unsigned : ℕ → ℕ → List ℕ
unfolding sized
sized_unsigned tag n = sized tag n (min_unsigned_bytes n)

-- What is appended for a value that holds no others. An array and an annotation append more than
-- their header byte, which is here for the sake of a total function.
unfoldable pub primitive_bytes : EncodedValue → List ℕ
primitive_bytes (byte b) = 0x00 ∷ low_bits 8 b ∷ []
primitive_bytes (short s) = sized_signed 0x02 s
primitive_bytes (char c) = sized_unsigned 0x03 c
primitive_bytes (int i) = sized_signed 0x04 i
primitive_bytes (long l) = sized_signed 0x06 l
primitive_bytes (float f) = bit_or 0x10 (3 * 2 ^ 5) ∷ le_bytes f
primitive_bytes (double d) = bit_or 0x11 (7 * 2 ^ 5) ∷ le_bytes_64 d
primitive_bytes (string s) = sized_unsigned 0x17 s
primitive_bytes (type_of t) = sized_unsigned 0x18 t
primitive_bytes (field f) = sized_unsigned 0x19 f
primitive_bytes (method m) = sized_unsigned 0x1a m
primitive_bytes (enum_of f) = sized_unsigned 0x1b f
primitive_bytes (method_type p) = sized_unsigned 0x15 p
primitive_bytes (method_handle h) = sized_unsigned 0x16 h
primitive_bytes null_value = 0x1e ∷ []
primitive_bytes (boolean b) = bit_or 0x1f ((if b then 1 else 0) * 2 ^ 5) ∷ []
primitive_bytes (array vs) = 0x1c ∷ []
primitive_bytes (annotation t es) = 0x1d ∷ []
