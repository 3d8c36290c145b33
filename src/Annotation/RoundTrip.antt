-- ===== src/Annotation/RoundTrip.antt =====
-- src/annotation.rs: what is decoded where a value that holds no others was emitted.
use native.Mathlib.Nat.{one-le-pow}
use droidsaw_dex.Prelude.{
  ℕ, suc, ◌+◌, ◌-◌, ◌*◌, ◌/◌, ◌%◌, ◌^◌, ◌≤◌, ◌<◌, ◌≡◌, refl, sym, ap, ◌∙◌, arith, Bool, true, false,
  All, some, List, [], ◌∷◌, ◌++◌, length, drop,
}
use droidsaw_dex.Prelude.Int.{ℤ}
use droidsaw_dex.Prelude.Errors.{ok}
use droidsaw_dex.Prelude.Words.{low_bits, u16_mod, u32_mod, usize_mod}
use droidsaw_dex.Prelude.Positions.{drop-suc}
use droidsaw_dex.Annotation.Value.{
  EncodedValue, byte, short, int, long, char, float, double, string, type_of, field, method,
  enum_of, method_type, method_handle, null_value, boolean, array, annotation,
}
use droidsaw_dex.Annotation.Primitive.{
  read_signed, read_uint_right_extend, decode_arm, value_type_of, decode_primitive_encoded_value,
}
use droidsaw_dex.Annotation.Numbers.{value_of, read_bytes_lem, le_bytes_64-bytes}
use droidsaw_dex.Emit.Payload.{le_bytes}
use droidsaw_dex.Emit.Value.{le_bytes_64, magnitude, low_le_bytes, primitive_bytes}
use droidsaw_dex.Annotation.ReadBack.{
  check_value_arg_size_lem, finish_lem, read_signed_lem, read_sized_signed, read_sized_unsigned,
  decode_header,
}

module _ (bytes rest : List ℕ) (short_input : length bytes < usize_mod) (at : ℕ) where
  read_right_extended :
      (bs : List ℕ)
      → length bs ≤ 8
      → All (λ b. b < 2 ^ 8) bs
      → drop (suc at) bytes ≡ bs ++ rest
      → read_uint_right_extend bytes (suc at) (length bs)
        ≡ ok (2 ^ ((8 - length bs) * 8) * value_of bs)
  unfolding read_uint_right_extend
  read_right_extended bs le small h =
      let start : drop (suc at + 0) bytes ≡ bs ++ rest =
        let same : suc at + 0 ≡ suc at = omega arith in rw same h in
      let pad : 8 - length bs + 0 ≡ 8 - length bs = omega arith in
      read_bytes_lem bytes bs rest (suc at) (8 - length bs) 0 0 short_input start small
        (one-le-pow ((8 - length bs + 0) * 8) 2 (omega arith)) (omega arith)
      ∙ rw pad (ap ok (omega arith))

  read_double :
      (d : ℕ)
      → d < 2 ^ 64
      → drop at bytes ≡ primitive_bytes (double d) ++ rest
      → decode_primitive_encoded_value bytes at ≡ ok (some (double d), 9)
  unfolding primitive_bytes decode_arm value_type_of
  read_double d lt h =
      let d_bytes =
        read_right_extended (le_bytes_64 d) (omega arith) (le_bytes_64-bytes d)
          (drop-suc at bytes h) in
      let whole : 2 ^ 0 * value_of (le_bytes_64 d) ≡ d = omega arith in
      rw
        (
          decode_header bytes rest short_input at 0x11 8 (omega arith) (omega arith) (omega arith)
              (le_bytes_64 d ++ rest) h,
          d_bytes,
          whole,
        )
        (finish_lem (double d) 8 (omega arith))

  read_float :
      (f : ℕ)
      → f < u32_mod
      → drop at bytes ≡ primitive_bytes (float f) ++ rest
      → decode_primitive_encoded_value bytes at ≡ ok (some (float f), 5)
  unfolding primitive_bytes decode_arm value_type_of
  read_float f lt h =
      let f_bytes =
        read_right_extended (le_bytes f) (omega arith)
          (omega arith, (omega arith, (omega arith, (omega arith, tt)))) (drop-suc at bytes h) in
      let high : 2 ^ 32 * value_of (le_bytes f) / 2 ^ 32 % u32_mod ≡ f = omega arith in
      rw
        (
          decode_header bytes rest short_input at 0x10 4 (omega arith) (omega arith) (omega arith)
              (le_bytes f ++ rest) h,
          check_value_arg_size_lem 4 4 (omega arith),
          f_bytes,
          high,
        )
        (finish_lem (float f) 4 (omega arith))

  read_byte :
      (b : ℤ)
      → magnitude b < 2 ^ 7
      → drop at bytes ≡ primitive_bytes (byte b) ++ rest
      → decode_primitive_encoded_value bytes at ≡ ok (some (byte b), 2)
  unfolding primitive_bytes decode_arm value_type_of low_le_bytes
  read_byte b lt h =
      let one_byte : low_le_bytes (low_bits 64 b) 1 ≡ low_bits 8 b ∷ [] =
        ap (λ n. n ∷ []) (ground arith) in
      rw
        (decode_header bytes rest short_input at 0x00 1 (omega arith) (omega arith) (omega arith)
          (low_bits 8 b ∷ rest) h)
        (read_signed_lem bytes rest short_input byte 1 (suc at) 1 b (omega arith) (omega arith)
          (omega arith) (omega arith) (drop-suc at bytes h ∙ ap (λ bs. bs ++ rest) (sym one_byte)))

  read_boolean :
      (b : Bool)
      → drop at bytes ≡ primitive_bytes (boolean b) ++ rest
      → decode_primitive_encoded_value bytes at ≡ ok (some (boolean b), 1)
  unfolding primitive_bytes decode_arm value_type_of
  read_boolean true h =
      decode_header bytes rest short_input at 0x1f 2 (omega arith) (omega arith) (omega arith) rest
        h
  read_boolean false h =
      decode_header bytes rest short_input at 0x1f 1 (omega arith) (omega arith) (omega arith) rest
        h

-- A size of a long is never too large.
read_signed-unchecked :
    (bytes : List ℕ) (at size off : ℕ)
    → size ≤ 8
    → decode_arm (value_type_of 0x06) bytes at size off ≡ read_signed long 8 bytes at size
unfolding read_signed decode_arm value_type_of
read_signed-unchecked bytes at size off few = rw (check_value_arg_size_lem size 8 few) refl

-- A value that holds no others, with a content that fits its machine type.
abbrev pub IsPrimitive : EncodedValue → Type 0
IsPrimitive (byte b) = magnitude b < 2 ^ 7
IsPrimitive (short s) = magnitude s < 2 ^ 15
IsPrimitive (char c) = c < u16_mod
IsPrimitive (int i) = magnitude i < 2 ^ 31
IsPrimitive (long l) = magnitude l < 2 ^ 63
IsPrimitive (float f) = f < u32_mod
IsPrimitive (double d) = d < 2 ^ 64
IsPrimitive (string s) = s < u32_mod
IsPrimitive (type_of t) = t < u32_mod
IsPrimitive (field f) = f < u32_mod
IsPrimitive (method m) = m < u32_mod
IsPrimitive (enum_of f) = f < u32_mod
IsPrimitive (method_type p) = p < u32_mod
IsPrimitive (method_handle h) = h < u32_mod
IsPrimitive null_value = Unit
IsPrimitive (boolean b) = Unit
IsPrimitive (array vs) = ⊥
IsPrimitive (annotation t es) = ⊥

-- The bytes of a value that holds no others, wherever they stand in an input, are decoded to that
-- value and to their count.
pub decode_primitive_encoded_value-primitive_bytes :
    (v : EncodedValue) (bytes rest : List ℕ) (at : ℕ)
    → IsPrimitive v
    → length bytes < usize_mod
    → drop at bytes ≡ primitive_bytes v ++ rest
    → decode_primitive_encoded_value bytes at ≡ ok (some v, length (primitive_bytes v))
unfolding primitive_bytes decode_arm value_type_of
decode_primitive_encoded_value-primitive_bytes (byte b) bytes rest at fits n h =
    read_byte bytes rest n at b fits h
decode_primitive_encoded_value-primitive_bytes (short s) bytes rest at fits n h =
    read_sized_signed bytes rest n at short 0x02 2 s (omega arith) (omega arith) (omega arith)
      (λ at' size few. refl) (omega arith) (omega arith) h
decode_primitive_encoded_value-primitive_bytes (char c) bytes rest at fits n h =
    read_sized_unsigned bytes rest n at char 0x03 2 c (omega arith) (omega arith) (omega arith)
      (λ at' size. refl) (omega arith) (omega arith) h
decode_primitive_encoded_value-primitive_bytes (int i) bytes rest at fits n h =
    read_sized_signed bytes rest n at int 0x04 4 i (omega arith) (omega arith) (omega arith)
      (λ at' size few. refl) (omega arith) (omega arith) h
decode_primitive_encoded_value-primitive_bytes (long l) bytes rest at fits n h =
    read_sized_signed bytes rest n at long 0x06 8 l (omega arith) (omega arith) (omega arith)
      (λ at' size few. read_signed-unchecked bytes at' size at few) (omega arith) fits h
decode_primitive_encoded_value-primitive_bytes (float f) bytes rest at fits n h =
    read_float bytes rest n at f fits h
decode_primitive_encoded_value-primitive_bytes (double d) bytes rest at fits n h =
    read_double bytes rest n at d fits h
decode_primitive_encoded_value-primitive_bytes (string s) bytes rest at fits n h =
    read_sized_unsigned bytes rest n at string 0x17 4 s (omega arith) (omega arith) (omega arith)
      (λ at' size. refl) (omega arith) (omega arith) h
decode_primitive_encoded_value-primitive_bytes (type_of t) bytes rest at fits n h =
    read_sized_unsigned bytes rest n at type_of 0x18 4 t (omega arith) (omega arith) (omega arith)
      (λ at' size. refl) (omega arith) (omega arith) h
decode_primitive_encoded_value-primitive_bytes (field f) bytes rest at fits n h =
    read_sized_unsigned bytes rest n at field 0x19 4 f (omega arith) (omega arith) (omega arith)
      (λ at' size. refl) (omega arith) (omega arith) h
decode_primitive_encoded_value-primitive_bytes (method m) bytes rest at fits n h =
    read_sized_unsigned bytes rest n at method 0x1a 4 m (omega arith) (omega arith) (omega arith)
      (λ at' size. refl) (omega arith) (omega arith) h
decode_primitive_encoded_value-primitive_bytes (enum_of f) bytes rest at fits n h =
    read_sized_unsigned bytes rest n at enum_of 0x1b 4 f (omega arith) (omega arith) (omega arith)
      (λ at' size. refl) (omega arith) (omega arith) h
decode_primitive_encoded_value-primitive_bytes (method_type p) bytes rest at fits n h =
    read_sized_unsigned bytes rest n at method_type 0x15 4 p (omega arith) (omega arith)
      (omega arith) (λ at' size. refl) (omega arith) (omega arith) h
decode_primitive_encoded_value-primitive_bytes (method_handle k) bytes rest at fits n h =
    read_sized_unsigned bytes rest n at method_handle 0x16 4 k (omega arith) (omega arith)
      (omega arith) (λ at' size. refl) (omega arith) (omega arith) h
decode_primitive_encoded_value-primitive_bytes null_value bytes rest at fits n h =
    decode_header bytes rest n at 0x1e 1 (omega arith) (omega arith) (omega arith) rest h
decode_primitive_encoded_value-primitive_bytes (boolean b) bytes rest at fits n h =
    read_boolean bytes rest n at b h
decode_primitive_encoded_value-primitive_bytes (array vs) bytes rest at fits n h = absurd fits
decode_primitive_encoded_value-primitive_bytes (annotation t es) bytes rest at fits n h =
    absurd fits
