-- ===== src/Annotation/Advances.antt =====
-- Every value that is decoded was at a byte of the input and takes a byte at least.
use droidsaw_dex.Prelude.{
  ℕ, ◌%◌, ◌/◌, ◌^◌, ◌≤◌, ◌<◌, ◌≡◌, refl, arith, Option, none, some, List, [], ◌∷◌, length, drop,
}
use droidsaw_dex.Prelude.Int.{ℤ}
use droidsaw_dex.Prelude.Errors.{IfOk, IfOk-bind, IfOk-then, IfOk-map}
use droidsaw_dex.Prelude.Positions.{drop-within}
use droidsaw_dex.Decode.Reader.{safe_add}
use droidsaw_dex.Debug.Rounds.{safe_add-IfOk}
use droidsaw_dex.Annotation.Value.{EncodedValue}
use droidsaw_dex.Annotation.Primitive.{
  ValueType, vt_byte, vt_short, vt_char, vt_int, vt_long, vt_float, vt_double, vt_method_type,
  vt_method_handle, vt_string, vt_type, vt_field, vt_method, vt_enum, vt_composite, vt_null,
  vt_boolean, vt_other, first_byte, pread_u8, read_int, read_uint, read_uint_right_extend,
  check_value_arg_size, finish, read_signed, read_unsigned, decode_arm, value_type_of,
  decode_primitive_encoded_value,
}

first_byte-within :
    (bytes rest : List ℕ) (at : ℕ)
    → drop at bytes ≡ rest
    → IfOk (λ b. at < length bytes) (first_byte rest at)
unfolding first_byte
first_byte-within bytes [] at h = tt
first_byte-within bytes (b ∷ rest) at h = omega (arith, drop-within at bytes h)

pread_u8-within : (bytes : List ℕ) (at : ℕ) → IfOk (λ b. at < length bytes) (pread_u8 bytes at)
unfolding pread_u8
pread_u8-within bytes at = first_byte-within bytes (drop at bytes) at refl

-- A value that is decoded takes a byte at least.
abbrev pub Advances : Option EncodedValue × ℕ → Type 0
Advances (none, advance) = Unit
Advances (some v, advance) = 1 ≤ advance

finish-Advances : (v : EncodedValue) (size : ℕ) → IfOk Advances (finish v size)
unfolding finish
finish-Advances v size =
    IfOk-bind _ Advances (safe_add 1 size) _ (safe_add-IfOk 1 size) λ n k. omega arith

read_signed-Advances :
    (make : ℤ → EncodedValue) (max : ℕ) (bytes : List ℕ) (at size : ℕ)
    → IfOk Advances (read_signed make max bytes at size)
unfolding read_signed
read_signed-Advances make max bytes at size =
    IfOk-then Advances (check_value_arg_size size max) _
      λ u. IfOk-then Advances (read_int bytes at size) _ λ z. finish-Advances (make z) size

read_unsigned-Advances :
    (make : ℕ → EncodedValue) (max : ℕ) (bytes : List ℕ) (at size : ℕ)
    → IfOk Advances (read_unsigned make max bytes at size)
unfolding read_unsigned
read_unsigned-Advances make max bytes at size =
    IfOk-then Advances (check_value_arg_size size max) _
      λ u. IfOk-then Advances (read_uint bytes at size) _ λ v. finish-Advances (make v) size

module _ (bytes : List ℕ) where
  decode_arm-Advances :
      (kind : ValueType) (at size off : ℕ) → IfOk Advances (decode_arm kind bytes at size off)
  unfolding decode_arm
  decode_arm-Advances vt_byte at size off = read_signed-Advances _ 1 bytes at size
  decode_arm-Advances vt_short at size off = read_signed-Advances _ 2 bytes at size
  decode_arm-Advances vt_char at size off = read_unsigned-Advances _ 2 bytes at size
  decode_arm-Advances vt_int at size off = read_signed-Advances _ 4 bytes at size
  decode_arm-Advances vt_long at size off =
      IfOk-then Advances (read_int bytes at size) _ λ z. finish-Advances _ size
  decode_arm-Advances vt_float at size off =
      IfOk-then Advances (check_value_arg_size size 4) _
        λ u. IfOk-then Advances (read_uint_right_extend bytes at size) _ λ v. finish-Advances _ size
  decode_arm-Advances vt_double at size off =
      IfOk-then Advances (read_uint_right_extend bytes at size) _ λ v. finish-Advances _ size
  decode_arm-Advances vt_method_type at size off = read_unsigned-Advances _ 4 bytes at size
  decode_arm-Advances vt_method_handle at size off = read_unsigned-Advances _ 4 bytes at size
  decode_arm-Advances vt_string at size off = read_unsigned-Advances _ 4 bytes at size
  decode_arm-Advances vt_type at size off = read_unsigned-Advances _ 4 bytes at size
  decode_arm-Advances vt_field at size off = read_unsigned-Advances _ 4 bytes at size
  decode_arm-Advances vt_method at size off = read_unsigned-Advances _ 4 bytes at size
  decode_arm-Advances vt_enum at size off = read_unsigned-Advances _ 4 bytes at size
  decode_arm-Advances vt_composite at size off = tt
  decode_arm-Advances vt_null at size off = omega arith
  decode_arm-Advances vt_boolean at size off = omega arith
  decode_arm-Advances (vt_other t) at size off = tt

  pub decode-Advances :
      (at : ℕ)
      → IfOk (λ d. (at < length bytes) × Advances d) (decode_primitive_encoded_value bytes at)
  unfolding decode_primitive_encoded_value
  decode-Advances at = IfOk-bind _ _ (pread_u8 bytes at) _ (pread_u8-within bytes at) λ header k.
      IfOk-then _ (safe_add (header / 2 ^ 5) 1) _ λ size. IfOk-then _ (safe_add at 1) _ λ after.
        IfOk-map Advances _ _ (λ d a. (k, a))
          (decode_arm-Advances (value_type_of (header % 2 ^ 5)) after size at)
