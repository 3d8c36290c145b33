-- ===== src/Annotation/Primitive.antt =====
-- src/annotation.rs: `decode_primitive_encoded_value` and the reads of numbers of up to eight bytes.
use Prim.Native.Nat.{bit_or}
use droidsaw_dex.Prelude.{
  ℕ, zero, suc, ◌+◌, ◌-◌, ◌*◌, ◌/◌, ◌%◌, ◌^◌, not, Option, none, some, List, [], ◌∷◌, drop, ltb,
  ◌==◌, if◌then◌else◌,
}
use droidsaw_dex.Prelude.Int.{ℤ}
use droidsaw_dex.Prelude.Errors.{ok, err, ◌>>=◌, ◌>>◌}
use droidsaw_dex.Prelude.Words.{as_signed, u32_mod}
use droidsaw_dex.Decode.Reader.{
  Res, scroll_read, encoded_value_size, unknown_opcode, safe_add, safe_mul,
}
use droidsaw_dex.Annotation.Value.{
  EncodedValue, byte, short, int, long, char, float, double, string, type_of, field, method,
  enum_of, method_type, method_handle, null_value, boolean,
}

unfoldable pub first_byte : List ℕ → ℕ → Res ℕ
first_byte [] off = err (scroll_read off)
first_byte (b ∷ bytes) off = ok b

-- `data.pread_with::<u8>(off, LE)`
unfoldable pub pread_u8 : List ℕ → ℕ → Res ℕ
unfolding first_byte
pread_u8 bytes off = first_byte (drop off bytes) off

-- The loop over the bytes `i`, .., `i + n - 1` at `at`. Byte `i` goes to bit `(pad + i) * 8`.
unfoldable pub read_bytes : List ℕ → ℕ → ℕ → ℕ → ℕ → ℕ → Res ℕ
read_bytes bytes at pad zero i val = ok val
read_bytes bytes at pad (suc n) i val = do
  p ← safe_add at i
  b ← pread_u8 bytes p
  shift_bits ← safe_mul (pad + i) 8
  read_bytes bytes at pad n (i + 1) (bit_or val (b * 2 ^ shift_bits))

-- The two shifts at the end of the source's loop extend the sign of the `size * 8` bits.
unfoldable pub read_int : List ℕ → ℕ → ℕ → Res ℤ
unfolding read_bytes
read_int bytes at size = do val ← read_bytes bytes at 0 size 0 0; ok (as_signed (size * 8) val)

unfoldable pub read_uint : List ℕ → ℕ → ℕ → Res ℕ
unfolding read_bytes
read_uint bytes at size = read_bytes bytes at 0 size 0 0

unfoldable pub read_uint_right_extend : List ℕ → ℕ → ℕ → Res ℕ
unfolding read_bytes
read_uint_right_extend bytes at size = read_bytes bytes at (8 - size) size 0 0

unfoldable pub check_value_arg_size : ℕ → ℕ → Res (Unit {0})
check_value_arg_size size max = if ltb max size then err (encoded_value_size size) else ok tt

-- The arms of the match on `value_type`.
pub data ValueType : Type 0 where
  vt_byte vt_short vt_char vt_int vt_long vt_float vt_double vt_method_type vt_method_handle :
      ValueType
  vt_string vt_type vt_field vt_method vt_enum vt_composite vt_null vt_boolean : ValueType
  vt_other : ℕ → ValueType

unfoldable pub value_type_of : ℕ → ValueType
value_type_of t =
    if t == 0x00
    then vt_byte
    else if t == 0x02
    then vt_short
    else if t == 0x03
    then vt_char
    else if t == 0x04
    then vt_int
    else if t == 0x06
    then vt_long
    else if t == 0x10
    then vt_float
    else if t == 0x11
    then vt_double
    else if t == 0x15
    then vt_method_type
    else if t == 0x16
    then vt_method_handle
    else if t == 0x17
    then vt_string
    else if t == 0x18
    then vt_type
    else if t == 0x19
    then vt_field
    else if t == 0x1a
    then vt_method
    else if t == 0x1b
    then vt_enum
    else if t == 0x1c
    then vt_composite
    else if t == 0x1d
    then vt_composite
    else if t == 0x1e
    then vt_null
    else if t == 0x1f
    then vt_boolean
    else vt_other t

-- A header byte and `size` bytes more.
unfoldable pub finish : EncodedValue → ℕ → Res (Option EncodedValue × ℕ)
finish v size = do total ← safe_add 1 size; ok (some v, total)

-- An unsigned number of at most `max` bytes; an index has at most four.
unfoldable pub read_unsigned :
    (ℕ → EncodedValue) → ℕ → List ℕ → ℕ → ℕ → Res (Option EncodedValue × ℕ)
read_unsigned make max bytes at size = do
  check_value_arg_size size max
  v ← read_uint bytes at size
  finish (make v) size

-- A signed number of at most `max` bytes.
unfoldable pub read_signed : (ℤ → EncodedValue) → ℕ → List ℕ → ℕ → ℕ → Res (Option EncodedValue × ℕ)
read_signed make max bytes at size = do
  check_value_arg_size size max
  z ← read_int bytes at size
  finish (make z) size

-- `size` is `value_arg + 1`, so that a `value_arg` other than 0 is a `size` other than 1.
unfoldable pub decode_arm : ValueType → List ℕ → ℕ → ℕ → ℕ → Res (Option EncodedValue × ℕ)
decode_arm vt_byte bytes at size pos = read_signed byte 1 bytes at size
decode_arm vt_short bytes at size pos = read_signed short 2 bytes at size
decode_arm vt_char bytes at size pos = read_unsigned char 2 bytes at size
decode_arm vt_int bytes at size pos = read_signed int 4 bytes at size
decode_arm vt_long bytes at size pos = do z ← read_int bytes at size; finish (long z) size
decode_arm vt_float bytes at size pos = do
  check_value_arg_size size 4
  v ← read_uint_right_extend bytes at size
  finish (float (v / 2 ^ 32 % u32_mod)) size
decode_arm vt_double bytes at size pos = do
  v ← read_uint_right_extend bytes at size
  finish (double v) size
decode_arm vt_method_type bytes at size pos = read_unsigned method_type 4 bytes at size
decode_arm vt_method_handle bytes at size pos = read_unsigned method_handle 4 bytes at size
decode_arm vt_string bytes at size pos = read_unsigned string 4 bytes at size
decode_arm vt_type bytes at size pos = read_unsigned type_of 4 bytes at size
decode_arm vt_field bytes at size pos = read_unsigned field 4 bytes at size
decode_arm vt_method bytes at size pos = read_unsigned method 4 bytes at size
decode_arm vt_enum bytes at size pos = read_unsigned enum_of 4 bytes at size
decode_arm vt_composite bytes at size pos = ok (none, 0)
decode_arm vt_null bytes at size pos = ok (some null_value, 1)
decode_arm vt_boolean bytes at size pos = ok (some (boolean (not (size == 1))), 1)
decode_arm (vt_other t) bytes at size pos = err (unknown_opcode t (pos % u32_mod))

unfoldable pub decode_primitive_encoded_value : List ℕ → ℕ → Res (Option EncodedValue × ℕ)
decode_primitive_encoded_value bytes pos = do
  header ← pread_u8 bytes pos
  size ← safe_add (header / 2 ^ 5) 1
  after_hdr ← safe_add pos 1
  decode_arm (value_type_of (header % 2 ^ 5)) bytes after_hdr size pos
