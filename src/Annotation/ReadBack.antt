-- ===== src/Annotation/ReadBack.antt =====
-- src/annotation.rs: the arms for numbers, where a header byte and a number of some width were
-- emitted.
use Prim.Native.Nat.{bit_or}
use native.Mathlib.Nat.{mod-eq_of_lt}
use droidsaw_dex.Prelude.{
  ℕ, suc, ◌+◌, ◌-◌, ◌*◌, ◌/◌, ◌%◌, ◌^◌, ◌≤◌, ◌<◌, ◌≡◌, refl, ap, arith, some, List, ◌∷◌, ◌++◌,
  length, drop,
}
use droidsaw_dex.Prelude.Int.{ℤ}
use droidsaw_dex.Prelude.Errors.{ok}
use droidsaw_dex.Prelude.Bits.{bit_or-shifted}
use droidsaw_dex.Prelude.Words.{low_bits, usize_mod}
use droidsaw_dex.Prelude.Positions.{drop-suc, drop-within}
use droidsaw_dex.Annotation.Value.{EncodedValue}
use droidsaw_dex.Annotation.Primitive.{
  check_value_arg_size, finish, read_unsigned, read_signed, decode_arm, value_type_of,
  decode_primitive_encoded_value,
}
use droidsaw_dex.Annotation.Numbers.{
  pread_u8-drop, safe_add_lem, length-low_le_bytes, read_uint-low_le_bytes, read_int-low_le_bytes,
  as_signed-low_bits,
}
use droidsaw_dex.Emit.Value.{
  magnitude, low_le_bytes, sized, sized_signed, sized_unsigned, min_signed_bytes,
  min_unsigned_bytes,
}
use droidsaw_dex.Emit.Value.Widths.{
  min_signed_bytes-Holds, min_signed_bytes-le, min_unsigned_bytes-Holds, min_unsigned_bytes-le,
}

pub check_value_arg_size_lem : (size max : ℕ) → size ≤ max → check_value_arg_size size max ≡ ok tt
unfolding check_value_arg_size
check_value_arg_size_lem size max le = ground arith

pub finish_lem : (v : EncodedValue) (size : ℕ) → size ≤ 8 → finish v size ≡ ok (some v, suc size)
unfolding finish
finish_lem v size le =
    rw (safe_add_lem 1 size (omega arith)) (ap (λ n. ok (some v, n)) (omega arith))

module _ (bytes rest : List ℕ) (short_input : length bytes < usize_mod) where
  pub decode_header :
      (off tag size : ℕ)
      → 1 ≤ size
      → size ≤ 8
      → tag < 2 ^ 5
      → (behind : List ℕ) → drop off bytes ≡ bit_or tag ((size - 1) * 2 ^ 5) ∷ behind
      → decode_primitive_encoded_value bytes off
        ≡ decode_arm (value_type_of tag) bytes (suc off) size off
  unfolding decode_primitive_encoded_value
  decode_header off tag size one le small behind h =
      let header = bit_or tag ((size - 1) * 2 ^ 5) in
      let joined : header ≡ tag + (size - 1) * 2 ^ 5 = bit_or-shifted 5 tag (size - 1) small in
      let high : header / 2 ^ 5 + 1 ≡ size = rw joined (omega arith) in
      let low : header % 2 ^ 5 ≡ tag = rw joined (omega arith) in
      let past : off + 1 ≡ suc off = omega arith in
      rw
        (
          pread_u8-drop bytes off h,
          safe_add_lem (header / 2 ^ 5) 1 (rw high (omega arith)),
          safe_add_lem off 1 (omega (arith, drop-within off bytes h)),
          high,
          low,
          past,
        )
        refl

  pub read_signed_lem :
      (make : ℤ → EncodedValue) (max at size : ℕ) (z : ℤ)
      → 1 ≤ size
      → size ≤ 8
      → size ≤ max
      → magnitude z * 2 < 2 ^ (size * 8)
      → drop at bytes ≡ low_le_bytes (low_bits 64 z) size ++ rest
      → read_signed make max bytes at size ≡ ok (some (make z), suc size)
  unfolding read_signed
  read_signed_lem make max at size z one le few fits h =
      rw
        (
          check_value_arg_size_lem size max few,
          read_int-low_le_bytes bytes rest at (low_bits 64 z) size one le short_input h,
          as_signed-low_bits z size fits one le,
        )
        (finish_lem (make z) size le)

  read_unsigned_lem :
      (make : ℕ → EncodedValue) (max at size v : ℕ)
      → 1 ≤ size
      → size ≤ 8
      → size ≤ max
      → v < 2 ^ (size * 8)
      → drop at bytes ≡ low_le_bytes v size ++ rest
      → read_unsigned make max bytes at size ≡ ok (some (make v), suc size)
  unfolding read_unsigned
  read_unsigned_lem make max at size v one le few fits h =
      let whole : v % 2 ^ (size * 8) ≡ v = mod-eq_of_lt fits in
      rw
        (
          check_value_arg_size_lem size max few,
          read_uint-low_le_bytes bytes rest at v size one le short_input h,
          whole,
        )
        (finish_lem (make v) size le)

  module _ (at : ℕ) where
    decode_sized :
        (tag v size : ℕ)
        → 1 ≤ size
        → size ≤ 8
        → tag < 2 ^ 5
        → drop at bytes ≡ sized tag v size ++ rest
        → (decode_primitive_encoded_value bytes at
            ≡ decode_arm (value_type_of tag) bytes (suc at) size at)
          × (drop (suc at) bytes ≡ low_le_bytes v size ++ rest)
    unfolding sized
    decode_sized tag v size one le small h = (
      decode_header at tag size one le small (low_le_bytes v size ++ rest) h,
      drop-suc at bytes h,
    )

    pub read_sized_signed :
        (make : ℤ → EncodedValue) (tag max : ℕ) (z : ℤ)
        → max ≤ 8
        → 1 ≤ max
        → tag < 2 ^ 5
        → ((at' size : ℕ)
            → size ≤ max
            → decode_arm (value_type_of tag) bytes at' size at
              ≡ read_signed make max bytes at' size)
        → magnitude z * 2 < 2 ^ (max * 8)
        → magnitude z < 2 ^ 63
        → drop at bytes ≡ sized_signed tag z ++ rest
        → decode_primitive_encoded_value bytes at ≡ ok (some (make z), length (sized_signed tag z))
    unfolding sized_signed
    read_sized_signed make tag max z most one small arm fits whole h =
        let size = min_signed_bytes z in
        let holds = min_signed_bytes-Holds z whole in
        let split = decode_sized tag (low_bits 64 z) size holds.0 holds.1 small h in
        let few = min_signed_bytes-le z max one fits in
        rw
          (split.0, arm (suc at) size few, length-low_le_bytes (low_bits 64 z) size holds.0 holds.1)
          (read_signed_lem make max (suc at) size z holds.0 holds.1 few holds.2 split.1)

    pub read_sized_unsigned :
        (make : ℕ → EncodedValue) (tag max v : ℕ)
        → max ≤ 8
        → 1 ≤ max
        → tag < 2 ^ 5
        → ((at' size : ℕ)
            → decode_arm (value_type_of tag) bytes at' size at
              ≡ read_unsigned make max bytes at' size)
        → v < 2 ^ (max * 8)
        → v < 2 ^ 64
        → drop at bytes ≡ sized_unsigned tag v ++ rest
        → decode_primitive_encoded_value bytes at
          ≡ ok (some (make v), length (sized_unsigned tag v))
    unfolding sized_unsigned
    read_sized_unsigned make tag max v most one small arm fits whole h =
        let size = min_unsigned_bytes v in
        let holds = min_unsigned_bytes-Holds v whole in
        let split = decode_sized tag v size holds.0 holds.1 small h in
        rw (split.0, arm (suc at) size, length-low_le_bytes v size holds.0 holds.1)
          (read_unsigned_lem make max (suc at) size v holds.0 holds.1
            (min_unsigned_bytes-le v max one fits) holds.2 split.1)
