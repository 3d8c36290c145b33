-- ===== src/Header/RoundTrip.antt =====
-- A header that is emitted is parsed to the fields it was emitted with.
use droidsaw_dex.Prelude.{
  ℕ, suc, ◌+◌, ◌*◌, ◌/◌, ◌%◌, ◌^◌, ◌<◌, ◌≤◌, ◌≡◌, refl, ap, arith, true, List, [], ◌∷◌, ◌++◌,
  length, length-append, take, drop, zero, le→leb,
}
use droidsaw_dex.Prelude.Errors.{ok}
use droidsaw_dex.Prelude.Words.{u32_mod}
use droidsaw_dex.Decode.Reader.{pread_u32, le_u32}
use droidsaw_dex.Decode.Reader.Bounds.{drop-append}
use droidsaw_dex.Emit.Payload.{le_bytes}
use droidsaw_dex.Emit.Header.{HeaderLayout, emit_sections}
use droidsaw_dex.Header.{
  DexHeader, get_range, validate_endian_tag, check_magic, slice_eq, any_eq, supported_versions,
  parse, parse_sections, dex_magic,
}

-- Every field of the layout is a u32.
pub record IsU32 (l : HeaderLayout) : Type 0 where
  pub file_size-lt : l.file_size < u32_mod
  pub map_off-lt : l.map_off < u32_mod
  pub string_ids_size-lt : l.string_ids_size < u32_mod
  pub string_ids_off-lt : l.string_ids_off < u32_mod
  pub type_ids_size-lt : l.type_ids_size < u32_mod
  pub type_ids_off-lt : l.type_ids_off < u32_mod
  pub proto_ids_size-lt : l.proto_ids_size < u32_mod
  pub proto_ids_off-lt : l.proto_ids_off < u32_mod
  pub field_ids_size-lt : l.field_ids_size < u32_mod
  pub field_ids_off-lt : l.field_ids_off < u32_mod
  pub method_ids_size-lt : l.method_ids_size < u32_mod
  pub method_ids_off-lt : l.method_ids_off < u32_mod
  pub class_defs_size-lt : l.class_defs_size < u32_mod
  pub class_defs_off-lt : l.class_defs_off < u32_mod
  pub data_size-lt : l.data_size < u32_mod
  pub data_off-lt : l.data_off < u32_mod

-- The four bytes of a u32 make it up.
abbrev joined : ℕ → ℕ
joined v =
    v % 2 ^ 8
    + v / 2 ^ 8 % 2 ^ 8 * 2 ^ 8
    + v / 2 ^ 16 % 2 ^ 8 * 2 ^ 16
    + v / 2 ^ 24 % 2 ^ 8 * 2 ^ 24

joined_lem : (v : ℕ) → v < u32_mod → joined v ≡ v
joined_lem v h = omega arith

-- The header that a layout stands for, with these two hashes.
abbrev pub parsed : HeaderLayout → ℕ → List ℕ → DexHeader
parsed l checksum signature = record {
  magic = dex_magic ++ (l.version ++ 0 ∷ []);
  checksum = checksum;
  signature = signature;
  header_size = 112;
  endian_tag = 0x1234_5678;
  link_size = 0;
  link_off = 0;
  file_size = l.file_size;
  map_off = l.map_off;
  string_ids_size = l.string_ids_size;
  string_ids_off = l.string_ids_off;
  type_ids_size = l.type_ids_size;
  type_ids_off = l.type_ids_off;
  proto_ids_size = l.proto_ids_size;
  proto_ids_off = l.proto_ids_off;
  field_ids_size = l.field_ids_size;
  field_ids_off = l.field_ids_off;
  method_ids_size = l.method_ids_size;
  method_ids_off = l.method_ids_off;
  class_defs_size = l.class_defs_size;
  class_defs_off = l.class_defs_off;
  data_size = l.data_size;
  data_off = l.data_off;
}

take-append : (n : ℕ) (xs ys : List ℕ) → n ≡ length xs → take n (xs ++ ys) ≡ xs
take-append zero [] ys e = refl
take-append zero (x ∷ xs) ys e = absurd (omega arith)
take-append (suc n) [] ys e = absurd (omega arith)
take-append (suc n) (x ∷ xs) ys e = ap (λ zs. x ∷ zs) (take-append n xs ys (omega arith))

-- The first 32 bytes.
abbrev pub head_bytes : List ℕ → ℕ → List ℕ → List ℕ
head_bytes version checksum signature =
    dex_magic ++ (version ++ (0 ∷ (le_bytes checksum ++ signature)))

length-sections :
    (l : HeaderLayout) (rest : List ℕ) → length (emit_sections l ++ rest) ≡ 80 + length rest
unfolding emit_sections
length-sections l rest = omega arith

module _ (l : HeaderLayout) (pre rest : List ℕ) (at : length pre ≡ 32) where
  read_field :
      (k n v : ℕ) (tail : List ℕ)
      → n ≡ 32 + k
      → v < u32_mod
      → drop k (emit_sections l ++ rest) ≡ le_bytes v ++ tail
      → pread_u32 (pre ++ (emit_sections l ++ rest)) n ≡ ok v
  unfolding pread_u32 le_u32
  read_field k n v tail e lt there =
      rw (drop-append pre (emit_sections l ++ rest) n k (omega (arith, at)), there)
        (ap ok (joined_lem v lt))

  file_size_read : IsU32 l → pread_u32 (pre ++ (emit_sections l ++ rest)) 32 ≡ ok l.file_size
  unfolding emit_sections
  file_size_read lt = read_field 0 32 l.file_size _ (omega arith) lt.file_size-lt refl

  size_read : pread_u32 (pre ++ (emit_sections l ++ rest)) 36 ≡ ok 112
  unfolding emit_sections
  size_read = read_field 4 36 112 _ (omega arith) (omega arith) refl

  tag_read : pread_u32 (pre ++ (emit_sections l ++ rest)) 40 ≡ ok 0x1234_5678
  unfolding emit_sections
  tag_read = read_field 8 40 0x1234_5678 _ (omega arith) (omega arith) refl

  parse_sections-emit_sections :
      (h : DexHeader)
      → IsU32 l
      → parse_sections (pre ++ (emit_sections l ++ rest)) h
        ≡ ok (record h {
          link_size = 0;
          link_off = 0;
          map_off = l.map_off;
          string_ids_size = l.string_ids_size;
          string_ids_off = l.string_ids_off;
          type_ids_size = l.type_ids_size;
          type_ids_off = l.type_ids_off;
          proto_ids_size = l.proto_ids_size;
          proto_ids_off = l.proto_ids_off;
          field_ids_size = l.field_ids_size;
          field_ids_off = l.field_ids_off;
          method_ids_size = l.method_ids_size;
          method_ids_off = l.method_ids_off;
          class_defs_size = l.class_defs_size;
          class_defs_off = l.class_defs_off;
          data_size = l.data_size;
          data_off = l.data_off;
        })
  unfolding parse_sections emit_sections
  parse_sections-emit_sections h lt = rw (
    read_field 12 44 0 _ (omega arith) (omega arith) refl,
    read_field 16 48 0 _ (omega arith) (omega arith) refl,
    read_field 20 52 l.map_off _ (omega arith) lt.map_off-lt refl,
    read_field 24 56 l.string_ids_size _ (omega arith) lt.string_ids_size-lt refl,
    read_field 28 60 l.string_ids_off _ (omega arith) lt.string_ids_off-lt refl,
    read_field 32 64 l.type_ids_size _ (omega arith) lt.type_ids_size-lt refl,
    read_field 36 68 l.type_ids_off _ (omega arith) lt.type_ids_off-lt refl,
    read_field 40 72 l.proto_ids_size _ (omega arith) lt.proto_ids_size-lt refl,
    read_field 44 76 l.proto_ids_off _ (omega arith) lt.proto_ids_off-lt refl,
    read_field 48 80 l.field_ids_size _ (omega arith) lt.field_ids_size-lt refl,
    read_field 52 84 l.field_ids_off _ (omega arith) lt.field_ids_off-lt refl,
    read_field 56 88 l.method_ids_size _ (omega arith) lt.method_ids_size-lt refl,
    read_field 60 92 l.method_ids_off _ (omega arith) lt.method_ids_off-lt refl,
    read_field 64 96 l.class_defs_size _ (omega arith) lt.class_defs_size-lt refl,
    read_field 68 100 l.class_defs_off _ (omega arith) lt.class_defs_off-lt refl,
    read_field 72 104 l.data_size _ (omega arith) lt.data_size-lt refl,
    read_field 76 108 l.data_off _ (omega arith) lt.data_off-lt refl,
  )

-- The eight bytes at the start pass their tests when the version is supported.
check_magic-supported :
    (a b c : ℕ)
    → any_eq supported_versions (a ∷ b ∷ c ∷ []) ≡ true
    → check_magic (0x64 ∷ 0x65 ∷ 0x78 ∷ 0x0a ∷ a ∷ b ∷ c ∷ 0 ∷ []) ≡ ok tt
unfolding check_magic slice_eq
check_magic-supported a b c supported = rw supported

-- The same for a version on its own, so that its three bytes can be told apart.
laid_out :
    (l : HeaderLayout) (version : List ℕ) (checksum : ℕ) (signature rest : List ℕ)
    → length version ≡ 3
    → any_eq supported_versions version ≡ true
    → IsU32 l
    → checksum < u32_mod
    → length signature ≡ 20
    → parse (head_bytes version checksum signature ++ (emit_sections l ++ rest))
      ≡ ok (record (parsed l checksum signature) { magic = dex_magic ++ (version ++ 0 ∷ []) })
unfolding parse get_range validate_endian_tag
laid_out l [] checksum signature rest three supported lt small twenty = absurd (omega arith)
laid_out l (a ∷ []) checksum signature rest three supported lt small twenty = absurd (omega arith)
laid_out l (a ∷ b ∷ []) checksum signature rest three supported lt small twenty =
    absurd (omega arith)
laid_out l (a ∷ b ∷ c ∷ d ∷ v) checksum signature rest three supported lt small twenty =
    absurd (omega arith)
laid_out l (a ∷ b ∷ c ∷ []) checksum signature rest three supported lt small twenty =
    let pre = head_bytes (a ∷ b ∷ c ∷ []) checksum signature in
    let body = emit_sections l ++ rest in
    let at : length pre ≡ 32 = omega (arith, twenty) in
    let long : 112 ≤ length (pre ++ body) =
      omega (arith, at, length-append pre body, length-sections l rest) in
    let first : pread_u32 (pre ++ body) 8 ≡ ok checksum =
      unfold pread_u32 in unfold le_u32 in ap ok (joined_lem checksum small) in
    rw (
      le→leb 112 (length (pre ++ body)) long,
      le→leb 8 (length (pre ++ body)) (omega (arith, long)),
      check_magic-supported a b c supported,
      first,
      le→leb 32 (length (pre ++ body)) (omega (arith, long)),
      take-append 20 signature body (omega (arith, twenty)),
      file_size_read l pre rest at lt,
      size_read l pre rest at,
      tag_read l pre rest at,
      parse_sections-emit_sections l pre rest at _ lt,
    )

-- A file that starts with these bytes, whatever its hashes are.
pub parse-laid_out :
    (l : HeaderLayout) (checksum : ℕ) (signature rest : List ℕ)
    → length l.version ≡ 3
    → any_eq supported_versions l.version ≡ true
    → IsU32 l
    → checksum < u32_mod
    → length signature ≡ 20
    → parse (head_bytes l.version checksum signature ++ (emit_sections l ++ rest))
      ≡ ok (parsed l checksum signature)
parse-laid_out l checksum signature rest three supported lt small twenty =
    laid_out l l.version checksum signature rest three supported lt small twenty
