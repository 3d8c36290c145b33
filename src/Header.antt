-- ===== src/Header.antt =====
-- src/header.rs: the file header, its parser and the test of the checksum.
-- `adler32` is the function of the crate adler2. The text of an unsupported version is its bytes.
pub mod RoundTrip
pub mod Finalize
use droidsaw_dex.Prelude.{
  ℕ, ◌-◌, ◌==◌, ◌&&◌, ◌||◌, Bool, true, false, Option, none, some, List, [], ◌∷◌, length, take,
  drop, get_or, leb, ltb, if◌then◌else◌,
}
use droidsaw_dex.Prelude.Errors.{ok, err, ◌>>=◌, ◌>>◌, guard, ok_or}
use droidsaw_dex.Decode.Reader.{
  Res, bad_magic, unsupported_version, invalid_header_size, bad_endian_tag, checksum_mismatch,
  truncated, pread_u32,
}

abbrev pub header_size : ℕ
header_size = 112

abbrev pub canonical_header_size : ℕ
canonical_header_size = 0x70

abbrev pub endian_constant : ℕ
endian_constant = 0x1234_5678

-- `b"dex\n"`
abbrev pub dex_magic : List ℕ
dex_magic = 0x64 ∷ 0x65 ∷ 0x78 ∷ 0x0a ∷ []

-- `==` of two slices
unfoldable pub slice_eq : List ℕ → List ℕ → Bool
slice_eq [] [] = true
slice_eq (x ∷ xs) (y ∷ ys) = (x == y) && slice_eq xs ys
slice_eq _ _ = false

-- `b"035"` and the others
abbrev pub supported_versions : List (List ℕ)
supported_versions =
    (0x30 ∷ 0x33 ∷ 0x35 ∷ [])
    ∷ (0x30 ∷ 0x33 ∷ 0x37 ∷ [])
    ∷ (0x30 ∷ 0x33 ∷ 0x38 ∷ [])
    ∷ (0x30 ∷ 0x33 ∷ 0x39 ∷ [])
    ∷ (0x30 ∷ 0x34 ∷ 0x30 ∷ [])
    ∷ (0x30 ∷ 0x34 ∷ 0x31 ∷ [])
    ∷ []

unfoldable pub any_eq : List (List ℕ) → List ℕ → Bool
unfolding slice_eq
any_eq [] version = false
any_eq (v ∷ vs) version = slice_eq v version || any_eq vs version

-- `data.get(from..to)`
unfoldable pub get_range : List ℕ → ℕ → ℕ → Option (List ℕ)
get_range bytes from to =
    if leb to (length bytes) then some (take (to - from) (drop from bytes)) else none

unfoldable pub validate_endian_tag : ℕ → Res (Unit {0})
validate_endian_tag tag = if tag == endian_constant then ok tt else err (bad_endian_tag tag)

pub record DexHeader : Type 0 where
  pub magic : List ℕ
  pub checksum : ℕ
  pub signature : List ℕ
  pub file_size : ℕ
  pub header_size : ℕ
  pub endian_tag : ℕ
  pub link_size : ℕ
  pub link_off : ℕ
  pub map_off : ℕ
  pub string_ids_size : ℕ
  pub string_ids_off : ℕ
  pub type_ids_size : ℕ
  pub type_ids_off : ℕ
  pub proto_ids_size : ℕ
  pub proto_ids_off : ℕ
  pub field_ids_size : ℕ
  pub field_ids_off : ℕ
  pub method_ids_size : ℕ
  pub method_ids_off : ℕ
  pub class_defs_size : ℕ
  pub class_defs_off : ℕ
  pub data_size : ℕ
  pub data_off : ℕ

-- The tests of the first eight bytes.
unfoldable pub check_magic : List ℕ → Res (Unit {0})
unfolding slice_eq any_eq
check_magic magic = do
  guard (slice_eq (take 4 magic) dex_magic) (bad_magic (take 4 magic))
  guard (any_eq supported_versions (take 3 (drop 4 magic)))
      (unsupported_version (take 3 (drop 4 magic)))
  guard (get_or magic 7 0 == 0) (bad_magic (take 4 magic))

-- The fields from `link_size` on.
unfoldable pub parse_sections : List ℕ → DexHeader → Res DexHeader
parse_sections bytes h = do
  link_size ← pread_u32 bytes 44
  link_off ← pread_u32 bytes 48
  map_off ← pread_u32 bytes 52
  string_ids_size ← pread_u32 bytes 56
  string_ids_off ← pread_u32 bytes 60
  type_ids_size ← pread_u32 bytes 64
  type_ids_off ← pread_u32 bytes 68
  proto_ids_size ← pread_u32 bytes 72
  proto_ids_off ← pread_u32 bytes 76
  field_ids_size ← pread_u32 bytes 80
  field_ids_off ← pread_u32 bytes 84
  method_ids_size ← pread_u32 bytes 88
  method_ids_off ← pread_u32 bytes 92
  class_defs_size ← pread_u32 bytes 96
  class_defs_off ← pread_u32 bytes 100
  data_size ← pread_u32 bytes 104
  data_off ← pread_u32 bytes 108
  ok (record h {
    link_size = link_size;
    link_off = link_off;
    map_off = map_off;
    string_ids_size = string_ids_size;
    string_ids_off = string_ids_off;
    type_ids_size = type_ids_size;
    type_ids_off = type_ids_off;
    proto_ids_size = proto_ids_size;
    proto_ids_off = proto_ids_off;
    field_ids_size = field_ids_size;
    field_ids_off = field_ids_off;
    method_ids_size = method_ids_size;
    method_ids_off = method_ids_off;
    class_defs_size = class_defs_size;
    class_defs_off = class_defs_off;
    data_size = data_size;
    data_off = data_off;
  })

-- A header whose sections are still to be read.
abbrev pub header_of : List ℕ → ℕ → List ℕ → ℕ → ℕ → ℕ → DexHeader
header_of magic checksum signature file_size size tag = record {
  magic = magic;
  checksum = checksum;
  signature = signature;
  file_size = file_size;
  header_size = size;
  endian_tag = tag;
  link_size = 0;
  link_off = 0;
  map_off = 0;
  string_ids_size = 0;
  string_ids_off = 0;
  type_ids_size = 0;
  type_ids_off = 0;
  proto_ids_size = 0;
  proto_ids_off = 0;
  field_ids_size = 0;
  field_ids_off = 0;
  method_ids_size = 0;
  method_ids_off = 0;
  class_defs_size = 0;
  class_defs_off = 0;
  data_size = 0;
  data_off = 0;
}

unfoldable pub parse : List ℕ → Res DexHeader
unfolding get_range validate_endian_tag check_magic
parse bytes = do
  guard (leb header_size (length bytes)) (truncated 0 header_size (length bytes))
  magic ← ok_or (get_range bytes 0 8) (truncated 0 header_size (length bytes))
  check_magic magic
  checksum ← pread_u32 bytes 8
  signature ← ok_or (get_range bytes 12 32) (truncated 12 20 (length bytes - 12))
  file_size ← pread_u32 bytes 32
  size ← pread_u32 bytes 36
  guard (size == canonical_header_size) (invalid_header_size size)
  tag ← pread_u32 bytes 40
  validate_endian_tag tag
  parse_sections bytes (header_of magic checksum signature file_size size tag)

unfoldable pub verify_checksum : (List ℕ → ℕ) → DexHeader → List ℕ → Res (Unit {0})
unfolding get_range
verify_checksum adler32 h bytes = do
  guard (leb h.file_size (length bytes)) (truncated 0 h.file_size (length bytes))
  guard (leb 12 h.file_size) (truncated 0 12 h.file_size)
  input ←
      ok_or (get_range bytes 12 h.file_size) (truncated 12 (h.file_size - 12) (length bytes - 12))
  guard (adler32 input == h.checksum) (checksum_mismatch h.checksum (adler32 input))
