-- ===== src/Emit/Header.antt =====
-- src/emit_dex.rs: the file header and the two hashes in it.
-- `sha1` is the digest of the crate sha1, `adler32` the function of the crate adler2.
use droidsaw_dex.Prelude.{ℕ, List, [], ◌∷◌, ◌++◌, length, take, drop, leb, if◌then◌else◌}
use droidsaw_dex.Prelude.Errors.{ok, err}
use droidsaw_dex.Emit.Operands.{Emitted, offset_overflow}
use droidsaw_dex.Emit.Payload.{le_bytes}

pub record HeaderLayout : Type 0 where
  pub version : List ℕ
  pub file_size : ℕ
  pub map_off : ℕ
  pub string_ids_size : ℕ
  pub string_ids_off : ℕ
  pub type_ids_size : ℕ
  pub type_ids_off : ℕ
  pub proto_ids_size : ℕ
  pub proto_ids_off : ℕ
  pub field_ids_size : ℕ
  pub field_ids_off : ℕ
  pub method_ids_size : ℕ
  pub method_ids_off : ℕ
  pub class_defs_size : ℕ
  pub class_defs_off : ℕ
  pub data_size : ℕ
  pub data_off : ℕ

abbrev dex_header_size : ℕ
dex_header_size = 112

abbrev dex_endian_tag : ℕ
dex_endian_tag = 0x1234_5678

-- `[0u8; 20]`
abbrev pub no_signature : List ℕ
no_signature = 0 ∷ 0 ∷ 0 ∷ 0 ∷ 0 ∷ 0 ∷ 0 ∷ 0 ∷ 0 ∷ 0 ∷ 0 ∷ 0 ∷ 0 ∷ 0 ∷ 0 ∷ 0 ∷ 0 ∷ 0 ∷ 0 ∷ 0 ∷ []

-- The bytes from `file_size` on.
unfoldable pub emit_sections : HeaderLayout → List ℕ
emit_sections l =
    le_bytes l.file_size
    ++ (le_bytes dex_header_size
        ++ (le_bytes dex_endian_tag
            ++ (le_bytes 0
                ++ (le_bytes 0
                    ++ (le_bytes l.map_off
                        ++ (le_bytes l.string_ids_size
                            ++ (le_bytes l.string_ids_off
                                ++ (le_bytes l.type_ids_size
                                    ++ (le_bytes l.type_ids_off
                                        ++ (le_bytes l.proto_ids_size
                                            ++ (le_bytes l.proto_ids_off
                                                ++ (le_bytes l.field_ids_size
                                                    ++ (le_bytes l.field_ids_off
                                                        ++ (le_bytes l.method_ids_size
                                                            ++ (le_bytes l.method_ids_off
                                                            ++ (le_bytes l.class_defs_size
                                                            ++ (le_bytes l.class_defs_off
                                                            ++ (le_bytes l.data_size
                                                            ++ le_bytes l.data_off))))))))))))))))))

-- The bytes are written one after the other; the list is grouped to the right.
unfoldable pub emit_header : HeaderLayout → List ℕ
unfolding emit_sections
emit_header l =
    0x64
    ∷ 0x65
    ∷ 0x78
    ∷ 0x0a
    ∷ (l.version ++ (0x00 ∷ (0 ∷ 0 ∷ 0 ∷ 0 ∷ [] ++ (no_signature ++ emit_sections l))))

-- `bytes[from..].copy_from_slice(new)` for a `new` that fits
unfoldable pub copy_at : ℕ → List ℕ → List ℕ → List ℕ
copy_at from new bytes = take from bytes ++ (new ++ drop (length new) (drop from bytes))

unfoldable pub finalize_checksums : (List ℕ → List ℕ) → (List ℕ → ℕ) → List ℕ → Emitted (List ℕ)
unfolding copy_at
finalize_checksums sha1 adler32 bytes =
    let signed = copy_at 12 (sha1 (drop 32 bytes)) bytes in
    if leb 32 (length bytes)
    then ok (copy_at 8 (le_bytes (adler32 (drop 12 signed))) signed)
    else err offset_overflow
