-- ===== src/Annotation/Items.antt =====
-- src/annotation.rs: annotation sets, items and directories, and encoded arrays.
-- An entry of a directory is an index with an offset.
pub mod Entries
pub mod Directory
pub mod Arrays
pub mod Bodies
use droidsaw_dex.Prelude.{
  ℕ, zero, suc, ◌+◌, ◌-◌, ◌/◌, List, [], ◌∷◌, length, ltb, ◌==◌, if◌then◌else◌, Bool, true, false,
}
use droidsaw_dex.Prelude.Errors.{ok, err, ◌>>=◌, ◌>>◌, guard}
use droidsaw_dex.Decode.Reader.{Res, safe_add, pread_u32, annotation_directory_allocation_cap}
use droidsaw_dex.Decode.Payload.{BoundCount}
use droidsaw_dex.Leb.{Leb128, next_uleb128}
use droidsaw_dex.Annotation.Value.{EncodedValue, Values, nil, cons, Elements}
use droidsaw_dex.Annotation.Primitive.{pread_u8}
use droidsaw_dex.Annotation.Walk.{parse_encoded_value, parse_encoded_annotation}

-- The entries of fields, methods and parameters
pub record AnnotationDirectoryItem : Type 0 where
  pub class_annotations_off : ℕ
  pub fields : List (ℕ × ℕ)
  pub methods : List (ℕ × ℕ)
  pub parameters : List (ℕ × ℕ)

pub record AnnotationItem : Type 0 where
  pub visibility : ℕ
  pub annotation : ℕ × Elements

-- A u32 at `pos`, and the position behind it
unfoldable pub next_u32 : List ℕ → ℕ → Res (ℕ × ℕ)
next_u32 bytes pos = do v ← pread_u32 bytes pos; pos' ← safe_add pos 4; ok (v, pos')

-- The loop over the entries of one kind
unfoldable pub read_entries : List ℕ → ℕ → ℕ → Res (List (ℕ × ℕ) × ℕ)
read_entries bytes zero pos = ok ([], pos)
read_entries bytes (suc n) pos = do
  (idx, pos1) ← next_u32 bytes pos
  (off, pos2) ← next_u32 bytes pos1
  (rest, pos') ← read_entries bytes n pos2
  ok ((idx, off) ∷ rest, pos')

unfoldable pub within_input : ℕ → ℕ → Res (Unit {0})
within_input combined data_len =
    if ltb (data_len / 8) combined
    then err (annotation_directory_allocation_cap combined data_len)
    else ok tt

-- `AnnotationDirectoryItem::parse`
unfoldable pub parse_directory : BoundCount → List ℕ → ℕ → Res AnnotationDirectoryItem
parse_directory bound_count bytes offset = do
  (class_annotations_off, pos1) ← next_u32 bytes offset
  (fields_size, pos2) ← next_u32 bytes pos1
  (methods_size, pos3) ← next_u32 bytes pos2
  (parameters_size, pos4) ← next_u32 bytes pos3
  within_input (fields_size + methods_size + parameters_size) (length bytes)
  fields_count ← bound_count fields_size 8 (length bytes)
  (fields, pos5) ← read_entries bytes fields_count pos4
  methods_count ← bound_count methods_size 8 (length bytes)
  (methods, pos6) ← read_entries bytes methods_count pos5
  parameters_count ← bound_count parameters_size 8 (length bytes)
  (parameters, pos7) ← read_entries bytes parameters_count pos6
  ok (record {
    class_annotations_off = class_annotations_off;
    fields = fields;
    methods = methods;
    parameters = parameters;
  })

-- The loop over the entries of a set
unfoldable pub read_offsets : List ℕ → ℕ → ℕ → Res (List ℕ)
read_offsets bytes zero pos = ok []
read_offsets bytes (suc n) pos = do
  (off, pos') ← next_u32 bytes pos
  rest ← read_offsets bytes n pos'
  ok (off ∷ rest)

unfoldable pub parse_annotation_set : BoundCount → List ℕ → ℕ → Res (List ℕ)
parse_annotation_set bound_count bytes offset = elim (offset == 0) [
  | true ↦ ok []
  | false ↦ do
    (size, pos) ← next_u32 bytes offset
    entry_count ← bound_count size 4 (length bytes)
    read_offsets bytes entry_count pos
]

unfoldable pub parse_annotation_item : Leb128 → BoundCount → List ℕ → ℕ → Res AnnotationItem
parse_annotation_item leb128 bound_count bytes offset = do
  visibility ← pread_u8 bytes offset
  pos ← safe_add offset 1
  (annotation, consumed) ← parse_encoded_annotation leb128 bound_count bytes pos
  ok (record { visibility = visibility; annotation = annotation })

-- `u8::try_from(vlen.saturating_sub(1)).unwrap_or(u8::MAX)`
unfoldable pub payload_width : ℕ → ℕ
payload_width vlen = if ltb (vlen - 1) 256 then vlen - 1 else 255

-- The loop over the values of an array: the values and the widths of their bytes
unfoldable pub read_values : Leb128 → BoundCount → List ℕ → ℕ → ℕ → Res (Values × List ℕ)
read_values leb128 bound_count bytes zero pos = ok (nil, [])
read_values leb128 bound_count bytes (suc n) pos = do
  (v, vlen) ← parse_encoded_value leb128 bound_count bytes pos
  pos' ← safe_add pos vlen
  (values, widths) ← read_values leb128 bound_count bytes n pos'
  ok (cons v values, payload_width vlen ∷ widths)

unfoldable pub parse_encoded_array : Leb128 → BoundCount → List ℕ → ℕ → Res (Values × List ℕ)
parse_encoded_array leb128 bound_count bytes offset = do
  (size, pos) ← next_uleb128 leb128 bytes offset
  count ← bound_count size 1 (length bytes)
  read_values leb128 bound_count bytes count pos
