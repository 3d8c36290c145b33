-- ===== src/Emit/Annotation.antt =====
-- src/emit_dex.rs: annotation sets, annotation directories and encoded arrays.
use droidsaw_dex.Prelude.{ℕ, ◌%◌, List, [], ◌∷◌, ◌++◌, length}
use droidsaw_dex.Prelude.Errors.{ok, ◌>>=◌}
use droidsaw_dex.Prelude.Words.{u32_mod}
use droidsaw_dex.Leb.{Leb128}
use droidsaw_dex.Annotation.Value.{
  Values, nil, cons, count_values, Elements, end, element, count_elements,
}
use droidsaw_dex.Annotation.Items.{AnnotationDirectoryItem, AnnotationItem}
use droidsaw_dex.Emit.Operands.{Emitted}
use droidsaw_dex.Emit.Payload.{le_bytes, size_below}
use droidsaw_dex.Emit.Value.Tasks.{emit_encoded_value}

unfoldable pub offset_bytes : List ℕ → List ℕ
offset_bytes [] = []
offset_bytes (off ∷ offs) = le_bytes off ++ offset_bytes offs

-- `absolute_offs.len() as u32`
unfoldable pub emit_annotation_set_bytes : List ℕ → List ℕ
emit_annotation_set_bytes absolute_offs =
    le_bytes (length absolute_offs % u32_mod) ++ offset_bytes absolute_offs

-- `entries.iter().zip(offs.iter())`, with the offset of each entry replaced
unfoldable pub with_offsets : List (ℕ × ℕ) → List ℕ → List (ℕ × ℕ)
with_offsets ((idx, off) ∷ entries) (abs ∷ offs) = (idx, abs) ∷ with_offsets entries offs
with_offsets _ _ = []

unfoldable pub entry_bytes : List (ℕ × ℕ) → List ℕ
entry_bytes [] = []
entry_bytes ((idx, abs) ∷ entries) = le_bytes idx ++ (le_bytes abs ++ entry_bytes entries)

unfoldable pub emit_annotation_directory_bytes :
    AnnotationDirectoryItem → ℕ → List ℕ → List ℕ → List ℕ → Emitted (List ℕ)
emit_annotation_directory_bytes dir class_ann_off_abs field_offs method_offs param_offs = do
  fields_size ← size_below u32_mod (length dir.fields)
  methods_size ← size_below u32_mod (length dir.methods)
  parameters_size ← size_below u32_mod (length dir.parameters)
  ok (
      le_bytes class_ann_off_abs
      ++ (le_bytes fields_size
          ++ (le_bytes methods_size
              ++ (le_bytes parameters_size
                  ++ (entry_bytes (with_offsets dir.fields field_offs)
                      ++ (entry_bytes (with_offsets dir.methods method_offs)
                          ++ entry_bytes (with_offsets dir.parameters param_offs)))))))

unfoldable pub emit_values : Leb128 → List ℕ → Values → Emitted (List ℕ)
emit_values leb128 out nil = ok out
emit_values leb128 out (cons v vs) = do
  out' ← emit_encoded_value leb128 out v
  emit_values leb128 out' vs

-- `emit_encoded_array_with_widths` without widths
unfoldable pub emit_encoded_array : Leb128 → Values → Emitted (List ℕ)
emit_encoded_array leb128 values = do
  size ← size_below u32_mod (count_values values)
  emit_values leb128 (leb128.write_uleb128 size) values

unfoldable pub emit_elements : Leb128 → List ℕ → Elements → Emitted (List ℕ)
emit_elements leb128 out end = ok out
emit_elements leb128 out (element name v es) = do
  out' ← emit_encoded_value leb128 (out ++ leb128.write_uleb128 name) v
  emit_elements leb128 out' es

unfoldable pub emit_encoded_annotation : Leb128 → List ℕ → ℕ × Elements → Emitted (List ℕ)
emit_encoded_annotation leb128 out (type_idx, elements) = do
  size ← size_below u32_mod (count_elements elements)
  emit_elements leb128 ((out ++ leb128.write_uleb128 type_idx) ++ leb128.write_uleb128 size)
      elements

unfoldable pub emit_annotation_item_bytes : Leb128 → AnnotationItem → Emitted (List ℕ)
emit_annotation_item_bytes leb128 item =
    emit_encoded_annotation leb128 (item.visibility ∷ []) item.annotation
