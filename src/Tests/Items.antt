-- ===== src/Tests/Items.antt =====
-- Annotation sets, directories and encoded arrays on concrete bytes.
use droidsaw_dex.Prelude.{ℕ, ◌≡◌, refl, arith, List, [], ◌∷◌, ◌++◌}
use droidsaw_dex.Prelude.Int.{pos, negsuc}
use droidsaw_dex.Prelude.Errors.{ok}
use droidsaw_dex.Annotation.Value.{
  Values, cons, nil, element, end, long, null_value, array, count_values, count_elements,
}
use droidsaw_dex.Annotation.Items.{
  AnnotationItem, parse_annotation_item, AnnotationDirectoryItem, parse_directory,
  parse_annotation_set, parse_encoded_array, payload_width,
}
use droidsaw_dex.Annotation.Items.Directory.{
  HasMoved, parse_annotation_set-emit_annotation_set_bytes,
  parse_directory-emit_annotation_directory_bytes,
}
use droidsaw_dex.Annotation.Items.Bodies.{parse_annotation_item-emit_annotation_item_bytes}
use droidsaw_dex.Annotation.Items.Arrays.{parse_encoded_array-emit_encoded_array}
use droidsaw_dex.Annotation.Walk.Spec.{IsInRange, nesting}
use droidsaw_dex.Emit.Payload.{size_below}
use droidsaw_dex.Emit.Annotation.{
  emit_annotation_item_bytes, emit_encoded_annotation, emit_elements, emit_annotation_set_bytes,
  offset_bytes, emit_annotation_directory_bytes, entry_bytes, with_offsets, emit_encoded_array,
  emit_values,
}
use droidsaw_dex.Emit.Value.{
  primitive_bytes, sized_signed, sized, low_le_bytes, min_signed_bytes, bit_length, byte_count,
}
use droidsaw_dex.Emit.Value.Spec.{encode}
use droidsaw_dex.Emit.Value.Tasks.{
  emit_encoded_value, emit_loop, emit_task, emit_value, push_values, value_tasks,
}
use droidsaw_dex.Tests.Samples.{
  sample_leb128, sample_leb128-IsWriter, sample_bound_count, sample_bound_count-IsBoundCount,
}

parse_annotation_set-emit_annotation_set_bytes_example :
    parse_annotation_set sample_bound_count
      (7 ∷ [] ++ (emit_annotation_set_bytes (0x1234 ∷ 0x5678 ∷ []) ++ 9 ∷ []))
      1
    ≡ ok (0x1234 ∷ 0x5678 ∷ [])
unfolding emit_annotation_set_bytes offset_bytes
parse_annotation_set-emit_annotation_set_bytes_example =
    parse_annotation_set-emit_annotation_set_bytes sample_bound_count
      (7 ∷ [] ++ (emit_annotation_set_bytes (0x1234 ∷ 0x5678 ∷ []) ++ 9 ∷ []))
      (0x1234 ∷ 0x5678 ∷ []) (9 ∷ []) 1 sample_bound_count-IsBoundCount (omega arith) (ground arith)
      (omega arith) (omega arith) refl

abbrev sample_directory : AnnotationDirectoryItem
sample_directory = record {
  class_annotations_off = 0x50;
  fields = (3, 0x60) ∷ [];
  methods = [];
  parameters = (1, 0x70) ∷ (2, 0x80) ∷ [];
}

abbrev sample_directory_bytes : List ℕ
sample_directory_bytes =
    0 ∷ 1 ∷ 0 ∷ 0 ∷ 1 ∷ 0 ∷ 0 ∷ 0 ∷ 0 ∷ 0 ∷ 0 ∷ 0 ∷ 2 ∷ 0 ∷ 0 ∷ 0 ∷ 3 ∷ 0 ∷ 0 ∷ 0 ∷ 0x61 ∷ 0 ∷ 0 ∷ 0
    ∷ 1 ∷ 0 ∷ 0 ∷ 0 ∷ 0x71 ∷ 0 ∷ 0 ∷ 0 ∷ 2 ∷ 0 ∷ 0 ∷ 0 ∷ 0x81 ∷ 0 ∷ 0 ∷ 0 ∷ []

sample_directory_emitted :
    emit_annotation_directory_bytes sample_directory 0x100 (0x61 ∷ []) [] (0x71 ∷ 0x81 ∷ [])
    ≡ ok sample_directory_bytes
unfolding emit_annotation_directory_bytes entry_bytes with_offsets size_below
sample_directory_emitted = refl

parse_directory-emit_annotation_directory_bytes_example :
    (parsed : AnnotationDirectoryItem) × (parse_directory sample_bound_count
        (7 ∷ [] ++ (sample_directory_bytes ++ 9 ∷ []))
        1
      ≡ ok parsed)
    × (parsed.class_annotations_off ≡ 0x100)
    × HasMoved ((3, 0x60) ∷ []) (0x61 ∷ []) parsed.fields
    × HasMoved [] [] parsed.methods
    × HasMoved ((1, 0x70) ∷ (2, 0x80) ∷ []) (0x71 ∷ 0x81 ∷ []) parsed.parameters
parse_directory-emit_annotation_directory_bytes_example =
    parse_directory-emit_annotation_directory_bytes sample_bound_count sample_directory 0x100 1
      (0x61 ∷ []) [] (0x71 ∷ 0x81 ∷ []) sample_directory_bytes
      (7 ∷ [] ++ (sample_directory_bytes ++ 9 ∷ [])) (9 ∷ []) sample_bound_count-IsBoundCount
      (omega arith) (omega arith) (ground arith) (ground arith) (ground arith)
      sample_directory_emitted refl

abbrev sample_values : Values
sample_values = cons (long (negsuc 0x12_3455)) (cons (array (cons null_value nil)) nil)

abbrev sample_array_bytes : List ℕ
sample_array_bytes = 2 ∷ 0x46 ∷ 0xaa ∷ 0xcb ∷ 0xed ∷ 0x1c ∷ 1 ∷ 0x1e ∷ []

sample_array_emitted : emit_encoded_array sample_leb128 sample_values ≡ ok sample_array_bytes
unfolding emit_encoded_array emit_values emit_encoded_value emit_loop emit_task emit_value
    push_values value_tasks size_below primitive_bytes sized_signed sized low_le_bytes
    min_signed_bytes bit_length byte_count count_values
sample_array_emitted = refl

parse_encoded_array-emit_encoded_array_example :
    parse_encoded_array sample_leb128 sample_bound_count
      (7 ∷ [] ++ (sample_array_bytes ++ 9 ∷ []))
      1
    ≡ ok (sample_values, 3 ∷ 2 ∷ [])
unfolding IsInRange nesting count_values payload_width encode primitive_bytes sized_signed
    low_le_bytes min_signed_bytes byte_count bit_length
parse_encoded_array-emit_encoded_array_example =
    parse_encoded_array-emit_encoded_array sample_leb128 sample_leb128-IsWriter sample_bound_count
      sample_bound_count-IsBoundCount (7 ∷ [] ++ (sample_array_bytes ++ 9 ∷ [])) (omega arith)
      sample_values 1 sample_array_bytes (9 ∷ []) (ground arith) (ground arith) sample_array_emitted
      refl

abbrev sample_item : AnnotationItem
sample_item = record {
  visibility = 1;
  annotation = (6, element 2 null_value (element 5 (long (pos 3)) end));
}

abbrev sample_item_bytes : List ℕ
sample_item_bytes = 1 ∷ 6 ∷ 2 ∷ 2 ∷ 0x1e ∷ 5 ∷ 0x06 ∷ 3 ∷ []

sample_item_emitted : emit_annotation_item_bytes sample_leb128 sample_item ≡ ok sample_item_bytes
unfolding emit_annotation_item_bytes emit_encoded_annotation emit_elements emit_encoded_value
    emit_loop emit_task emit_value value_tasks size_below primitive_bytes sized_signed sized
    low_le_bytes min_signed_bytes bit_length byte_count count_elements
sample_item_emitted = refl

parse_annotation_item-emit_annotation_item_bytes_example :
    parse_annotation_item sample_leb128 sample_bound_count
      (7 ∷ [] ++ (sample_item_bytes ++ 9 ∷ []))
      1
    ≡ ok sample_item
unfolding IsInRange nesting count_elements
parse_annotation_item-emit_annotation_item_bytes_example =
    parse_annotation_item-emit_annotation_item_bytes sample_leb128 sample_leb128-IsWriter
      sample_bound_count sample_bound_count-IsBoundCount (7 ∷ [] ++ (sample_item_bytes ++ 9 ∷ []))
      (omega arith) sample_item 1 sample_item_bytes (9 ∷ []) (ground arith) (ground arith)
      sample_item_emitted refl
