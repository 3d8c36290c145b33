-- ===== src/Tests/Values.antt =====
-- Encoded values on concrete bytes.
use droidsaw_dex.Prelude.{
  suc, zero, ◌<◌, subst, ℕ, ◌≡◌, refl, arith, true, some, List, [], ◌∷◌, ◌++◌, length,
}
use droidsaw_dex.Prelude.Int.{negsuc}
use droidsaw_dex.Prelude.Errors.{ok, err, IfOk}
use droidsaw_dex.Annotation.Value.{
  EncodedValue, Values, cons, nil, element, end, int, string, null_value, boolean, array,
  annotation, count_values, count_elements, push_value, insert_element,
}
use droidsaw_dex.Annotation.Primitive.{
  decode_primitive_encoded_value, decode_arm, value_type_of, read_signed, read_unsigned, read_int,
  read_uint, read_bytes, check_value_arg_size, finish, pread_u8, first_byte,
}
use droidsaw_dex.Annotation.RoundTrip.{decode_primitive_encoded_value-primitive_bytes}
use droidsaw_dex.Annotation.Frames.{
  array_frame, frame_start_pos, frame_is_complete, assemble_frame, read_name, put_child,
  deliver_to_top, open_frame, open_kind, open_annotation, composite_of,
}
use droidsaw_dex.Annotation.Walk.{
  collecting, parse_encoded_value, or_composite, parse_encoded_value_composite,
  drive_collector_stack, finish_walk, walk, round, next_value, take_value, unwind,
}
use droidsaw_dex.Decode.Reader.{safe_add, safe_mul}
use droidsaw_dex.Leb.{next_uleb128, read_uleb128}
use droidsaw_dex.Emit.Payload.{size_below}
use droidsaw_dex.Emit.Operands.{unrepresentable_ir}
use droidsaw_dex.Prelude.Words.{u32_mod}
use droidsaw_dex.Annotation.Walk.Enough.{HasReturned, walk-HasReturned}
use droidsaw_dex.Annotation.Walk.Whole.{parse_encoded_value-emit_encoded_value}
use droidsaw_dex.Annotation.Walk.Spec.{IsInRange, nesting}
use droidsaw_dex.Emit.Value.{
  primitive_bytes, sized_signed, sized_unsigned, sized, low_le_bytes, min_signed_bytes,
  min_unsigned_bytes, bit_length, byte_count,
}
use droidsaw_dex.Emit.Value.Spec.{encode}
use droidsaw_dex.Emit.Value.Tasks.{
  emit_stack_cap, emit_encoded_value, emit_loop, emit_task, emit_value, push_values, push_elements,
  value_tasks,
}
use droidsaw_dex.Emit.Value.Room.{emit_encoded_value-encode, emit_encoded_value-full}
use droidsaw_dex.Tests.Samples.{
  sample_leb128, sample_leb128-IsWriter, sample_bound_count, sample_bound_count-IsBoundCount,
}

abbrev sample_value : EncodedValue
sample_value = array (
    cons (int (negsuc 299)) (
      cons (annotation 7 (element 1 (boolean true) (element 4 (string 0x1234) end)))
        (cons (array (cons null_value nil)) nil)))

abbrev sample_value_bytes : List ℕ
sample_value_bytes =
    0x1c ∷ 3 ∷ 0x24 ∷ 0xd4 ∷ 0xfe ∷ 0x1d ∷ 7 ∷ 2 ∷ 1 ∷ 0x3f ∷ 4 ∷ 0x37 ∷ 0x34 ∷ 0x12 ∷ 0x1c ∷ 1
    ∷ 0x1e ∷ []

sample_emitted :
    emit_encoded_value sample_leb128 (9 ∷ []) sample_value ≡ ok (9 ∷ [] ++ sample_value_bytes)
unfolding emit_encoded_value emit_loop emit_task emit_value push_values push_elements value_tasks
    size_below primitive_bytes sized_signed sized_unsigned sized low_le_bytes min_signed_bytes
    min_unsigned_bytes bit_length byte_count count_values count_elements
sample_emitted = refl

sample_parsed :
    parse_encoded_value sample_leb128 sample_bound_count (9 ∷ [] ++ sample_value_bytes) 1
    ≡ ok (sample_value, 17)
unfolding parse_encoded_value or_composite parse_encoded_value_composite drive_collector_stack
    finish_walk walk round next_value take_value unwind frame_start_pos frame_is_complete
    assemble_frame read_name put_child deliver_to_top open_frame open_kind open_annotation
    composite_of decode_primitive_encoded_value decode_arm value_type_of read_signed read_unsigned
    read_int read_uint read_bytes check_value_arg_size finish pread_u8 first_byte safe_add safe_mul
    next_uleb128 read_uleb128 push_value insert_element
sample_parsed = refl

decode_primitive_encoded_value-primitive_bytes_example :
    decode_primitive_encoded_value (9 ∷ [] ++ (primitive_bytes (int (negsuc 299)) ++ 8 ∷ [])) 1
    ≡ ok (some (int (negsuc 299)), length (primitive_bytes (int (negsuc 299))))
unfolding primitive_bytes sized_signed sized low_le_bytes min_signed_bytes bit_length byte_count
decode_primitive_encoded_value-primitive_bytes_example =
    decode_primitive_encoded_value-primitive_bytes (int (negsuc 299))
      (9 ∷ [] ++ (primitive_bytes (int (negsuc 299)) ++ 8 ∷ [])) (8 ∷ []) 1 (omega arith)
      (omega arith) refl

emit_encoded_value-encode_example :
    emit_encoded_value sample_leb128 (9 ∷ []) sample_value
    ≡ ok (9 ∷ [] ++ encode sample_leb128 sample_value)
unfolding value_tasks
emit_encoded_value-encode_example =
    emit_encoded_value-encode sample_leb128 sample_value (9 ∷ []) (omega arith)

parse_encoded_value-emit_encoded_value_example :
    parse_encoded_value sample_leb128 sample_bound_count
      ((9 ∷ [] ++ sample_value_bytes) ++ 5 ∷ [])
      1
    ≡ ok (sample_value, 17)
unfolding IsInRange nesting count_values count_elements
parse_encoded_value-emit_encoded_value_example =
    parse_encoded_value-emit_encoded_value sample_leb128 sample_bound_count sample_value (9 ∷ [])
      (9 ∷ [] ++ sample_value_bytes) (5 ∷ []) sample_leb128-IsWriter sample_bound_count-IsBoundCount
      (ground arith) (ground arith) (omega arith) sample_emitted

walk-HasReturned_example : IfOk (HasReturned sample_leb128 sample_bound_count sample_value_bytes) (
    walk sample_leb128 sample_bound_count sample_value_bytes
      (suc (length sample_value_bytes))
      (collecting (array_frame 0 3 nil) [] 2))
walk-HasReturned_example =
    walk-HasReturned sample_leb128 sample_bound_count sample_value_bytes (array_frame 0 3 nil) [] 2

abbrev nulls : ℕ → Values
nulls zero = nil
nulls (suc n) = cons null_value (nulls n)

count_values-nulls : (n : ℕ) → n ≡ count_values (nulls n)
unfolding count_values
count_values-nulls zero = refl
count_values-nulls (suc n) = omega (arith, count_values-nulls n)

emit_encoded_value-full_example :
    emit_encoded_value sample_leb128 [] (array (nulls 65537)) ≡ err unrepresentable_ir
emit_encoded_value-full_example =
    emit_encoded_value-full sample_leb128 (nulls 65537) []
      (subst (λ n. emit_stack_cap < n) (count_values-nulls 65537) (omega arith))
      (subst (λ n. n < u32_mod) (count_values-nulls 65537) (omega arith))
