-- ===== src/Annotation/Walk/Whole.antt =====
-- A value that is emitted is parsed to itself, composite values and all.
use mathlib.Core.List.{append_assoc}
use droidsaw_dex.Prelude.{
  ℕ, suc, ◌+◌, ◌-◌, ◌≤◌, ◌<◌, ◌≡◌, refl, sym, ap, ◌∙◌, arith, none, List, [], ◌++◌, length,
  length-append, drop,
}
use droidsaw_dex.Prelude.Errors.{ok}
use droidsaw_dex.Prelude.Words.{usize_mod}
use droidsaw_dex.Decode.Reader.Bounds.{drop-append}
use droidsaw_dex.Decode.Payload.{BoundCount}
use droidsaw_dex.Leb.{Leb128, IsWriter}
use droidsaw_dex.Annotation.Value.{EncodedValue, Values, nil, Elements, end, array, annotation}
use droidsaw_dex.Annotation.Primitive.{decode_primitive_encoded_value}
use droidsaw_dex.Annotation.RoundTrip.{decode_primitive_encoded_value-primitive_bytes}
use droidsaw_dex.Annotation.Frames.{
  CollectorFrame, array_frame, annotation_frame, frame_start_pos, frame_is_complete, assemble_frame,
  read_name, open_frame,
}
use droidsaw_dex.Annotation.Walk.{
  returned, finish_walk, drive_collector_stack, parse_encoded_value_composite, or_composite,
  parse_encoded_value, parse_stack_frame_cap,
}
use droidsaw_dex.Annotation.Walk.Steps.{walks, walks_finished}
use droidsaw_dex.Annotation.Walk.Opening.{IsBoundCount}
use droidsaw_dex.Annotation.Walk.Spec.{
  IsAscending, IsInRange, nesting, value_rounds, values_rounds, elements_rounds, push_all,
  insert_all, push_all-nil, insert_all-end,
}
use droidsaw_dex.Annotation.Walk.Headers.{array-Opens, annotation-Opens}
use droidsaw_dex.Annotation.Walk.Sizes.{rounds-le}
use droidsaw_dex.Annotation.Walk.Children.{same_walk, values_collected, elements_collected}
use droidsaw_dex.Emit.Value.Spec.{encode}
use droidsaw_dex.Emit.Value.Tasks.{emit_encoded_value}
use droidsaw_dex.Emit.Value.Refine.{emit_encoded_value-ok}

module _ (leb128 : Leb128) (writer : IsWriter leb128) (bound_count : BoundCount)
    (bounds : IsBoundCount bound_count) (bytes : List ℕ)
    (short_input : length bytes < usize_mod) where
  -- The frame at the root ends complete.
  root_array :
      (rounds start at : ℕ) (vs : Values)
      → walks leb128 bound_count bytes (suc rounds) (array_frame start 0 (push_all nil vs)) [] at
        ≡ ok (returned (array vs) at)
  unfolding frame_is_complete assemble_frame read_name
  root_array rounds start at vs =
      rw (push_all-nil vs)
        (walks_finished leb128 bound_count bytes rounds (array_frame start 0 vs) at refl refl)

  pub root_annotation :
      (rounds start at t : ℕ) (es : Elements)
      → IsAscending es
      → walks leb128 bound_count bytes
          (suc rounds)
          (annotation_frame start 0 t (insert_all end es) none)
          []
          at
        ≡ ok (returned (annotation t es) at)
  unfolding frame_is_complete assemble_frame read_name
  root_annotation rounds start at t es ascending = rw (insert_all-end es ascending) (
      walks_finished leb128 bound_count bytes rounds (annotation_frame start 0 t es none) at refl
        refl)

  parse_composite :
      (cur body at : ℕ) (root : CollectorFrame) (v : EncodedValue)
      → decode_primitive_encoded_value bytes cur ≡ ok (none, 0)
      → open_frame leb128 bound_count bytes cur ≡ ok (root, body)
      → frame_start_pos root ≡ cur
      → walks leb128 bound_count bytes (suc (length bytes)) root [] body ≡ ok (returned v at)
      → parse_encoded_value leb128 bound_count bytes cur ≡ ok (v, at - cur)
  unfolding parse_encoded_value or_composite parse_encoded_value_composite drive_collector_stack
      finish_walk
  parse_composite cur body at root v decoded opened start walked =
      rw (decoded, opened, walked, start) refl

  pub walked :
      (rounds rounds' : ℕ) (root : CollectorFrame) (cur cur' : ℕ)
      → rounds ≡ rounds'
      → cur ≡ cur'
      → walks leb128 bound_count bytes rounds root [] cur
        ≡ walks leb128 bound_count bytes rounds' root [] cur'
  walked rounds rounds' root cur cur' e f =
      same_walk leb128 writer bound_count bounds bytes short_input rounds rounds' root [] cur cur' e
        f

  -- Wherever the encoding of a value stands in an input below the machine's address space, the parser
  -- returns that value and the count of its bytes. The contents are in the range of their types, the
  -- names of every annotation ascend, and composite values stand at most 65536 deep in one another.
  pub parse_encoded_value-encode :
      (v : EncodedValue) (cur : ℕ) (rest : List ℕ)
      → IsInRange v
      → nesting v ≤ parse_stack_frame_cap
      → drop cur bytes ≡ encode leb128 v ++ rest
      → parse_encoded_value leb128 bound_count bytes cur ≡ ok (v, length (encode leb128 v))
  unfolding parse_encoded_value or_composite encode IsInRange nesting value_rounds frame_start_pos
  parse_encoded_value-encode (array vs) cur rest range room h =
      let o = array-Opens leb128 writer bound_count bounds bytes short_input cur rest vs range h in
      let few = rounds-le leb128 writer (array vs) range in
      let left = length bytes - values_rounds vs in
      let end_at = cur + length (encode leb128 (array vs)) in
      let enough : suc (length bytes) ≡ values_rounds vs + suc left =
        omega (arith, few, o.covered) in
      let consumed : end_at - cur ≡ length (encode leb128 (array vs)) = omega arith in
      parse_composite cur o.body end_at _ (array vs) o.decoded o.opened refl (
        walked _ _ _ _ _ enough refl
        ∙ values_collected leb128 writer bound_count bounds bytes short_input vs left cur nil []
            o.body rest range.1 (omega arith) o.inner
        ∙ walked _ _ _ _ _ refl o.span
        ∙ root_array left cur end_at vs)
      ∙ ap (λ n. ok (array vs, n)) consumed
  parse_encoded_value-encode (annotation t es) cur rest range room h =
      let o =
        annotation-Opens leb128 writer bound_count bounds bytes short_input cur rest t es range h in
      let few = rounds-le leb128 writer (annotation t es) range in
      let left = length bytes - elements_rounds es in
      let end_at = cur + length (encode leb128 (annotation t es)) in
      let enough : suc (length bytes) ≡ elements_rounds es + suc left =
        omega (arith, few, o.covered) in
      let consumed : end_at - cur ≡ length (encode leb128 (annotation t es)) = omega arith in
      parse_composite cur o.body end_at _ (annotation t es) o.decoded o.opened refl (
        walked _ _ _ _ _ enough refl
        ∙ elements_collected leb128 writer bound_count bounds bytes short_input es left cur t end []
            o.body rest range.3 (omega arith) o.inner
        ∙ walked _ _ _ _ _ refl o.span
        ∙ root_annotation left cur end_at t es range.2)
      ∙ ap (λ n. ok (annotation t es, n)) consumed
  parse_encoded_value-encode v cur rest range room h =
      rw (decode_primitive_encoded_value-primitive_bytes v bytes rest cur range short_input h) refl

-- What is emitted behind any bytes, and followed by any, is parsed to the value it was emitted from.
-- The conditions are those of a value that the parser can return, and the input is below the machine's
-- address space.
pub parse_encoded_value-emit_encoded_value :
    (leb128 : Leb128) (bound_count : BoundCount) (v : EncodedValue) (out out' rest : List ℕ)
    → IsWriter leb128
    → IsBoundCount bound_count
    → IsInRange v
    → nesting v ≤ parse_stack_frame_cap
    → length (out' ++ rest) < usize_mod
    → emit_encoded_value leb128 out v ≡ ok out'
    → parse_encoded_value leb128 bound_count (out' ++ rest) (length out)
      ≡ ok (v, length out' - length out)
parse_encoded_value-emit_encoded_value leb128 bound_count v out out' rest writer bounds range room
      fits h =
    let appended = emit_encoded_value-ok leb128 v out out' h in
    let counted : length out' ≡ length out + length (encode leb128 v) =
      ap length (sym appended) ∙ length-append out (encode leb128 v) in
    let stands : drop (length out) (out' ++ rest) ≡ encode leb128 v ++ rest =
      ap (λ bs. drop (length out) (bs ++ rest)) (sym appended)
      ∙ ap (drop (length out)) (append_assoc out (encode leb128 v) rest)
      ∙ drop-append out (encode leb128 v ++ rest) (length out) 0 (omega arith) in
    parse_encoded_value-encode leb128 writer bound_count bounds (out' ++ rest) fits v (length out)
      rest range room stands
    ∙ ap (λ n. ok (v, n)) (omega (arith, counted))
