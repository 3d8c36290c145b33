-- ===== src/Annotation/Items/Bodies.antt =====
-- An annotation item that is emitted is parsed to itself.
use mathlib.Core.List.{append_assoc, append-nil}
use droidsaw_dex.Prelude.{
  ℕ, suc, ◌+◌, ◌-◌, ◌≤◌, ◌<◌, ◌≡◌, refl, sym, ap, ◌∙◌, arith, List, [], ◌∷◌, ◌++◌, length,
  length-append, drop,
}
use droidsaw_dex.Prelude.Errors.{ok, bind-ok, ok-eq}
use droidsaw_dex.Prelude.Words.{u32_mod, usize_mod}
use droidsaw_dex.Prelude.Positions.{drop-suc, drop-past, drop-covers, drop-within}
use droidsaw_dex.Decode.Payload.{BoundCount}
use droidsaw_dex.Leb.{Leb128, IsWriter}
use droidsaw_dex.Annotation.Value.{Elements, end, element, annotation, count_elements}
use droidsaw_dex.Annotation.Numbers.{safe_add_lem, pread_u8-drop}
use droidsaw_dex.Annotation.Frames.{frame_start_pos}
use droidsaw_dex.Annotation.Walk.{
  parse_stack_frame_cap, parse_encoded_annotation, drive_collector_stack, finish_walk,
  as_annotation,
}
use droidsaw_dex.Annotation.Walk.Opening.{
  IsBoundCount, open_annotation-write, write_uleb128-positive,
}
use droidsaw_dex.Annotation.Walk.Spec.{IsInRange, elements_nesting, elements_rounds}
use droidsaw_dex.Annotation.Walk.Sizes.{count_elements-length, elements_rounds-length}
use droidsaw_dex.Annotation.Walk.Children.{elements_collected}
use droidsaw_dex.Annotation.Walk.Whole.{root_annotation, walked}
use droidsaw_dex.Annotation.Items.{AnnotationItem, parse_annotation_item}
use droidsaw_dex.Emit.Payload.{size_below}
use droidsaw_dex.Emit.Value.Spec.{encode, encode_elements}
use droidsaw_dex.Emit.Value.Tasks.{emit_encoded_value}
use droidsaw_dex.Emit.Value.Refine.{emit_encoded_value-ok, size_below-ok}
use droidsaw_dex.Emit.Annotation.{
  emit_elements, emit_encoded_annotation, emit_annotation_item_bytes,
}

-- The bytes of an annotation without the header of a value.
abbrev body_bytes : Leb128 → ℕ → Elements → List ℕ
body_bytes leb128 t es =
    leb128.write_uleb128 t
    ++ (leb128.write_uleb128 (count_elements es) ++ encode_elements leb128 es)

emit_elements-ok :
    (leb128 : Leb128) (es : Elements) (out out' : List ℕ)
    → emit_elements leb128 out es ≡ ok out'
    → out ++ encode_elements leb128 es ≡ out'
unfolding emit_elements encode
emit_elements-ok leb128 end out out' h = append-nil out ∙ ok-eq h
emit_elements-ok leb128 (element name v es) out out' h =
    let named = out ++ leb128.write_uleb128 name in
    let (next, emitted, rest) = bind-ok (emit_encoded_value leb128 named v) _ h in
    sym
      (append_assoc out (leb128.write_uleb128 name) (encode leb128 v ++ encode_elements leb128 es))
    ∙ sym (append_assoc named (encode leb128 v) (encode_elements leb128 es))
    ∙ ap (λ bs. bs ++ encode_elements leb128 es) (emit_encoded_value-ok leb128 v named next emitted)
    ∙ emit_elements-ok leb128 es next out' rest

emit_encoded_annotation-ok :
    (leb128 : Leb128) (t : ℕ) (es : Elements) (out out' : List ℕ)
    → emit_encoded_annotation leb128 out (t, es) ≡ ok out'
    → (out ++ body_bytes leb128 t es ≡ out') × (count_elements es < u32_mod)
unfolding emit_encoded_annotation
emit_encoded_annotation-ok leb128 t es out out' h =
    let (n, sized, written) = bind-ok (size_below u32_mod (count_elements es)) _ h in
    let (same, lt) = size_below-ok u32_mod (count_elements es) n sized in
    let t_bytes = leb128.write_uleb128 t in
    (
      ap (λ k. out ++ (t_bytes ++ (leb128.write_uleb128 k ++ encode_elements leb128 es))) (sym same)
          ∙ sym (append_assoc out t_bytes (leb128.write_uleb128 n ++ encode_elements leb128 es))
          ∙ sym (append_assoc (out ++ t_bytes) (leb128.write_uleb128 n) (encode_elements leb128 es))
          ∙ emit_elements-ok leb128 es _ out' written,
      lt,
    )

module _ (leb128 : Leb128) (writer : IsWriter leb128) (bound_count : BoundCount)
    (bounds : IsBoundCount bound_count) (bytes : List ℕ) (fits : length bytes < usize_mod) where
  parse_encoded_annotation-body_bytes :
      (t cur : ℕ) (es : Elements) (rest : List ℕ)
      → IsInRange (annotation t es)
      → suc (elements_nesting es) ≤ parse_stack_frame_cap
      → drop cur bytes ≡ body_bytes leb128 t es ++ rest
      → parse_encoded_annotation leb128 bound_count bytes cur
        ≡ ok ((t, es), length (body_bytes leb128 t es))
  unfolding parse_encoded_annotation drive_collector_stack finish_walk as_annotation frame_start_pos
      IsInRange
  parse_encoded_annotation-body_bytes t cur es rest range room h =
      let t_bytes = leb128.write_uleb128 t in
      let size = leb128.write_uleb128 (count_elements es) in
      let es_bytes = encode_elements leb128 es in
      let body = cur + length t_bytes + length size in
      let parts : drop cur bytes ≡ t_bytes ++ (size ++ (es_bytes ++ rest)) =
        h
        ∙ append_assoc t_bytes (size ++ es_bytes) rest
        ∙ ap (λ ys. t_bytes ++ ys) (append_assoc size es_bytes rest) in
      let inner : drop body bytes ≡ es_bytes ++ rest =
        drop-past (cur + length t_bytes) bytes size (drop-past cur bytes t_bytes parts) in
      let counted = length-append t_bytes (size ++ es_bytes) in
      let counted' = length-append size es_bytes in
      let covered =
        drop-covers cur bytes (body_bytes leb128 t es) rest h
          (omega (arith, counted, write_uleb128-positive leb128 writer t range.0)) in
      let few = elements_rounds-length leb128 writer es range.3 in
      let left = length bytes - elements_rounds es in
      let end_at = body + length es_bytes in
      let enough : suc (length bytes) ≡ elements_rounds es + suc left =
        omega (arith, few, counted, counted', covered) in
      let consumed : end_at - cur ≡ length (body_bytes leb128 t es) =
        omega (arith, counted, counted') in
      let collected =
        walked leb128 writer bound_count bounds bytes fits _ _ _ _ _ enough refl
        ∙ elements_collected leb128 writer bound_count bounds bytes fits es left cur t end [] body
            rest range.3 (omega arith) inner
        ∙ root_annotation leb128 writer bound_count bounds bytes fits left cur end_at t es
            range.2 in
      rw
        (
          open_annotation-write leb128 writer bytes fits bound_count bounds cur cur cur t
              (count_elements es) (es_bytes ++ rest) range.0 range.1
              (omega
                (arith, counted, counted', covered, count_elements-length leb128 writer es range.3))
              parts,
          collected,
          consumed,
        )
        refl

  -- An annotation item that is emitted is parsed to itself, wherever it stands in an input below the
  -- machine's address space. Its annotation is one that the parser can return.
  pub parse_annotation_item-emit_annotation_item_bytes :
      (item : AnnotationItem) (at : ℕ) (out rest : List ℕ)
      → IsInRange (annotation item.annotation.0 item.annotation.1)
      → suc (elements_nesting item.annotation.1) ≤ parse_stack_frame_cap
      → emit_annotation_item_bytes leb128 item ≡ ok out
      → drop at bytes ≡ out ++ rest
      → parse_annotation_item leb128 bound_count bytes at ≡ ok item
  unfolding parse_annotation_item emit_annotation_item_bytes
  parse_annotation_item-emit_annotation_item_bytes item at out rest range room emitted h =
      let (t, es) = item.annotation in
      let laid = (emit_encoded_annotation-ok leb128 t es (item.visibility ∷ []) out emitted).0 in
      let parts : drop at bytes ≡ item.visibility ∷ (body_bytes leb128 t es ++ rest) =
        h ∙ ap (λ ys. ys ++ rest) (sym laid) in
      let after : at + 1 ≡ suc at = omega arith in
      rw
        (
          pread_u8-drop bytes at parts,
          safe_add_lem at 1 (omega (arith, drop-within at bytes parts)),
          after,
          parse_encoded_annotation-body_bytes t (suc at) es rest range room
              (drop-suc at bytes parts),
        )
        refl
