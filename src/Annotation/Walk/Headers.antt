-- ===== src/Annotation/Walk/Headers.antt =====
-- Where the encoding of a composite value stands, its frame opens and its children follow.
use mathlib.Core.List.{append_assoc}
use droidsaw_dex.Prelude.{
  ℕ, suc, ◌+◌, ◌≤◌, ◌<◌, ◌≡◌, ap, ◌∙◌, arith, none, List, ◌∷◌, ◌++◌, length, length-append, drop,
}
use droidsaw_dex.Prelude.Errors.{ok}
use droidsaw_dex.Prelude.Words.{usize_mod}
use droidsaw_dex.Prelude.Positions.{drop-suc, drop-past, drop-covers}
use droidsaw_dex.Decode.Payload.{BoundCount}
use droidsaw_dex.Leb.{Leb128, IsWriter}
use droidsaw_dex.Annotation.Value.{
  EncodedValue, Values, nil, Elements, end, array, annotation, count_values, count_elements,
}
use droidsaw_dex.Annotation.Primitive.{decode_primitive_encoded_value}
use droidsaw_dex.Annotation.Frames.{CollectorFrame, array_frame, annotation_frame, open_frame}
use droidsaw_dex.Annotation.Walk.Opening.{
  IsBoundCount, decode_array, decode_annotation, open_frame-array, open_frame-annotation,
}
use droidsaw_dex.Annotation.Walk.Spec.{IsInRange}
use droidsaw_dex.Annotation.Walk.Sizes.{count_values-length, count_elements-length}
use droidsaw_dex.Emit.Value.Spec.{encode, encode_values, encode_elements}

-- The frame and the place of the children, whose bytes end with those of the value.
pub record Opens (leb128 : Leb128) (bound_count : BoundCount) (bytes rest : List ℕ) (cur : ℕ)
    (v : EncodedValue) (frame : CollectorFrame) (children : List ℕ) : Type 0 where
  pub body : ℕ
  pub decoded : decode_primitive_encoded_value bytes cur ≡ ok (none, 0)
  pub opened : open_frame leb128 bound_count bytes cur ≡ ok (frame, body)
  pub inner : drop body bytes ≡ children ++ rest
  pub span : body + length children ≡ cur + length (encode leb128 v)
  pub covered : cur + length (encode leb128 v) ≤ length bytes

module _ (leb128 : Leb128) (writer : IsWriter leb128) (bound_count : BoundCount)
    (bounds : IsBoundCount bound_count) (bytes : List ℕ) (short_input : length bytes < usize_mod)
    (cur : ℕ) (rest : List ℕ) where
  pub array-Opens :
      (vs : Values)
      → IsInRange (array vs)
      → drop cur bytes ≡ encode leb128 (array vs) ++ rest
      → Opens leb128 bound_count bytes rest cur
          (array vs)
          (array_frame cur (count_values vs) nil)
          (encode_values leb128 vs)
  unfolding encode IsInRange
  array-Opens vs range h =
      let size = leb128.write_uleb128 (count_values vs) in
      let vs_bytes = encode_values leb128 vs in
      let parts : drop cur bytes ≡ 0x1c ∷ (size ++ (vs_bytes ++ rest)) =
        h ∙ ap (λ ys. 0x1c ∷ ys) (append_assoc size vs_bytes rest) in
      let counted = length-append size vs_bytes in
      let covered = drop-covers cur bytes (encode leb128 (array vs)) rest h (omega arith) in
      record {
        body = suc cur + length size;
        decoded = decode_array leb128 writer bytes short_input bound_count bounds cur _ parts;
        opened =
            open_frame-array leb128 writer bytes short_input bound_count bounds cur
              (count_values vs) (vs_bytes ++ rest) range.0
              (omega (arith, counted, covered, count_values-length leb128 writer vs range.1)) parts;
        inner = drop-past (suc cur) bytes size (drop-suc cur bytes parts);
        span = omega (arith, counted);
        covered = covered;
      }

  pub annotation-Opens :
      (t : ℕ) (es : Elements)
      → IsInRange (annotation t es)
      → drop cur bytes ≡ encode leb128 (annotation t es) ++ rest
      → Opens leb128 bound_count bytes rest cur
          (annotation t es)
          (annotation_frame cur (count_elements es) t end none)
          (encode_elements leb128 es)
  unfolding encode IsInRange
  annotation-Opens t es range h =
      let t_bytes = leb128.write_uleb128 t in
      let size = leb128.write_uleb128 (count_elements es) in
      let es_bytes = encode_elements leb128 es in
      let parts : drop cur bytes ≡ 0x1d ∷ (t_bytes ++ (size ++ (es_bytes ++ rest))) =
        h
        ∙ ap (λ ys. 0x1d ∷ ys)
            (append_assoc t_bytes (size ++ es_bytes) rest
              ∙ ap (λ ys. t_bytes ++ ys) (append_assoc size es_bytes rest)) in
      let counted = length-append t_bytes (size ++ es_bytes) in
      let counted' = length-append size es_bytes in
      let covered = drop-covers cur bytes (encode leb128 (annotation t es)) rest h (omega arith) in
      record {
        body = suc cur + length t_bytes + length size;
        decoded = decode_annotation leb128 writer bytes short_input bound_count bounds cur _ parts;
        opened =
            open_frame-annotation leb128 writer bytes short_input bound_count bounds cur t
              (count_elements es) (es_bytes ++ rest) range.0 range.1
              (omega
                (arith, counted, counted', covered, count_elements-length leb128 writer es range.3))
              parts;
        inner =
            drop-past (suc cur + length t_bytes) bytes size
              (drop-past (suc cur) bytes t_bytes (drop-suc cur bytes parts));
        span = omega (arith, counted, counted');
        covered = covered;
      }
