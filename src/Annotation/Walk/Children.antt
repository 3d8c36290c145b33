-- ===== src/Annotation/Walk/Children.antt =====
-- The loop collects the children of a composite value, where that value was emitted.
use mathlib.Core.List.{append_assoc}
use droidsaw_dex.Prelude.{
  ℕ, suc, ◌+◌, ◌-◌, ◌≤◌, ◌<◌, ◌≡◌, refl, sym, ◌∙◌, arith, none, some, List, ◌∷◌, ◌++◌, length,
  length-append, drop, ap₂,
}
use droidsaw_dex.Prelude.Errors.{◌>>=◌}
use droidsaw_dex.Prelude.Words.{u32_mod, usize_mod}
use droidsaw_dex.Prelude.Positions.{drop-past, drop-covers}
use droidsaw_dex.Decode.Payload.{BoundCount}
use droidsaw_dex.Leb.{Leb128, IsWriter}
use droidsaw_dex.Annotation.Value.{
  EncodedValue, Values, nil, cons, Elements, end, element, array, annotation, count_values,
  count_elements, push_value, insert_element,
}
use droidsaw_dex.Annotation.RoundTrip.{IsPrimitive, decode_primitive_encoded_value-primitive_bytes}
use droidsaw_dex.Annotation.Frames.{
  CollectorFrame, array_frame, annotation_frame, read_name, put_child, deliver_to_top,
  assemble_frame, frame_is_complete,
}
use droidsaw_dex.Annotation.Walk.{parse_stack_frame_cap}
use droidsaw_dex.Annotation.Walk.Steps.{
  Waits, walks, walks_named, walks_delivered, walks_value, walks_opened,
}
use droidsaw_dex.Annotation.Walk.Opening.{IsBoundCount, next_uleb128-write}
use droidsaw_dex.Annotation.Walk.Spec.{
  IsAscending, IsInRange, AreInRange, ElementsAreInRange, nesting, values_nesting, elements_nesting,
  value_rounds, values_rounds, elements_rounds, push_all, insert_all, push_all-nil, insert_all-end,
}
use droidsaw_dex.Annotation.Walk.Headers.{array-Opens, annotation-Opens}
use droidsaw_dex.Annotation.Walk.Sizes.{primitive_bytes-positive}
use droidsaw_dex.Emit.Value.{primitive_bytes}
use droidsaw_dex.Emit.Value.Spec.{encode, encode_values, encode_elements}

module _ (leb128 : Leb128) (writer : IsWriter leb128) (bound_count : BoundCount)
    (bounds : IsBoundCount bound_count) (bytes : List ℕ)
    (short_input : length bytes < usize_mod) where
  pub same_walk :
      (rounds rounds' : ℕ) (top : CollectorFrame) (stack : List CollectorFrame) (cur cur' : ℕ)
      → rounds ≡ rounds'
      → cur ≡ cur'
      → walks leb128 bound_count bytes rounds top stack cur
        ≡ walks leb128 bound_count bytes rounds' top stack cur'
  same_walk rounds rounds' top stack cur cur' e f =
      ap₂ (λ n at. walks leb128 bound_count bytes n top stack at) e f

  module _ (start k : ℕ) (stack : List CollectorFrame) (rounds : ℕ) where
    array_took :
        (children : Values) (v : EncodedValue) (at : ℕ)
        → (deliver_to_top leb128 bytes (array_frame start (suc k) children) at v >>= λ (top, cur).
            walks leb128 bound_count bytes (suc rounds) top stack cur)
          ≡ walks leb128 bound_count bytes
              (suc rounds)
              (array_frame start k (push_value children v))
              stack
              at
    unfolding deliver_to_top put_child read_name
    array_took children v at = let one_less : suc k - 1 ≡ k = omega arith in rw one_less refl

    annotation_took :
        (t name : ℕ) (elements : Elements) (v : EncodedValue) (at : ℕ)
        → (deliver_to_top leb128 bytes (annotation_frame start (suc k) t elements (some name)) at v
            >>= λ (top, cur). walks leb128 bound_count bytes (suc rounds) top stack cur)
          ≡ walks leb128 bound_count bytes
              (suc rounds)
              (annotation_frame start k t (insert_element name v elements) none)
              stack
              at
    unfolding deliver_to_top put_child
    annotation_took t name elements v at =
        let one_less : suc k - 1 ≡ k = omega arith in
        rw one_less (
          sym (
            walks_named leb128 bound_count bytes rounds stack
              (annotation_frame start k t (insert_element name v elements) none) at))

    annotation_named :
        (t name : ℕ) (elements : Elements) (cur : ℕ) (rest : List ℕ)
        → name < u32_mod
        → drop cur bytes ≡ leb128.write_uleb128 name ++ rest
        → walks leb128 bound_count bytes
            (suc rounds)
            (annotation_frame start (suc k) t elements none)
            stack
            cur
          ≡ walks leb128 bound_count bytes
              (suc rounds)
              (annotation_frame start (suc k) t elements (some name))
              stack
              (cur + length (leb128.write_uleb128 name))
    unfolding read_name
    annotation_named t name elements cur rest lt h =
        walks_named leb128 bound_count bytes rounds stack
          (annotation_frame start (suc k) t elements none) cur
        ∙ rw (next_uleb128-write leb128 writer bytes short_input cur name rest lt h) refl

  module _ (rounds : ℕ) (top : CollectorFrame) (stack : List CollectorFrame) (start at : ℕ) where
    array_done :
        (vs : Values)
        → walks leb128 bound_count bytes
            (suc rounds)
            (array_frame start 0 (push_all nil vs))
            (top ∷ stack)
            at
          ≡ (deliver_to_top leb128 bytes top at (array vs) >>= λ (top', cur').
              walks leb128 bound_count bytes (suc rounds) top' stack cur')
    unfolding frame_is_complete assemble_frame read_name
    array_done vs = rw (push_all-nil vs) (
        walks_delivered leb128 bound_count bytes rounds (array_frame start 0 vs) at top stack refl
          refl)

    annotation_done :
        (t : ℕ) (es : Elements)
        → IsAscending es
        → walks leb128 bound_count bytes
            (suc rounds)
            (annotation_frame start 0 t (insert_all end es) none)
            (top ∷ stack)
            at
          ≡ (deliver_to_top leb128 bytes top at (annotation t es) >>= λ (top', cur').
              walks leb128 bound_count bytes (suc rounds) top' stack cur')
    unfolding frame_is_complete assemble_frame read_name
    annotation_done t es ascending = rw (insert_all-end es ascending) (
        walks_delivered leb128 bound_count bytes rounds (annotation_frame start 0 t es none) at top
          stack refl refl)

  -- The value is delivered to the top of the stack.
  Delivered : ℕ → ℕ → EncodedValue → CollectorFrame → List CollectorFrame → ℕ → ℕ → Type 0
  Delivered before after v top stack cur cur' =
      walks leb128 bound_count bytes before top stack cur ≡ (
        deliver_to_top leb128 bytes top cur' v >>= λ (top', at).
        walks leb128 bound_count bytes after top' stack at)

  primitive-Delivered :
      (v : EncodedValue) (rounds : ℕ) (top : CollectorFrame) (stack : List CollectorFrame) (cur : ℕ)
      (rest : List ℕ)
      → IsPrimitive v
      → Waits top
      → drop cur bytes ≡ primitive_bytes v ++ rest
      → Delivered (1 + suc rounds) (suc rounds) v top stack cur (cur + length (primitive_bytes v))
  unfolding Delivered
  primitive-Delivered v rounds top stack cur rest range waits h =
      let decoded =
        decode_primitive_encoded_value-primitive_bytes v bytes rest cur range short_input h in
      let next : 1 + suc rounds ≡ suc (suc rounds) = omega arith in
      rw next (
        walks_value leb128 bound_count bytes (suc rounds) top cur stack v
          (length (primitive_bytes v)) waits decoded
          (omega
            (arith, drop-covers cur bytes (primitive_bytes v) rest h (primitive_bytes-positive v))))

  mutual
    unfolding encode value_rounds count_values count_elements IsInRange nesting Delivered

    value-Delivered :
        (v : EncodedValue) (rounds : ℕ) (top : CollectorFrame) (stack : List CollectorFrame)
        (cur : ℕ) (rest : List ℕ)
        → IsInRange v
        → Waits top
        → suc (length stack) + nesting v ≤ parse_stack_frame_cap
        → drop cur bytes ≡ encode leb128 v ++ rest
        → Delivered
            (value_rounds v + suc rounds)
            (suc rounds)
            v
            top
            stack
            cur
            (cur + length (encode leb128 v))
    value-Delivered (array vs) rounds top stack cur rest range waits room h =
        let o =
          array-Opens leb128 writer bound_count bounds bytes short_input cur rest vs range h in
        same_walk _ _ _ stack _ _ (omega arith) refl
        ∙ walks_opened leb128 bound_count bytes (values_rounds vs + suc rounds) top cur stack _
            o.body waits o.decoded (omega arith) o.opened
        ∙ values_collected vs rounds cur nil (top ∷ stack) o.body rest range.1 (omega arith) o.inner
        ∙ same_walk _ _ _ (top ∷ stack) _ _ refl o.span
        ∙ array_done rounds top stack cur (cur + length (encode leb128 (array vs))) vs
    value-Delivered (annotation t es) rounds top stack cur rest range waits room h =
        let o =
          annotation-Opens leb128 writer bound_count bounds bytes short_input cur rest t es range
            h in
        same_walk _ _ _ stack _ _ (omega arith) refl
        ∙ walks_opened leb128 bound_count bytes (elements_rounds es + suc rounds) top cur stack _
            o.body waits o.decoded (omega arith) o.opened
        ∙ elements_collected es rounds cur t end (top ∷ stack) o.body rest range.3 (omega arith)
            o.inner
        ∙ same_walk _ _ _ (top ∷ stack) _ _ refl o.span
        ∙ annotation_done rounds top stack cur (cur + length (encode leb128 (annotation t es))) t es
            range.2
    value-Delivered v rounds top stack cur rest range waits room h =
        primitive-Delivered v rounds top stack cur rest range waits h

    pub values_collected :
        (vs : Values) (rounds start : ℕ) (children : Values) (stack : List CollectorFrame) (cur : ℕ)
        (rest : List ℕ)
        → AreInRange vs
        → suc (length stack) + values_nesting vs ≤ parse_stack_frame_cap
        → drop cur bytes ≡ encode_values leb128 vs ++ rest
        → walks leb128 bound_count bytes
            (values_rounds vs + suc rounds)
            (array_frame start (count_values vs) children)
            stack
            cur
          ≡ walks leb128 bound_count bytes
              (suc rounds)
              (array_frame start 0 (push_all children vs))
              stack
              (cur + length (encode_values leb128 vs))
    values_collected nil rounds start children stack cur rest range room h =
        same_walk _ _ _ stack _ _ (omega arith) (omega arith)
    values_collected (cons v vs) rounds start children stack cur rest range room h =
        let parts : drop cur bytes ≡ encode leb128 v ++ (encode_values leb128 vs ++ rest) =
          h ∙ append_assoc (encode leb128 v) (encode_values leb128 vs) rest in
        let counted = length-append (encode leb128 v) (encode_values leb128 vs) in
        same_walk _ _ _ stack _ _ (omega arith) refl
        ∙ value-Delivered v (values_rounds vs + rounds)
            (array_frame start (suc (count_values vs)) children) stack cur
            (encode_values leb128 vs ++ rest) range.0 (omega arith) (omega arith) parts
        ∙ array_took start (count_values vs) stack (values_rounds vs + rounds) children v
            (cur + length (encode leb128 v))
        ∙ same_walk _ _ _ stack _ _ (omega arith) refl
        ∙ values_collected vs rounds start (push_value children v) stack
            (cur + length (encode leb128 v)) rest range.1 (omega arith)
            (drop-past cur bytes (encode leb128 v) parts)
        ∙ same_walk _ _ _ stack _ _ refl (omega (arith, counted))

    pub elements_collected :
        (es : Elements) (rounds start t : ℕ) (elements : Elements) (stack : List CollectorFrame)
        (cur : ℕ) (rest : List ℕ)
        → ElementsAreInRange es
        → suc (length stack) + elements_nesting es ≤ parse_stack_frame_cap
        → drop cur bytes ≡ encode_elements leb128 es ++ rest
        → walks leb128 bound_count bytes
            (elements_rounds es + suc rounds)
            (annotation_frame start (count_elements es) t elements none)
            stack
            cur
          ≡ walks leb128 bound_count bytes
              (suc rounds)
              (annotation_frame start 0 t (insert_all elements es) none)
              stack
              (cur + length (encode_elements leb128 es))
    elements_collected end rounds start t elements stack cur rest range room h =
        same_walk _ _ _ stack _ _ (omega arith) (omega arith)
    elements_collected (element name v es) rounds start t elements stack cur rest range room h =
        let name_bytes = leb128.write_uleb128 name in
        let v_bytes = encode leb128 v in
        let es_bytes = encode_elements leb128 es in
        let named : drop cur bytes ≡ name_bytes ++ ((v_bytes ++ es_bytes) ++ rest) =
          h ∙ append_assoc name_bytes (v_bytes ++ es_bytes) rest in
        let at = cur + length name_bytes in
        let parts : drop at bytes ≡ v_bytes ++ (es_bytes ++ rest) =
          drop-past cur bytes name_bytes named ∙ append_assoc v_bytes es_bytes rest in
        let counted = length-append name_bytes (v_bytes ++ es_bytes) in
        let counted' = length-append v_bytes es_bytes in
        let later = elements_rounds es + rounds in
        same_walk _ _ _ stack _ _ (omega arith) refl
        ∙ annotation_named start (count_elements es) stack (value_rounds v + later) t name elements
            cur ((v_bytes ++ es_bytes) ++ rest) range.0 named
        ∙ same_walk _ _ _ stack _ _ (omega arith) refl
        ∙ value-Delivered v later
            (annotation_frame start (suc (count_elements es)) t elements (some name)) stack at
            (es_bytes ++ rest) range.1 tt (omega arith) parts
        ∙ annotation_took start (count_elements es) stack later t name elements v
            (at + length v_bytes)
        ∙ same_walk _ _ _ stack _ _ (omega arith) refl
        ∙ elements_collected es rounds start t (insert_element name v elements) stack
            (at + length v_bytes) rest range.2 (omega arith) (drop-past at bytes v_bytes parts)
        ∙ same_walk _ _ _ stack _ _ refl (omega (arith, counted, counted'))
