-- ===== src/Annotation/Items/Arrays.antt =====
-- An encoded array that is emitted is parsed to its values.
use Prim.Native.Nat.{min}
use mathlib.Core.List.{append_assoc}
use droidsaw_dex.Prelude.{
  ℕ, ◌+◌, ◌-◌, ◌≤◌, ◌<◌, ◌≡◌, refl, sym, ap, ◌∙◌, arith, List, [], ◌∷◌, ◌++◌, length, length-append,
  drop,
}
use mathlib.Core.List.{append-nil}
use droidsaw_dex.Prelude.Errors.{ok, bind-ok, ok-eq}
use droidsaw_dex.Prelude.Words.{u32_mod, usize_mod}
use droidsaw_dex.Prelude.Positions.{drop-past, drop-covers}
use droidsaw_dex.Decode.Payload.{BoundCount}
use droidsaw_dex.Leb.{Leb128, IsWriter}
use droidsaw_dex.Annotation.Value.{Values, nil, cons, count_values}
use droidsaw_dex.Annotation.Numbers.{safe_add_lem}
use droidsaw_dex.Annotation.Walk.{parse_stack_frame_cap}
use droidsaw_dex.Annotation.Walk.Opening.{IsBoundCount, next_uleb128-write, write_uleb128-positive}
use droidsaw_dex.Annotation.Walk.Spec.{IsInRange, AreInRange, nesting, values_nesting}
use droidsaw_dex.Annotation.Walk.Sizes.{count_values-length, rounds-le, value_rounds-positive}
use droidsaw_dex.Annotation.Walk.Whole.{parse_encoded_value-encode}
use droidsaw_dex.Annotation.Items.{parse_encoded_array, read_values, payload_width}
use droidsaw_dex.Emit.Payload.{size_below}
use droidsaw_dex.Emit.Value.Spec.{encode, encode_values}
use droidsaw_dex.Emit.Value.Tasks.{emit_encoded_value}
use droidsaw_dex.Emit.Value.Refine.{emit_encoded_value-ok, size_below-ok}
use droidsaw_dex.Emit.Annotation.{emit_values, emit_encoded_array}

-- The count of the bytes that the encoding of each value has behind its first one, at most 255.
abbrev pub value_widths : Leb128 → Values → List ℕ
value_widths leb128 nil = []
value_widths leb128 (cons v vs) = min (length (encode leb128 v) - 1) 255 ∷ value_widths leb128 vs

payload_width_lem : (vlen : ℕ) → payload_width vlen ≡ min (vlen - 1) 255
unfolding payload_width
payload_width_lem vlen = ground arith

emit_values-ok :
    (leb128 : Leb128) (vs : Values) (out out' : List ℕ)
    → emit_values leb128 out vs ≡ ok out'
    → out ++ encode_values leb128 vs ≡ out'
unfolding emit_values encode
emit_values-ok leb128 nil out out' h = append-nil out ∙ ok-eq h
emit_values-ok leb128 (cons v vs) out out' h =
    let (next, emitted, rest) = bind-ok (emit_encoded_value leb128 out v) _ h in
    sym (append_assoc out (encode leb128 v) (encode_values leb128 vs))
    ∙ ap (λ bs. bs ++ encode_values leb128 vs) (emit_encoded_value-ok leb128 v out next emitted)
    ∙ emit_values-ok leb128 vs next out' rest

module _ (leb128 : Leb128) (writer : IsWriter leb128) (bound_count : BoundCount)
    (bounds : IsBoundCount bound_count) (bytes : List ℕ) (fits : length bytes < usize_mod) where
  read_values-encode_values :
      (vs : Values) (at : ℕ) (rest : List ℕ)
      → AreInRange vs
      → values_nesting vs ≤ parse_stack_frame_cap
      → drop at bytes ≡ encode_values leb128 vs ++ rest
      → read_values leb128 bound_count bytes (count_values vs) at ≡ ok (vs, value_widths leb128 vs)
  unfolding read_values count_values encode IsInRange nesting
  read_values-encode_values nil at rest range room h = refl
  read_values-encode_values (cons v vs) at rest range room h =
      let parts : drop at bytes ≡ encode leb128 v ++ (encode_values leb128 vs ++ rest) =
        h ∙ append_assoc (encode leb128 v) (encode_values leb128 vs) rest in
      let some_bytes : 1 ≤ length (encode leb128 v) =
        omega (arith, rounds-le leb128 writer v range.0, value_rounds-positive v) in
      let covered = drop-covers at bytes (encode leb128 v) _ parts some_bytes in
      rw
        (
          parse_encoded_value-encode leb128 writer bound_count bounds bytes fits v at _ range.0
              (omega arith) parts,
          safe_add_lem at (length (encode leb128 v)) (omega (arith, covered)),
          read_values-encode_values vs (at + length (encode leb128 v)) rest range.1 (omega arith)
              (drop-past at bytes (encode leb128 v) parts),
          payload_width_lem (length (encode leb128 v)),
        )
        refl

  -- An array that is emitted is parsed to its values and their widths, wherever it stands in an input
  -- below the machine's address space. The width of a value is the count of the bytes of its encoding
  -- less one, cut at 255. The values are such as the parser can return: their numbers fit their types
  -- and their nesting fits the stack of frames.
  pub parse_encoded_array-emit_encoded_array :
      (vs : Values) (at : ℕ) (out rest : List ℕ)
      → AreInRange vs
      → values_nesting vs ≤ parse_stack_frame_cap
      → emit_encoded_array leb128 vs ≡ ok out
      → drop at bytes ≡ out ++ rest
      → parse_encoded_array leb128 bound_count bytes at ≡ ok (vs, value_widths leb128 vs)
  unfolding parse_encoded_array emit_encoded_array
  parse_encoded_array-emit_encoded_array vs at out rest range room emitted h =
      let (n, sized, written) = bind-ok (size_below u32_mod (count_values vs)) _ emitted in
      let (same, lt) = size_below-ok u32_mod (count_values vs) n sized in
      let size = leb128.write_uleb128 (count_values vs) in
      let whole : size ++ encode_values leb128 vs ≡ out =
        ap (λ k. leb128.write_uleb128 k ++ encode_values leb128 vs) (sym same)
        ∙ emit_values-ok leb128 vs (leb128.write_uleb128 n) out written in
      let parts : drop at bytes ≡ size ++ (encode_values leb128 vs ++ rest) =
        h ∙ ap (λ ys. ys ++ rest) (sym whole) ∙ append_assoc size (encode_values leb128 vs) rest in
      let covered =
        drop-covers at bytes (size ++ encode_values leb128 vs) rest
          (h ∙ ap (λ ys. ys ++ rest) (sym whole))
          (omega (
            arith,
            length-append size (encode_values leb128 vs),
            write_uleb128-positive leb128 writer (count_values vs) lt,
          )) in
      rw
        (
          next_uleb128-write leb128 writer bytes fits at (count_values vs) _ lt parts,
          bounds.bound_count-fits (count_values vs) 1 (length bytes) (
              omega (
                arith,
                covered,
                length-append size (encode_values leb128 vs),
                count_values-length leb128 writer vs range,
              )),
        )
        (read_values-encode_values vs (at + length size) rest range room
          (drop-past at bytes size parts))
