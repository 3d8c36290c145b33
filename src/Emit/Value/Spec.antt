-- ===== src/Emit/Value/Spec.antt =====
-- The bytes of an encoded value by recursion on the value, and the stack of tasks that writes them.
use droidsaw_dex.Prelude.{ℕ, List, [], ◌∷◌, ◌++◌}
use droidsaw_dex.Leb.{Leb128}
use droidsaw_dex.Annotation.Value.{
  EncodedValue, Values, nil, cons, Elements, end, element, array, annotation, count_values,
  count_elements,
}
use droidsaw_dex.Emit.Value.{primitive_bytes}

unfoldable mutual
  pub encode : Leb128 → EncodedValue → List ℕ
  encode leb128 (array vs) =
      0x1c ∷ (leb128.write_uleb128 (count_values vs) ++ encode_values leb128 vs)
  encode leb128 (annotation t es) =
      0x1d
      ∷ (leb128.write_uleb128 t
          ++ (leb128.write_uleb128 (count_elements es) ++ encode_elements leb128 es))
  encode leb128 v = primitive_bytes v

  pub encode_values : Leb128 → Values → List ℕ
  encode_values leb128 nil = []
  encode_values leb128 (cons v vs) = encode leb128 v ++ encode_values leb128 vs

  pub encode_elements : Leb128 → Elements → List ℕ
  encode_elements leb128 end = []
  encode_elements leb128 (element name v es) =
      leb128.write_uleb128 name ++ (encode leb128 v ++ encode_elements leb128 es)
