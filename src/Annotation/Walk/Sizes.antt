-- ===== src/Annotation/Walk/Sizes.antt =====
-- Every value is at least one byte long, and every element two.
use droidsaw_dex.Prelude.{◌*◌, ◌≤◌, arith, ◌++◌, length, length-append}
use droidsaw_dex.Leb.{Leb128, IsWriter}
use droidsaw_dex.Annotation.Value.{
  EncodedValue, Values, nil, cons, Elements, end, element, byte, array, annotation, count_values,
  count_elements,
}
use droidsaw_dex.Annotation.Walk.Opening.{write_uleb128-positive}
use droidsaw_dex.Annotation.Walk.Spec.{
  IsInRange, AreInRange, ElementsAreInRange, value_rounds, values_rounds, elements_rounds,
}
use droidsaw_dex.Emit.Value.{primitive_bytes, sized_signed, sized_unsigned, sized}
use droidsaw_dex.Emit.Value.Spec.{encode, encode_values, encode_elements}

module _ (leb128 : Leb128) (writer : IsWriter leb128) where
  mutual
    unfolding encode value_rounds count_values count_elements primitive_bytes sized_signed
        sized_unsigned sized IsInRange

    value_rounds-le : (v : EncodedValue) → IsInRange v → value_rounds v ≤ length (encode leb128 v)
    value_rounds-le (array vs) h = omega (
      arith,
      length-append (leb128.write_uleb128 (count_values vs)) (encode_values leb128 vs),
      values_rounds-le vs h.1,
    )
    value_rounds-le (annotation t es) h = omega (
      arith,
      length-append (leb128.write_uleb128 t)
          (leb128.write_uleb128 (count_elements es) ++ encode_elements leb128 es),
      length-append (leb128.write_uleb128 (count_elements es)) (encode_elements leb128 es),
      elements_rounds-le es h.3,
    )
    value_rounds-le v h = omega arith

    values_rounds-le :
        (vs : Values) → AreInRange vs → values_rounds vs ≤ length (encode_values leb128 vs)
    values_rounds-le nil h = omega arith
    values_rounds-le (cons v vs) h = omega (
      arith,
      length-append (encode leb128 v) (encode_values leb128 vs),
      value_rounds-le v h.0,
      values_rounds-le vs h.1,
    )

    elements_rounds-le :
        (es : Elements)
        → ElementsAreInRange es
        → elements_rounds es ≤ length (encode_elements leb128 es)
    elements_rounds-le end h = omega arith
    elements_rounds-le (element name v es) h = omega (
      arith,
      length-append (leb128.write_uleb128 name) (encode leb128 v ++ encode_elements leb128 es),
      length-append (encode leb128 v) (encode_elements leb128 es),
      value_rounds-le v h.1,
      elements_rounds-le es h.2,
    )

pub value_rounds-positive : (v : EncodedValue) → 1 ≤ value_rounds v
unfolding value_rounds
value_rounds-positive (array vs) = omega arith
value_rounds-positive (annotation t es) = omega arith
value_rounds-positive v = omega arith

count_values-le : (vs : Values) → count_values vs ≤ values_rounds vs
unfolding count_values value_rounds
count_values-le nil = omega arith
count_values-le (cons v vs) = omega (arith, count_values-le vs, value_rounds-positive v)

module _ (leb128 : Leb128) (writer : IsWriter leb128) where
  pub rounds-le : (v : EncodedValue) → IsInRange v → value_rounds v ≤ length (encode leb128 v)
  rounds-le v h = value_rounds-le leb128 writer v h

  pub count_values-length :
      (vs : Values) → AreInRange vs → count_values vs ≤ length (encode_values leb128 vs)
  count_values-length vs h = omega (arith, count_values-le vs, values_rounds-le leb128 writer vs h)

  pub count_elements-length :
      (es : Elements)
      → ElementsAreInRange es
      → count_elements es * 2 ≤ length (encode_elements leb128 es)
  unfolding count_elements encode IsInRange
  count_elements-length end h = omega arith
  count_elements-length (element name v es) h = omega (
    arith,
    length-append (leb128.write_uleb128 name) (encode leb128 v ++ encode_elements leb128 es),
    length-append (encode leb128 v) (encode_elements leb128 es),
    write_uleb128-positive leb128 writer name h.0,
    value_rounds-positive v,
    value_rounds-le leb128 writer v h.1,
    count_elements-length es h.2,
  )

pub primitive_bytes-positive : (v : EncodedValue) → 1 ≤ length (primitive_bytes v)
unfolding primitive_bytes sized_signed sized_unsigned sized
primitive_bytes-positive (byte b) = omega arith
primitive_bytes-positive v = omega arith

pub elements_rounds-length :
    (leb128 : Leb128) (writer : IsWriter leb128) (es : Elements)
    → ElementsAreInRange es
    → elements_rounds es ≤ length (encode_elements leb128 es)
elements_rounds-length leb128 writer es h = elements_rounds-le leb128 writer es h
