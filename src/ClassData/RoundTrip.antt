-- ===== src/ClassData/RoundTrip.antt =====
-- The class data that are emitted are parsed to themselves.
use mathlib.Core.List.{append_assoc}
use droidsaw_dex.Prelude.{
  ℕ, ◌+◌, ◌-◌, ◌<◌, ◌≡◌, refl, sym, ap, ◌∙◌, arith, none, List, ◌++◌, length, length-append, drop,
}
use droidsaw_dex.Prelude.Errors.{ok, bind-ok}
use droidsaw_dex.Prelude.Words.{u32_mod, usize_mod}
use droidsaw_dex.Prelude.Positions.{drop-past, drop-length}
use droidsaw_dex.Decode.Payload.{BoundCount}
use droidsaw_dex.Leb.{Leb128, IsWriter}
use droidsaw_dex.Annotation.Walk.Opening.{IsBoundCount, next_uleb128-write}
use droidsaw_dex.ClassData.{ClassData, parse_class_data_with_consumed}
use droidsaw_dex.Emit.Payload.{size_below}
use droidsaw_dex.Emit.Value.Refine.{size_below-ok}
use droidsaw_dex.Emit.ClassData.{
  emit_encoded_field_list, emit_encoded_method_list, emit_class_data_item,
}
use droidsaw_dex.ClassData.Written.{
  AreFields, AreMethods, FieldsFrom, MethodsFrom, field_bytes, method_bytes,
  emit_encoded_field_list-ok, emit_encoded_method_list-ok,
}
use droidsaw_dex.ClassData.ReadBack.{
  length-field_bytes, length-method_bytes, read_fields-field_bytes, read_methods-method_bytes,
}

grouped :
    (a b c d e f g i rest : List ℕ)
    → ((((((((a ++ b) ++ c) ++ d) ++ e) ++ f) ++ g) ++ i) ++ rest)
      ≡ a ++ (b ++ (c ++ (d ++ (e ++ (f ++ (g ++ (i ++ rest)))))))
grouped a b c d e f g i rest = simp append_assoc

length-grouped :
    (a b c d e f g i : List ℕ)
    → length (((((((a ++ b) ++ c) ++ d) ++ e) ++ f) ++ g) ++ i)
      ≡ length a + length b + length c + length d + length e + length f + length g + length i
length-grouped a b c d e f g i = omega (
  arith,
  length-append a b,
  length-append (a ++ b) c,
  length-append ((a ++ b) ++ c) d,
  length-append (((a ++ b) ++ c) ++ d) e,
  length-append ((((a ++ b) ++ c) ++ d) ++ e) f,
  length-append (((((a ++ b) ++ c) ++ d) ++ e) ++ f) g,
  length-append ((((((a ++ b) ++ c) ++ d) ++ e) ++ f) ++ g) i,
)

-- The parts of class data, where they were emitted.
record Laid (leb128 : Leb128) (cd : ClassData) (out : List ℕ) : Type 0 where
  whole :
      (((((((leb128.write_uleb128 (length cd.static_fields)
                    ++ leb128.write_uleb128 (length cd.instance_fields))
                  ++ leb128.write_uleb128 (length cd.direct_methods))
                ++ leb128.write_uleb128 (length cd.virtual_methods))
              ++ field_bytes leb128 0 cd.static_fields)
            ++ field_bytes leb128 0 cd.instance_fields)
          ++ method_bytes leb128 0 cd.direct_methods)
        ++ method_bytes leb128 0 cd.virtual_methods)
      ≡ out
  statics : (length cd.static_fields < u32_mod) × FieldsFrom 0 cd.static_fields
  instances : (length cd.instance_fields < u32_mod) × FieldsFrom 0 cd.instance_fields
  directs : (length cd.direct_methods < u32_mod) × MethodsFrom 0 cd.direct_methods
  virtuals : (length cd.virtual_methods < u32_mod) × MethodsFrom 0 cd.virtual_methods

emit_class_data_item-Laid :
    (leb128 : Leb128) (cd : ClassData) (out : List ℕ)
    → emit_class_data_item leb128 cd.static_fields cd.instance_fields cd.direct_methods
        cd.virtual_methods
      ≡ ok out
    → Laid leb128 cd out
unfolding emit_class_data_item
emit_class_data_item-Laid leb128 cd out h =
    let (s, size_s, h1) = bind-ok (size_below u32_mod (length cd.static_fields)) _ h in
    let (i, size_i, h2) = bind-ok (size_below u32_mod (length cd.instance_fields)) _ h1 in
    let (d, size_d, h3) = bind-ok (size_below u32_mod (length cd.direct_methods)) _ h2 in
    let (v, size_v, h4) = bind-ok (size_below u32_mod (length cd.virtual_methods)) _ h3 in
    let ks = size_below-ok u32_mod (length cd.static_fields) s size_s in
    let ki = size_below-ok u32_mod (length cd.instance_fields) i size_i in
    let kd = size_below-ok u32_mod (length cd.direct_methods) d size_d in
    let kv = size_below-ok u32_mod (length cd.virtual_methods) v size_v in
    let fI = field_bytes leb128 0 cd.instance_fields in
    let mD = method_bytes leb128 0 cd.direct_methods in
    let mV = method_bytes leb128 0 cd.virtual_methods in
    let w = leb128.write_uleb128 in
    let (out1, e1, g1) =
      bind-ok (emit_encoded_field_list leb128 (((w s ++ w i) ++ w d) ++ w v) none cd.static_fields)
        _ h4 in
    let (out2, e2, g2) =
      bind-ok (emit_encoded_field_list leb128 out1 none cd.instance_fields) _ g1 in
    let (out3, e3, g3) =
      bind-ok (emit_encoded_method_list leb128 out2 none cd.direct_methods) _ g2 in
    let l1 = emit_encoded_field_list-ok leb128 cd.static_fields none _ out1 e1 in
    let l2 = emit_encoded_field_list-ok leb128 cd.instance_fields none out1 out2 e2 in
    let l3 = emit_encoded_method_list-ok leb128 cd.direct_methods none out2 out3 e3 in
    let l4 = emit_encoded_method_list-ok leb128 cd.virtual_methods none out3 out g3 in
    record {
      whole =
          rw (sym ks.0, sym ki.0, sym kd.0, sym kv.0)
            (ap (λ o. ((o ++ fI) ++ mD) ++ mV) l1.0
              ∙ ap (λ o. (o ++ mD) ++ mV) l2.0
              ∙ ap (λ o. o ++ mV) l3.0
              ∙ l4.0);
      statics = (omega (arith, ks), l1.1);
      instances = (omega (arith, ki), l2.1);
      directs = (omega (arith, kd), l3.1);
      virtuals = (omega (arith, kv), l4.1);
    }

-- The class data that are emitted, and stand anywhere in an input below the machine's address space,
-- are parsed to themselves and to the count of their bytes. All numbers are u32 and the flags are
-- valid in their scopes.
pub parse_class_data_with_consumed-emit_class_data_item :
    (leb128 : Leb128) (bound_count : BoundCount) (cd : ClassData) (bytes out rest : List ℕ) (at : ℕ)
    → IsWriter leb128
    → IsBoundCount bound_count
    → length bytes < usize_mod
    → AreFields cd.static_fields
    → AreFields cd.instance_fields
    → AreMethods cd.direct_methods
    → AreMethods cd.virtual_methods
    → emit_class_data_item leb128 cd.static_fields cd.instance_fields cd.direct_methods
        cd.virtual_methods
      ≡ ok out
    → drop at bytes ≡ out ++ rest
    → parse_class_data_with_consumed leb128 bound_count bytes at ≡ ok (cd, length out)
unfolding parse_class_data_with_consumed
parse_class_data_with_consumed-emit_class_data_item leb128 bound_count cd bytes out rest at writer
      bounds fits sf inf dm vm emitted h =
    let laid = emit_class_data_item-Laid leb128 cd out emitted in
    let a = leb128.write_uleb128 (length cd.static_fields) in
    let b = leb128.write_uleb128 (length cd.instance_fields) in
    let c = leb128.write_uleb128 (length cd.direct_methods) in
    let d = leb128.write_uleb128 (length cd.virtual_methods) in
    let fS = field_bytes leb128 0 cd.static_fields in
    let fI = field_bytes leb128 0 cd.instance_fields in
    let mD = method_bytes leb128 0 cd.direct_methods in
    let mV = method_bytes leb128 0 cd.virtual_methods in
    let at1 = at + length a in
    let at2 = at1 + length b in
    let at3 = at2 + length c in
    let at4 = at3 + length d in
    let at5 = at4 + length fS in
    let at6 = at5 + length fI in
    let at7 = at6 + length mD in
    let p0 : drop at bytes ≡ a ++ (b ++ (c ++ (d ++ (fS ++ (fI ++ (mD ++ (mV ++ rest))))))) =
      h ∙ ap (λ ys. ys ++ rest) (sym laid.whole) ∙ grouped a b c d fS fI mD mV rest in
    let p1 : drop at1 bytes ≡ b ++ (c ++ (d ++ (fS ++ (fI ++ (mD ++ (mV ++ rest)))))) =
      drop-past at bytes a p0 in
    let p2 : drop at2 bytes ≡ c ++ (d ++ (fS ++ (fI ++ (mD ++ (mV ++ rest))))) =
      drop-past at1 bytes b p1 in
    let p3 : drop at3 bytes ≡ d ++ (fS ++ (fI ++ (mD ++ (mV ++ rest)))) =
      drop-past at2 bytes c p2 in
    let p4 : drop at4 bytes ≡ fS ++ (fI ++ (mD ++ (mV ++ rest))) = drop-past at3 bytes d p3 in
    let p5 : drop at5 bytes ≡ fI ++ (mD ++ (mV ++ rest)) = drop-past at4 bytes fS p4 in
    let p6 : drop at6 bytes ≡ mD ++ (mV ++ rest) = drop-past at5 bytes fI p5 in
    let p7 : drop at7 bytes ≡ mV ++ rest = drop-past at6 bytes mD p6 in
    let consumed : at7 + length mV - at ≡ length out =
      omega (arith, length-grouped a b c d fS fI mD mV, ap length laid.whole) in
    rw
      (
        next_uleb128-write leb128 writer bytes fits at (length cd.static_fields) _ laid.statics.0
            p0,
        next_uleb128-write leb128 writer bytes fits at1 (length cd.instance_fields) _
            laid.instances.0 p1,
        next_uleb128-write leb128 writer bytes fits at2 (length cd.direct_methods) _ laid.directs.0
            p2,
        next_uleb128-write leb128 writer bytes fits at3 (length cd.virtual_methods) _
            laid.virtuals.0 p3,
        bounds.bound_count-fits (length cd.static_fields) 2 (length bytes) (
            omega (
              arith,
              length-field_bytes leb128 writer cd.static_fields 0 sf,
              drop-length at4 bytes fS _ p4,
            )),
        bounds.bound_count-fits (length cd.instance_fields) 2 (length bytes) (
            omega (
              arith,
              length-field_bytes leb128 writer cd.instance_fields 0 inf,
              drop-length at5 bytes fI _ p5,
            )),
        bounds.bound_count-fits (length cd.direct_methods) 3 (length bytes) (
            omega (
              arith,
              length-method_bytes leb128 writer cd.direct_methods 0 dm,
              drop-length at6 bytes mD _ p6,
            )),
        bounds.bound_count-fits (length cd.virtual_methods) 3 (length bytes) (
            omega (
              arith,
              length-method_bytes leb128 writer cd.virtual_methods 0 vm,
              drop-length at7 bytes mV _ p7,
            )),
        read_fields-field_bytes leb128 writer bytes fits at cd.static_fields 0 at4 _ sf
            laid.statics.1 p4,
        read_fields-field_bytes leb128 writer bytes fits at cd.instance_fields 0 at5 _ inf
            laid.instances.1 p5,
        read_methods-method_bytes leb128 writer bytes fits at cd.direct_methods 0 at6 _ dm
            laid.directs.1 p6,
        read_methods-method_bytes leb128 writer bytes fits at cd.virtual_methods 0 at7 _ vm
            laid.virtuals.1 p7,
        consumed,
      )
      refl
