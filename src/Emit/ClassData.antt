-- ===== src/Emit/ClassData.antt =====
-- src/emit_dex.rs: the fields and methods of a class, with their indices as differences.
use droidsaw_dex.Prelude.{
  ℕ, ◌-◌, Option, none, some, List, [], ◌∷◌, ◌++◌, length, ltb, if◌then◌else◌,
}
use droidsaw_dex.Prelude.Errors.{ok, err, ◌>>=◌}
use droidsaw_dex.Prelude.Words.{u32_mod}
use droidsaw_dex.Leb.{Leb128}
use droidsaw_dex.ClassData.{EncodedField, EncodedMethod}
use droidsaw_dex.Emit.Operands.{Emitted, unrepresentable_ir}
use droidsaw_dex.Emit.Payload.{size_below}

-- `idx.checked_sub(p).filter(|d| *d > 0)`
unfoldable pub idx_diff : Option ℕ → ℕ → Emitted ℕ
idx_diff none idx = ok idx
idx_diff (some p) idx = if ltb p idx then ok (idx - p) else err unrepresentable_ir

module _ (leb128 : Leb128) where
  unfoldable pub emit_encoded_field_list : List ℕ → Option ℕ → List EncodedField → Emitted (List ℕ)
  emit_encoded_field_list out prev [] = ok out
  emit_encoded_field_list out prev (f ∷ fs) = do
    diff ← idx_diff prev f.field_idx
    emit_encoded_field_list
        ((out ++ leb128.write_uleb128 diff) ++ leb128.write_uleb128 f.access_flags)
        (some f.field_idx) fs

  unfoldable pub emit_encoded_method_list :
      List ℕ → Option ℕ → List EncodedMethod → Emitted (List ℕ)
  emit_encoded_method_list out prev [] = ok out
  emit_encoded_method_list out prev (m ∷ ms) = do
    diff ← idx_diff prev m.method_idx
    emit_encoded_method_list
        (((out ++ leb128.write_uleb128 diff) ++ leb128.write_uleb128 m.access_flags)
          ++ leb128.write_uleb128 m.code_off)
        (some m.method_idx) ms

  unfoldable pub emit_class_data_item :
      List EncodedField
      → List EncodedField
      → List EncodedMethod
      → List EncodedMethod
      → Emitted (List ℕ)
  emit_class_data_item static_fields instance_fields direct_methods virtual_methods = do
    static_sz ← size_below u32_mod (length static_fields)
    instance_sz ← size_below u32_mod (length instance_fields)
    direct_sz ← size_below u32_mod (length direct_methods)
    virtual_sz ← size_below u32_mod (length virtual_methods)
    out1 ←
        emit_encoded_field_list
          (((leb128.write_uleb128 static_sz ++ leb128.write_uleb128 instance_sz)
              ++ leb128.write_uleb128 direct_sz)
            ++ leb128.write_uleb128 virtual_sz)
          none static_fields
    out2 ← emit_encoded_field_list out1 none instance_fields
    out3 ← emit_encoded_method_list out2 none direct_methods
    emit_encoded_method_list out3 none virtual_methods
