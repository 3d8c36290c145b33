-- ===== src/Tests/Classes.antt =====
-- Class data on concrete bytes.
use droidsaw_dex.Prelude.{ℕ, ◌≡◌, refl, arith, List, [], ◌∷◌, ◌++◌}
use droidsaw_dex.Prelude.Errors.{ok}
use droidsaw_dex.ClassData.{ClassData, validate, parse_class_data_with_consumed}
use droidsaw_dex.ClassData.RoundTrip.{parse_class_data_with_consumed-emit_class_data_item}
use droidsaw_dex.Emit.Payload.{size_below}
use droidsaw_dex.Emit.ClassData.{
  emit_class_data_item, emit_encoded_field_list, emit_encoded_method_list, idx_diff,
}
use droidsaw_dex.Tests.Samples.{
  sample_leb128, sample_leb128-IsWriter, sample_bound_count, sample_bound_count-IsBoundCount,
}

abbrev sample_class : ClassData
sample_class = record {
  static_fields =
      record { field_idx = 3; access_flags = 0x19 }
      ∷ record { field_idx = 5; access_flags = 0x1 }
      ∷ [];
  instance_fields = [];
  direct_methods = record { method_idx = 0; access_flags = 0x1_0001; code_off = 0x123 } ∷ [];
  virtual_methods =
      record { method_idx = 4; access_flags = 0x1; code_off = 0 }
      ∷ record { method_idx = 9; access_flags = 0x11; code_off = 0x7f }
      ∷ [];
}

abbrev sample_class_bytes : List ℕ
sample_class_bytes =
    2 ∷ 0 ∷ 1 ∷ 2 ∷ 3 ∷ 0x19 ∷ 2 ∷ 1 ∷ 0 ∷ 0x81 ∷ 0x80 ∷ 4 ∷ 0xa3 ∷ 2 ∷ 4 ∷ 1 ∷ 0 ∷ 5 ∷ 0x11 ∷ 0x7f
    ∷ []

sample_class_emitted :
    emit_class_data_item sample_leb128 sample_class.static_fields sample_class.instance_fields
      sample_class.direct_methods sample_class.virtual_methods
    ≡ ok sample_class_bytes
unfolding emit_class_data_item emit_encoded_field_list emit_encoded_method_list idx_diff size_below
sample_class_emitted = refl

parse_class_data_with_consumed-emit_class_data_item_example :
    parse_class_data_with_consumed sample_leb128 sample_bound_count
      (7 ∷ [] ++ (sample_class_bytes ++ 9 ∷ []))
      1
    ≡ ok (sample_class, 20)
unfolding validate
parse_class_data_with_consumed-emit_class_data_item_example =
    parse_class_data_with_consumed-emit_class_data_item sample_leb128 sample_bound_count
      sample_class (7 ∷ [] ++ (sample_class_bytes ++ 9 ∷ [])) sample_class_bytes (9 ∷ []) 1
      sample_leb128-IsWriter sample_bound_count-IsBoundCount (omega arith)
      ((omega arith, omega arith, refl), ((omega arith, omega arith, refl), tt)) tt
      ((omega arith, omega arith, omega arith, refl), tt)
      (
        (omega arith, omega arith, omega arith, refl),
        ((omega arith, omega arith, omega arith, refl), tt),
      )
      sample_class_emitted refl
