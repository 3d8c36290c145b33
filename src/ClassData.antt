-- ===== src/ClassData.antt =====
-- src/decode.rs: the fields and methods of a class, and src/access_flags.rs.
pub mod Written
pub mod ReadBack
pub mod RoundTrip
use Prim.Native.Nat.{bit_and}
use droidsaw_dex.Prelude.{ℕ, zero, suc, ◌+◌, ◌-◌, List, [], ◌∷◌, length, ltb, ◌==◌, if◌then◌else◌}
use droidsaw_dex.Prelude.Errors.{ok, err, ◌>>=◌}
use droidsaw_dex.Prelude.Words.{u32_mod}
use droidsaw_dex.Decode.Reader.{Res, invalid_instruction, invalid_access_flags}
use droidsaw_dex.Decode.Payload.{BoundCount}
use droidsaw_dex.Leb.{Leb128, next_uleb128}

pub data AccessFlagScope : Type 0 where
  class field method : AccessFlagScope

abbrev pub mask : AccessFlagScope → ℕ
mask class = 0x0000_761f
mask field = 0x0000_50df
mask method = 0x0003_1dff

unfoldable pub validate : ℕ → AccessFlagScope → Res ℕ
validate raw scope =
    if bit_and raw (u32_mod - 1 - mask scope) == 0
    then ok raw
    else err (invalid_access_flags raw (mask scope))

pub record EncodedField : Type 0 where
  pub field_idx : ℕ
  pub access_flags : ℕ

pub record EncodedMethod : Type 0 where
  pub method_idx : ℕ
  pub access_flags : ℕ
  pub code_off : ℕ

pub record ClassData : Type 0 where
  pub static_fields : List EncodedField
  pub instance_fields : List EncodedField
  pub direct_methods : List EncodedMethod
  pub virtual_methods : List EncodedMethod

-- `acc.checked_add(diff)`
unfoldable pub next_idx : ℕ → ℕ → ℕ → Res ℕ
next_idx off acc diff =
    if ltb (acc + diff) u32_mod then ok (acc + diff) else err (invalid_instruction off)

module _ (leb128 : Leb128) (bytes : List ℕ) (off : ℕ) where
  -- The loop over the fields of one kind, from the index before them
  unfoldable pub read_fields : ℕ → ℕ → ℕ → Res (List EncodedField × ℕ)
  read_fields zero acc pos = ok ([], pos)
  read_fields (suc n) acc pos = do
    (diff, pos1) ← next_uleb128 leb128 bytes pos
    idx ← next_idx off acc diff
    (raw, pos2) ← next_uleb128 leb128 bytes pos1
    flags ← validate raw field
    (rest, pos') ← read_fields n idx pos2
    ok (record { field_idx = idx; access_flags = flags } ∷ rest, pos')

  unfoldable pub read_methods : ℕ → ℕ → ℕ → Res (List EncodedMethod × ℕ)
  read_methods zero acc pos = ok ([], pos)
  read_methods (suc n) acc pos = do
    (diff, pos1) ← next_uleb128 leb128 bytes pos
    idx ← next_idx off acc diff
    (raw, pos2) ← next_uleb128 leb128 bytes pos1
    flags ← validate raw method
    (code_off, pos3) ← next_uleb128 leb128 bytes pos2
    (rest, pos') ← read_methods n idx pos3
    ok (record { method_idx = idx; access_flags = flags; code_off = code_off } ∷ rest, pos')

unfoldable pub parse_class_data_with_consumed :
    Leb128 → BoundCount → List ℕ → ℕ → Res (ClassData × ℕ)
parse_class_data_with_consumed leb128 bound_count bytes start = do
  (statics, pos1) ← next_uleb128 leb128 bytes start
  (instances, pos2) ← next_uleb128 leb128 bytes pos1
  (directs, pos3) ← next_uleb128 leb128 bytes pos2
  (virtuals, pos4) ← next_uleb128 leb128 bytes pos3
  static_fields_size ← bound_count statics 2 (length bytes)
  instance_fields_size ← bound_count instances 2 (length bytes)
  direct_methods_size ← bound_count directs 3 (length bytes)
  virtual_methods_size ← bound_count virtuals 3 (length bytes)
  (static_fields, pos5) ← read_fields leb128 bytes start static_fields_size 0 pos4
  (instance_fields, pos6) ← read_fields leb128 bytes start instance_fields_size 0 pos5
  (direct_methods, pos7) ← read_methods leb128 bytes start direct_methods_size 0 pos6
  (virtual_methods, pos8) ← read_methods leb128 bytes start virtual_methods_size 0 pos7
  ok (
    record {
      static_fields = static_fields;
      instance_fields = instance_fields;
      direct_methods = direct_methods;
      virtual_methods = virtual_methods;
    },
    pos8 - start,
  )

unfoldable pub parse_class_data : Leb128 → BoundCount → List ℕ → ℕ → Res ClassData
parse_class_data leb128 bound_count bytes start = do
  (cd, consumed) ← parse_class_data_with_consumed leb128 bound_count bytes start
  ok cd
