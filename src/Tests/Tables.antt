-- ===== src/Tests/Tables.antt =====
-- The payloads of switches and of array data.
use droidsaw_dex.Prelude.{ℕ, ◌*◌, ◌≡◌, refl, arith, List, [], ◌∷◌, ◌++◌}
use droidsaw_dex.Prelude.Int.{pos, negsuc, ◌-ℤ◌}
use droidsaw_dex.Prelude.Errors.{ok}
use droidsaw_dex.Decode.Item.{packed_switch, sparse_switch, fill_array_data}
use droidsaw_dex.Decode.Payload.{
  BoundCount, decode_packed_switch, decode_sparse_switch, is_width, decode_fill_array_data,
}
use droidsaw_dex.Decode.Reader.{bound_count_exceeded}
use droidsaw_dex.Emit.Operands.{branch_i32, push_u16}
use droidsaw_dex.Emit.Payload.{
  pad_unit, emit_fill_array_data_payload, emit_packed_switch_payload, emit_sparse_switch_payload,
  push_keys, push_targets, push_u32, size_below,
}
use droidsaw_dex.Emit.Tables.PackedSwitch.{
  PassesCounts, decode_packed_switch-emit_packed_switch_payload,
}
use droidsaw_dex.Emit.Tables.SparseSwitch.{decode_sparse_switch-emit_sparse_switch_payload}
use droidsaw_dex.Emit.Tables.ArrayData.{decode_fill_array_data-emit_fill_array_data_payload}
use droidsaw_dex.Prelude.{leb, if◌then◌else◌}
use droidsaw_dex.Prelude.Errors.{err}

-- A check that rejects a count whose items do not fit in the input.
abbrev fitting : BoundCount
fitting got stride data_len =
    if leb (got * stride) data_len then ok got else err bound_count_exceeded

fitting-passes : PassesCounts fitting
fitting-passes got stride data_len fits = ground arith

-- Two cases from -1 on, 4 units before and 6 units behind the switch.
abbrev table : List ℕ
table =
    0x00 ∷ 0x01 ∷ 0x02 ∷ 0x00 ∷ 0xff ∷ 0xff ∷ 0xff ∷ 0xff ∷ 0xfc ∷ 0xff ∷ 0xff ∷ 0xff ∷ 0x06 ∷ 0x00
    ∷ 0x00 ∷ 0x00 ∷ []

table_emitted : emit_packed_switch_payload [] (negsuc 0) (6 ∷ 16 ∷ []) 10 ≡ ok table
unfolding emit_packed_switch_payload push_targets push_u16 push_u32 branch_i32 size_below ◌-ℤ◌
table_emitted = refl

decode_packed_switch-emit_packed_switch_payload_example :
    decode_packed_switch fitting ((9 ∷ 9 ∷ []) ++ (table ++ 9 ∷ [])) 0 1 10
    ≡ ok (packed_switch (negsuc 0) (6 ∷ 16 ∷ []))
decode_packed_switch-emit_packed_switch_payload_example =
    decode_packed_switch-emit_packed_switch_payload fitting fitting-passes (9 ∷ 9 ∷ []) (9 ∷ []) 0 1
      10 refl (omega arith) (omega arith) (negsuc 0) (6 ∷ 16 ∷ []) table (omega arith) (omega arith)
      (omega arith, (omega arith, tt)) table_emitted (omega arith)

-- The cases -1 and 5.
abbrev sparse_table : List ℕ
sparse_table =
    0x00 ∷ 0x02 ∷ 0x02 ∷ 0x00 ∷ 0xff ∷ 0xff ∷ 0xff ∷ 0xff ∷ 0x05 ∷ 0x00 ∷ 0x00 ∷ 0x00 ∷ 0xfc ∷ 0xff
    ∷ 0xff ∷ 0xff ∷ 0x06 ∷ 0x00 ∷ 0x00 ∷ 0x00 ∷ []

sparse_emitted :
    emit_sparse_switch_payload [] (negsuc 0 ∷ pos 5 ∷ []) (6 ∷ 16 ∷ []) 10 ≡ ok sparse_table
unfolding emit_sparse_switch_payload push_keys push_targets push_u16 push_u32 branch_i32 size_below
    ◌-ℤ◌
sparse_emitted = refl

decode_sparse_switch-emit_sparse_switch_payload_example :
    decode_sparse_switch fitting ((9 ∷ 9 ∷ []) ++ (sparse_table ++ 9 ∷ [])) 0 1 10
    ≡ ok (sparse_switch (negsuc 0 ∷ pos 5 ∷ []) (6 ∷ 16 ∷ []))
decode_sparse_switch-emit_sparse_switch_payload_example =
    decode_sparse_switch-emit_sparse_switch_payload fitting fitting-passes (9 ∷ 9 ∷ []) (9 ∷ []) 0 1
      10 refl (omega arith) (omega arith) (negsuc 0 ∷ pos 5 ∷ []) (6 ∷ 16 ∷ []) sparse_table
      ((omega arith, omega arith), ((omega arith, omega arith), tt))
      (omega arith, (omega arith, tt)) sparse_emitted (omega arith)

-- Three bytes, and one that fills up the last unit.
abbrev bytes_table : List ℕ
bytes_table = 0x00 ∷ 0x03 ∷ 0x01 ∷ 0x00 ∷ 0x03 ∷ 0x00 ∷ 0x00 ∷ 0x00 ∷ 7 ∷ 8 ∷ 9 ∷ 0 ∷ []

bytes_emitted : emit_fill_array_data_payload [] 1 (7 ∷ 8 ∷ 9 ∷ []) ≡ ok bytes_table
unfolding emit_fill_array_data_payload is_width pad_unit push_u16 push_u32 size_below
bytes_emitted = refl

decode_fill_array_data-emit_fill_array_data_payload_example :
    decode_fill_array_data ((9 ∷ 9 ∷ []) ++ (bytes_table ++ 9 ∷ [])) 0 1
    ≡ ok (fill_array_data 1 (7 ∷ 8 ∷ 9 ∷ []))
decode_fill_array_data-emit_fill_array_data_payload_example =
    decode_fill_array_data-emit_fill_array_data_payload (9 ∷ 9 ∷ []) (9 ∷ []) 0 1 refl (omega arith)
      1 (7 ∷ 8 ∷ 9 ∷ []) bytes_table bytes_emitted (omega arith)
