-- ===== src/Decode/Payload.antt =====
-- src/decode.rs: the payloads of switches and of fill-array-data.
-- `bound_count` is droidsaw_common's check of a count against the length of the input; the text
-- that names the counted items is left out.
use droidsaw_dex.Prelude.{
  ℕ, zero, suc, ◌+◌, ◌-◌, Bool, List, [], ◌∷◌, length, take, drop, ltb, ◌==◌, ◌||◌, if◌then◌else◌,
}
use droidsaw_dex.Prelude.Int.{ℤ}
use droidsaw_dex.Prelude.Errors.{ok, err, ◌>>=◌, ◌>>◌, guard}
use droidsaw_dex.Prelude.Words.{as_signed}
use droidsaw_dex.Decode.Reader.{
  Res, truncated, invalid_instruction, safe_add, safe_mul, pread_u32, read_unit, branch_target,
}
use droidsaw_dex.Decode.Item.{PayloadData, packed_switch, sparse_switch, fill_array_data}

-- `count`, `stride` and the length of the input.
abbrev pub BoundCount : Type 0
BoundCount = ℕ → ℕ → ℕ → Res ℕ

-- A loop over `pread_with::<i32>(base + i * 4)` for the next `n` values of `i`.
unfoldable pub read_ints : List ℕ → ℕ → ℕ → ℕ → Res (List ℤ)
read_ints bytes base zero i = ok []
read_ints bytes base (suc n) i = do
  i4 ← safe_mul i 4
  off ← safe_add base i4
  v ← pread_u32 bytes off
  rest ← read_ints bytes base n (i + 1)
  ok (as_signed 32 v ∷ rest)

-- The same loop with each number taken as an offset from the switch.
unfoldable pub read_targets : List ℕ → ℕ → ℕ → ℕ → ℕ → Res (List ℕ)
read_targets bytes base switch_pc zero i = ok []
read_targets bytes base switch_pc (suc n) i = do
  i4 ← safe_mul i 4
  off ← safe_add base i4
  v ← pread_u32 bytes off
  t ← branch_target switch_pc (as_signed 32 v)
  rest ← read_targets bytes base switch_pc n (i + 1)
  ok (t ∷ rest)

-- The byte offset of the payload.
unfoldable pub payload_base : ℕ → ℕ → Res ℕ
payload_base insns_off payload_pc = do off ← safe_mul payload_pc 2; safe_add insns_off off

unfoldable pub decode_packed_switch : BoundCount → List ℕ → ℕ → ℕ → ℕ → Res PayloadData
unfolding payload_base
decode_packed_switch bound_count bytes insns_off payload_pc switch_pc = do
  size_raw ← read_unit bytes insns_off payload_pc 1
  size ← bound_count size_raw 4 (length bytes)
  base ← payload_base insns_off payload_pc
  key_off ← safe_add base 4
  first_key ← pread_u32 bytes key_off
  base8 ← safe_add base 8
  targets ← read_targets bytes base8 switch_pc size 0
  ok (packed_switch (as_signed 32 first_key) targets)

unfoldable pub decode_sparse_switch : BoundCount → List ℕ → ℕ → ℕ → ℕ → Res PayloadData
unfolding payload_base
decode_sparse_switch bound_count bytes insns_off payload_pc switch_pc = do
  size_raw ← read_unit bytes insns_off payload_pc 1
  size ← bound_count size_raw 8 (length bytes)
  base ← payload_base insns_off payload_pc
  base4 ← safe_add base 4
  keys ← read_ints bytes base4 size 0
  size4 ← safe_mul size 4
  targets_base ← safe_add base4 size4
  targets ← read_targets bytes targets_base switch_pc size 0
  ok (sparse_switch keys targets)

-- `1 | 2 | 4 | 8`
unfoldable pub is_width : ℕ → Bool
is_width w = w == 1 || (w == 2 || (w == 4 || w == 8))

unfoldable pub decode_fill_array_data : List ℕ → ℕ → ℕ → Res PayloadData
unfolding payload_base is_width
decode_fill_array_data bytes insns_off payload_pc = do
  element_width ← read_unit bytes insns_off payload_pc 1
  guard (is_width element_width) (invalid_instruction payload_pc)
  base ← payload_base insns_off payload_pc
  size_off ← safe_add base 4
  size ← pread_u32 bytes size_off
  data_off ← safe_add base 8
  byte_count ← safe_mul size element_width
  end ← safe_add data_off byte_count
  if ltb (length bytes) end
      then err (truncated data_off byte_count (length bytes - data_off))
      else ok (fill_array_data element_width (take byte_count (drop data_off bytes)))
