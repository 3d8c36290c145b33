-- ===== src/Emit/Payload.antt =====
-- src/emit_dex.rs: the payloads of switches and of fill-array-data, and strictly ascending keys.
use droidsaw_dex.Prelude.{
  ℕ, ◌/◌, ◌%◌, ◌^◌, Bool, true, false, List, [], ◌∷◌, ◌++◌, length, ltb, ◌==◌, if◌then◌else◌,
}
use droidsaw_dex.Prelude.Int.{ℤ, ltb_ℤ}
use droidsaw_dex.Prelude.Errors.{ok, err, ◌>>=◌, ◌>>◌, guard}
use droidsaw_dex.Prelude.Words.{low_bits, u16_mod, u32_mod}
use droidsaw_dex.Decode.Item.{PayloadData, packed_switch, sparse_switch, fill_array_data}
use droidsaw_dex.Decode.Payload.{is_width}
use droidsaw_dex.Emit.Operands.{Emitted, unrepresentable_ir, size_overflow, push_u16, branch_i32}

-- `v.to_le_bytes()` of a 32-bit pattern
abbrev pub le_bytes : ℕ → List ℕ
le_bytes v = v % 2 ^ 8 ∷ v / 2 ^ 8 % 2 ^ 8 ∷ v / 2 ^ 16 % 2 ^ 8 ∷ v / 2 ^ 24 % 2 ^ 8 ∷ []

-- `out.extend_from_slice(&v.to_le_bytes())`
unfoldable pub push_u32 : List ℕ → ℕ → List ℕ
push_u32 out v = out ++ le_bytes v

unfoldable pub push_keys : List ℕ → List ℤ → List ℕ
unfolding push_u32
push_keys out [] = out
push_keys out (k ∷ ks) = push_keys (push_u32 out (low_bits 32 k)) ks

unfoldable pub push_targets : List ℕ → List ℕ → ℕ → Emitted (List ℕ)
unfolding push_u32
push_targets out [] switch_pc = ok out
push_targets out (t ∷ ts) switch_pc = do
  rel ← branch_i32 t switch_pc
  push_targets (push_u32 out (low_bits 32 rel)) ts switch_pc

-- `u16::try_from(len)` and `u32::try_from(len)`
unfoldable pub size_below : ℕ → ℕ → Emitted ℕ
size_below bound n = if ltb n bound then ok n else err size_overflow

unfoldable pub emit_packed_switch_payload : List ℕ → ℤ → List ℕ → ℕ → Emitted (List ℕ)
unfolding size_below push_u32
emit_packed_switch_payload out first_key targets switch_pc = do
  size ← size_below u16_mod (length targets)
  push_targets (push_u32 (push_u16 (push_u16 out 0x0100) size) (low_bits 32 first_key)) targets
      switch_pc

-- `StrictlyAscending::from_verified`, as the test of its loop over the neighbours
unfoldable pub is_strictly_ascending : List ℤ → Bool
is_strictly_ascending [] = true
is_strictly_ascending (a ∷ []) = true
is_strictly_ascending (a ∷ b ∷ rest) = if ltb_ℤ a b then is_strictly_ascending (b ∷ rest) else false

unfoldable pub emit_sparse_switch_payload : List ℕ → List ℤ → List ℕ → ℕ → Emitted (List ℕ)
unfolding size_below
emit_sparse_switch_payload out keys targets switch_pc = do
  guard (length keys == length targets) unrepresentable_ir
  size ← size_below u16_mod (length keys)
  push_targets (push_keys (push_u16 (push_u16 out 0x0200) size) keys) targets switch_pc

-- The byte that fills up the last code unit.
unfoldable pub pad_unit : ℕ → List ℕ → List ℕ
pad_unit n out = if n % 2 == 0 then out else out ++ 0 ∷ []

unfoldable pub emit_fill_array_data_payload : List ℕ → ℕ → List ℕ → Emitted (List ℕ)
unfolding size_below push_u32 pad_unit
emit_fill_array_data_payload out width elements = do
  guard (is_width width) unrepresentable_ir
  guard (length elements % width == 0) unrepresentable_ir
  count ← size_below u32_mod (length elements / width)
  ok (
      pad_unit (length elements)
        (push_u32 (push_u16 (push_u16 out 0x0300) width) count ++ elements))

unfoldable pub emit_payload : List ℕ → PayloadData → ℕ → Emitted (List ℕ)
unfolding is_strictly_ascending
emit_payload out (packed_switch first_key targets) switch_pc =
    emit_packed_switch_payload out first_key targets switch_pc
emit_payload out (sparse_switch keys targets) switch_pc = do
  guard (is_strictly_ascending keys) unrepresentable_ir
  emit_sparse_switch_payload out keys targets switch_pc
emit_payload out (fill_array_data width elements) switch_pc =
    emit_fill_array_data_payload out width elements
