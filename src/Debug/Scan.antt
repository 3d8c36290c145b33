-- ===== src/Debug/Scan.antt =====
-- src/debug.rs: `scan_debug_info_bytes`, which finds the end of a debug info.
use droidsaw_dex.Prelude.{
  ℕ, zero, suc, ◌-◌, Bool, true, false, none, some, List, length, get_elem?, leb, if◌then◌else◌,
}
use droidsaw_dex.Prelude.Errors.{ok, err, ◌>>=◌, ◌>>◌, guard, ok_or}
use droidsaw_dex.Decode.Reader.{Res, truncated, offset_out_of_bounds, safe_add}
use droidsaw_dex.Leb.{next_uleb128, next_sleb128}
use droidsaw_dex.Header.{get_range}
use droidsaw_dex.Debug.Machine.{
  FileView, DebugOp, end_sequence, op_advance_pc, op_advance_line, op_start_local, op_end_local,
  op_restart_local, op_set_file, debug_op,
}

-- `pos = skip_uleb128(data, pos)?`, this many times
unfoldable pub skip_ulebs : FileView → List ℕ → ℕ → ℕ → Res ℕ
skip_ulebs file bytes zero at = ok at
skip_ulebs file bytes (suc n) at = do
  (v, at') ← next_uleb128 file.leb128 bytes at
  skip_ulebs file bytes n at'

unfoldable pub skip_sleb : FileView → List ℕ → ℕ → Res ℕ
skip_sleb file bytes at = do (z, at') ← next_sleb128 file.leb128 bytes at; ok at'

-- The operands of an opcode are skipped.
unfoldable pub skip_op : DebugOp → FileView → List ℕ → ℕ → Res ℕ
unfolding skip_ulebs skip_sleb
skip_op op_advance_pc file bytes at = skip_ulebs file bytes 1 at
skip_op op_advance_line file bytes at = skip_sleb file bytes at
skip_op (op_start_local extended) file bytes at =
    skip_ulebs file bytes (if extended then 4 else 3) at
skip_op op_end_local file bytes at = skip_ulebs file bytes 1 at
skip_op op_restart_local file bytes at = skip_ulebs file bytes 1 at
skip_op op_set_file file bytes at = skip_ulebs file bytes 1 at
skip_op _ file bytes at = ok at

unfoldable pub is_end : DebugOp → Bool
is_end end_sequence = true
is_end _ = false

-- `loop { .. }` up to `DBG_END_SEQUENCE`. The position moves on in every round, so that when the
-- rounds are used up it is behind the bytes, where the loop ends with this error too.
unfoldable pub scan_ops : FileView → List ℕ → ℕ → ℕ → Res ℕ
unfolding debug_op skip_op is_end
scan_ops file bytes zero at = err (truncated at 1 0)
scan_ops file bytes (suc rounds) at = elim (get_elem? bytes at) [
  | none ↦ err (truncated at 1 0)
  | some opcode ↦ do
    at' ← safe_add at 1
    if is_end (debug_op opcode)
        then ok at'
        else (skip_op (debug_op opcode) file bytes at' >>= scan_ops file bytes rounds)
]

unfoldable pub scan_debug_info_bytes : FileView → List ℕ → ℕ → Res (List ℕ)
unfolding get_range skip_ulebs
scan_debug_info_bytes file bytes offset = do
  guard (leb offset (length bytes)) (offset_out_of_bounds offset (length bytes))
  p1 ← skip_ulebs file bytes 1 offset
  (params_size, p2) ← next_uleb128 file.leb128 bytes p1
  params_count ← file.bound_count params_size 1 (length bytes)
  at ← skip_ulebs file bytes params_count p2
  end ← scan_ops file bytes (length bytes) at
  ok_or (get_range bytes offset end) (truncated offset (end - offset) (length bytes - offset))
