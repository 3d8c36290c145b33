-- ===== src/Decode/Stream/Checks.antt =====
-- src/decode.rs: what `decode_insns` does behind its loop.
use droidsaw_dex.Prelude.{
  ℕ, Bool, true, false, Option, none, some, List, [], ◌∷◌, ◌++◌, leb, ltb, ◌==◌, if◌then◌else◌,
}
use droidsaw_dex.Prelude.Errors.{ok, err, ◌>>=◌, ok_or}
use droidsaw_dex.Prelude.Sets.{map_insert}
use droidsaw_dex.Opcodes.{Opcode}
use droidsaw_dex.Decode.Insn.{Instruction}
use droidsaw_dex.Decode.Item.{PayloadData, packed_switch, sparse_switch, fill_array_data}
use droidsaw_dex.Decode.Reader.{Res, invalid_instruction, read_unit}
use droidsaw_dex.Decode.Single.{
  Violation, branch_target_out_of_range, branch_target_mid_instruction,
  branch_target_is_move_result_or_move_exception, payload_ident_mismatch,
  tail_bytes_after_last_instruction,
}
use droidsaw_dex.Decode.Payload.{
  BoundCount, decode_packed_switch, decode_sparse_switch, decode_fill_array_data,
}
use droidsaw_dex.Decode.Stream.Step.{is_table_op}

unfoldable pub tail_bytes : ℕ → ℕ → List Violation
tail_bytes insns_size pc =
    if ltb insns_size pc then tail_bytes_after_last_instruction insns_size pc ∷ [] else []

unfoldable pub is_start : ℕ → List ℕ → Bool
is_start target [] = false
is_start target (s ∷ starts) = if target == s then true else is_start target starts

-- `opcode_starts.range(..=target).next_back().map_or(0, ..)`
unfoldable pub owner_of : ℕ → List ℕ → ℕ → ℕ
owner_of target [] found = found
owner_of target (s ∷ starts) found = owner_of target starts (if leb s target then s else found)

-- `pc_to_opcode.get(&target)`: a later instruction at an address replaces an earlier one.
unfoldable pub opcode_at : ℕ → List Instruction → Option Opcode → Option Opcode
opcode_at target [] found = found
opcode_at target (i ∷ is) found =
    opcode_at target is (if i.addr == target then some i.op else found)

unfoldable pub is_move_result_or_exception : Opcode → Bool
is_move_result_or_exception Opcode.move_result = true
is_move_result_or_exception Opcode.move_result_wide = true
is_move_result_or_exception Opcode.move_result_object = true
is_move_result_or_exception Opcode.move_exception = true
is_move_result_or_exception _ = false

unfoldable pub lands_on : Instruction → ℕ → Option Opcode → List Violation
lands_on insn target none = []
lands_on insn target (some op) =
    if is_move_result_or_exception op
    then branch_target_is_move_result_or_move_exception insn.op insn.addr target op ∷ []
    else []

-- One round of the loop over the targets.
unfoldable pub check_target :
    ℕ → List ℕ → List Instruction → Instruction → Option ℕ → List Violation
unfolding lands_on
check_target insns_size starts all insn none = []
check_target insns_size starts all insn (some target) =
    if leb insns_size target
    then []
    else if is_table_op insn.op
    then []
    else (if is_start target starts
        then []
        else branch_target_mid_instruction insn.op insn.addr target (owner_of target starts 0) ∷ [])
      ++ lands_on insn target (opcode_at target all none)

unfoldable pub check_targets : ℕ → List ℕ → List Instruction → List Instruction → List Violation
unfolding check_target
check_targets insns_size starts all [] = []
check_targets insns_size starts all (i ∷ is) =
    check_target insns_size starts all i i.target ++ check_targets insns_size starts all is

unfoldable pub expected_ident : Opcode → Option ℕ
expected_ident Opcode.packed_switch = some 0x0100
expected_ident Opcode.sparse_switch = some 0x0200
expected_ident Opcode.fill_array_data = some 0x0300
expected_ident _ = none

unfoldable pub decode_payload : BoundCount → List ℕ → ℕ → ℕ → ℕ → Opcode → Res PayloadData
decode_payload bound_count bytes insns_off payload_pc switch_pc Opcode.packed_switch =
    decode_packed_switch bound_count bytes insns_off payload_pc switch_pc
decode_payload bound_count bytes insns_off payload_pc switch_pc Opcode.sparse_switch =
    decode_sparse_switch bound_count bytes insns_off payload_pc switch_pc
decode_payload bound_count bytes insns_off payload_pc switch_pc Opcode.fill_array_data =
    decode_fill_array_data bytes insns_off payload_pc
decode_payload bound_count bytes insns_off payload_pc switch_pc _ =
    err (invalid_instruction switch_pc)

unfoldable pub case_targets : Opcode → ℕ → ℕ → List ℕ → List Violation
case_targets op switch_pc insns_size [] = []
case_targets op switch_pc insns_size (t ∷ ts) =
    let rest = case_targets op switch_pc insns_size ts in
    if leb insns_size t then branch_target_out_of_range op switch_pc t insns_size ∷ rest else rest

unfoldable pub payload_violations : Opcode → ℕ → ℕ → PayloadData → List Violation
unfolding case_targets
payload_violations op switch_pc insns_size (packed_switch first_key targets) =
    case_targets op switch_pc insns_size targets
payload_violations op switch_pc insns_size (sparse_switch keys targets) =
    case_targets op switch_pc insns_size targets
payload_violations op switch_pc insns_size (fill_array_data width elements) = []

abbrev pub Resolved : Type 0
Resolved = List (ℕ × PayloadData) × List Violation

-- One round of the loop over the pending payloads.
unfoldable pub resolve_one : BoundCount → List ℕ → ℕ → ℕ → ℕ × ℕ × Opcode → Resolved → Res Resolved
unfolding payload_violations
resolve_one bound_count bytes insns_off insns_size (switch_pc, payload_pc, op) (payloads, vs) = do
  expected ← ok_or (expected_ident op) (invalid_instruction switch_pc)
  observed ← read_unit bytes insns_off payload_pc 0
  if observed == expected
      then (do
        payload ← decode_payload bound_count bytes insns_off payload_pc switch_pc op
        ok (
          map_insert payload_pc payload payloads,
          vs ++ payload_violations op switch_pc insns_size payload,
        ))
      else ok
          (payloads, vs ++ payload_ident_mismatch op switch_pc payload_pc expected observed ∷ [])

unfoldable pub resolve :
    BoundCount → List ℕ → ℕ → ℕ → List (ℕ × ℕ × Opcode) → Resolved → Res Resolved
unfolding resolve_one
resolve bound_count bytes insns_off insns_size [] r = ok r
resolve bound_count bytes insns_off insns_size (p ∷ ps) r = do
  r' ← resolve_one bound_count bytes insns_off insns_size p r
  resolve bound_count bytes insns_off insns_size ps r'
