-- ===== src/Decode/Stream/Step.antt =====
-- src/decode.rs: one round of the loop of `decode_insns`.
use droidsaw_dex.Prelude.{
  ℕ, ◌+◌, ◌/◌, ◌%◌, ◌^◌, Bool, true, false, ◌&&◌, ◌||◌, Option, none, some, List, [], ◌∷◌, ◌++◌,
  leb, ◌==◌, if◌then◌else◌,
}
use droidsaw_dex.Prelude.Int.{pos, eqb_ℤ}
use droidsaw_dex.Prelude.Errors.{ok, err, ◌>>=◌}
use droidsaw_dex.Prelude.Sets.{set_insert}
use droidsaw_dex.Opcodes.{Opcode}
use droidsaw_dex.Opcodes.Bytes.{from_u8}
use droidsaw_dex.Decode.Format.{InsnFormat, insn_format}
use droidsaw_dex.Decode.Insn.{Instruction}
use droidsaw_dex.Decode.Reader.{
  Res, invalid_instruction, safe_add, safe_add_u32, safe_mul_u32, pread_u32, read_unit,
}
use droidsaw_dex.Decode.Single.{
  Violation, branch_target_out_of_range, branch_offset_zero, unaligned_table_dex_pc,
  non_static_invoke_arg_count_zero, unknown_opcode_byte, decode_single,
}
use droidsaw_dex.Decode.Payload.{payload_base}

-- The local variables of the loop. `pending` holds the switch, its payload and the opcode.
pub record Scan : Type 0 where
  pub pc : ℕ
  pub instructions : List Instruction
  pub pending : List (ℕ × ℕ × Opcode)
  pub opcode_starts : List ℕ
  pub violations : List Violation

unfoldable pub start : Scan
start = record { pc = 0; instructions = []; pending = []; opcode_starts = []; violations = [] }

unfoldable pub is_payload_ident : ℕ → Bool
is_payload_ident ident = ident == 0x01 || (ident == 0x02 || ident == 0x03)

-- The size of a payload in code units.
unfoldable pub payload_size : List ℕ → ℕ → ℕ → ℕ → Res ℕ
payload_size bytes insns_off pc ident =
    if ident == 0x01
    then (do size ← read_unit bytes insns_off pc 1; n ← safe_mul_u32 size 2; safe_add_u32 n 4)
    else if ident == 0x02
    then (do size ← read_unit bytes insns_off pc 1; n ← safe_mul_u32 size 4; safe_add_u32 n 2)
    else if ident == 0x03
    then (do
      width ← read_unit bytes insns_off pc 1
      base ← payload_base insns_off pc
      size_off ← safe_add base 4
      size ← pread_u32 bytes size_off
      n ← safe_mul_u32 size width
      safe_add_u32 4 ((n + 1) / 2))
    else err (invalid_instruction pc)

-- A target behind the end of the code.
unfoldable pub out_of_range : ℕ → Opcode → ℕ → Option ℕ → List Violation
out_of_range insns_size op pc none = []
out_of_range insns_size op pc (some target) =
    if leb insns_size target then branch_target_out_of_range op pc target insns_size ∷ [] else []

-- The branches that may not lead to themselves: all but `goto/32`.
unfoldable pub is_checked_branch : Opcode → Bool
is_checked_branch Opcode.goto = true
is_checked_branch Opcode.goto16 = true
is_checked_branch Opcode.if_eq = true
is_checked_branch Opcode.if_ne = true
is_checked_branch Opcode.if_lt = true
is_checked_branch Opcode.if_ge = true
is_checked_branch Opcode.if_gt = true
is_checked_branch Opcode.if_le = true
is_checked_branch Opcode.if_eqz = true
is_checked_branch Opcode.if_nez = true
is_checked_branch Opcode.if_ltz = true
is_checked_branch Opcode.if_gez = true
is_checked_branch Opcode.if_gtz = true
is_checked_branch Opcode.if_lez = true
is_checked_branch _ = false

unfoldable pub offset_zero : Opcode → ℕ → Option ℕ → List Violation
offset_zero op pc none = []
offset_zero op pc (some target) =
    if is_checked_branch op && target == pc then branch_offset_zero op pc ∷ [] else []

-- The opcodes whose target is a payload.
unfoldable pub is_table_op : Opcode → Bool
is_table_op Opcode.packed_switch = true
is_table_op Opcode.sparse_switch = true
is_table_op Opcode.fill_array_data = true
is_table_op _ = false

-- What a table instruction adds: a violation, or a payload to decode.
unfoldable pub table_entry : Opcode → ℕ → Option ℕ → List Violation × List (ℕ × ℕ × Opcode)
table_entry op pc none = ([], [])
table_entry op pc (some target) =
    if is_table_op op
    then if target % 2 == 0
      then ([], (pc, target, op) ∷ [])
      else (unaligned_table_dex_pc op pc target ∷ [], [])
    else ([], [])

unfoldable pub is_non_static_invoke : Opcode → Bool
is_non_static_invoke Opcode.invoke_virtual = true
is_non_static_invoke Opcode.invoke_super = true
is_non_static_invoke Opcode.invoke_direct = true
is_non_static_invoke Opcode.invoke_interface = true
is_non_static_invoke Opcode.invoke_polymorphic = true
is_non_static_invoke Opcode.invoke_virtual_range = true
is_non_static_invoke Opcode.invoke_super_range = true
is_non_static_invoke Opcode.invoke_direct_range = true
is_non_static_invoke Opcode.invoke_interface_range = true
is_non_static_invoke Opcode.invoke_polymorphic_range = true
is_non_static_invoke _ = false

-- Whether the instruction has no argument, where its format counts them.
unfoldable pub no_arguments : InsnFormat → Instruction → Bool
no_arguments InsnFormat.f35c insn = insn.src.len == 0
no_arguments InsnFormat.f45cc insn = insn.src.len == 0
no_arguments InsnFormat.f3rc insn = eqb_ℤ insn.literal (pos 0)
no_arguments InsnFormat.f4rcc insn = eqb_ℤ insn.literal (pos 0)
no_arguments _ insn = false

unfoldable pub receiver_missing : Opcode → ℕ → Instruction → List Violation
unfolding no_arguments
receiver_missing op pc insn =
    if is_non_static_invoke op && no_arguments (insn_format op) insn
    then non_static_invoke_arg_count_zero op pc ∷ []
    else []

-- The round of an instruction, behind `opcode_starts.insert(pc)`.
unfoldable pub step_insn : List ℕ → ℕ → ℕ → Scan → Opcode → Res Scan
unfolding out_of_range offset_zero table_entry receiver_missing
step_insn bytes insns_off insns_size s op = do
  (insn, vs) ← decode_single bytes insns_off s.pc op s.violations
  let table = table_entry op s.pc insn.target
  next ← safe_add_u32 s.pc insn.size
  ok (record s {
    pc = next;
    instructions = s.instructions ++ insn ∷ [];
    pending = s.pending ++ table.1;
    violations =
        vs
        ++ out_of_range insns_size op s.pc insn.target
        ++ offset_zero op s.pc insn.target
        ++ table.0
        ++ receiver_missing op s.pc insn;
  })

-- `Opcode::from_u8`, a byte that is none is skipped.
unfoldable pub step_opcode : List ℕ → ℕ → ℕ → Scan → ℕ → Option Opcode → Res Scan
step_opcode bytes insns_off insns_size s byte none = do
  next ← safe_add_u32 s.pc 1
  ok (record s { pc = next; violations = s.violations ++ unknown_opcode_byte s.pc byte ∷ [] })
step_opcode bytes insns_off insns_size s byte (some op) = step_insn bytes insns_off insns_size s op

unfoldable pub skip_payload : List ℕ → ℕ → Scan → ℕ → Res Scan
skip_payload bytes insns_off s ident = do
  size ← payload_size bytes insns_off s.pc ident
  next ← safe_add_u32 s.pc size
  ok (record s { pc = next })

unfoldable pub step : List ℕ → ℕ → ℕ → Scan → Res Scan
unfolding is_payload_ident skip_payload step_opcode
step bytes insns_off insns_size s = do
  u0 ← read_unit bytes insns_off s.pc 0
  let byte = u0 % 2 ^ 8
  let ident = u0 / 2 ^ 8
  if byte == 0x00 && is_payload_ident ident
      then skip_payload bytes insns_off s ident
      else step_opcode bytes insns_off insns_size
          (record s { opcode_starts = set_insert s.pc s.opcode_starts }) byte (from_u8 byte)
