-- ===== src/Debug/Machine.antt =====
-- src/debug.rs: the state of the machine and its opcodes.
-- `FileView` is what the parser reads from droidsaw_common and from the pools of the `DexFile`.
use droidsaw_dex.Prelude.{
  ℕ, ◌+◌, ◌-◌, ◌/◌, ◌%◌, Bool, true, false, Option, none, some, List, [], ◌∷◌, ◌++◌, ltb, leb, ◌==◌,
  if◌then◌else◌, ◌&&◌,
}
use droidsaw_dex.Prelude.Int.{ℤ, pos, negsuc, ◌+ℤ◌, leb_ℤ}
use droidsaw_dex.Prelude.Errors.{ok, err, ◌>>=◌}
use droidsaw_dex.Prelude.Words.{u16_mod, u32_mod, i32_min, i32_max}
use droidsaw_dex.Prelude.Sets.{map_get, map_insert, map_remove}
use droidsaw_dex.Decode.Reader.{Res, invalid_debug_register}
use droidsaw_dex.Decode.Payload.{BoundCount}
use droidsaw_dex.Leb.{Leb128, next_uleb128, next_sleb128}

-- `String`, of which only copies are made here.
abbrev pub Text : Type 0
Text = List ℕ

pub record FileView : Type 0 where
  pub leb128 : Leb128
  pub bound_count : BoundCount
  pub get_string : ℕ → Option Text
  pub get_type_descriptor : ℕ → Option Text

pub record LocalVar : Type 0 where
  pub register : ℕ
  pub name : Option Text
  pub type_desc : Option Text
  pub start_addr : ℕ
  pub end_addr : Option ℕ

-- The variables of the loop. `active` is a `BTreeMap` from registers.
pub record Machine : Type 0 where
  pub at : ℕ
  pub address : ℕ
  pub line : ℤ
  pub active : List (ℕ × LocalVar)
  pub locals : List LocalVar
  pub line_table : List (ℕ × ℕ)

-- A round goes on, or it breaks out of the loop.
pub data Flow : Type 0 where
  go_on : Machine → Flow
  break_out : Machine → Flow

unfoldable pub narrow_register : ℕ → ℕ → Res ℕ
narrow_register uleb_value registers_size =
    if ltb uleb_value u16_mod && ltb uleb_value registers_size
    then ok uleb_value
    else err (invalid_debug_register uleb_value registers_size)

-- An index is stored plus one, and 0 stands for none.
unfoldable pub lookup_plus_one : (ℕ → Option Text) → ℕ → Option Text
lookup_plus_one get idx = if idx == 0 then none else get (idx - 1)

-- `address.checked_add(delta)`
unfoldable pub checked_add_u32 : ℕ → ℕ → Option ℕ
checked_add_u32 a b = if ltb (a + b) u32_mod then some (a + b) else none

-- `line.checked_add(delta)`
unfoldable pub checked_add_i32 : ℤ → ℤ → Option ℤ
unfolding ◌+ℤ◌
checked_add_i32 a b =
    if leb_ℤ i32_min (a +ℤ b) && leb_ℤ (a +ℤ b) i32_max then some (a +ℤ b) else none

-- `if line >= 0 { line_table.push((address, line as u32)) }`
unfoldable pub push_entry : ℤ → Machine → Machine
push_entry (pos n) m = record m { line_table = m.line_table ++ (m.address, n) ∷ [] }
push_entry (negsuc _) m = m

unfoldable pub push_line : Machine → Machine
unfolding push_entry
push_line m = push_entry m.line m

unfoldable pub advance_pc : FileView → List ℕ → Machine → Res Flow
unfolding checked_add_u32
advance_pc file bytes m = do
  (delta, at) ← next_uleb128 file.leb128 bytes m.at
  ok (elim (checked_add_u32 m.address delta) [
    | none ↦ break_out (record m { at = at })
    | some address ↦ go_on (record m { at = at; address = address })
  ])

unfoldable pub advance_line : FileView → List ℕ → Machine → Res Flow
unfolding checked_add_i32 push_line
advance_line file bytes m = do
  (delta, at) ← next_sleb128 file.leb128 bytes m.at
  ok (elim (checked_add_i32 m.line delta) [
    | none ↦ break_out (record m { at = at })
    | some line ↦ go_on (push_line (record m { at = at; line = line }))
  ])

-- The active local of a register, if there is one, ends at the current address.
unfoldable pub end_active : ℕ → Machine → Machine
unfolding map_get map_remove
end_active register m = elim (map_get register m.active) [
  | none ↦ m
  | some prev ↦ record m {
    active = map_remove register m.active;
    locals = m.locals ++ record prev { end_addr = some m.address } ∷ [];
  }
]

unfoldable pub insert_active : ℕ → Option Text → Option Text → Machine → Machine
unfolding map_insert
insert_active register name type_desc m = record m {
  active =
      map_insert register
        (record {
          register = register;
          name = name;
          type_desc = type_desc;
          start_addr = m.address;
          end_addr = none;
        })
        m.active;
}

-- DBG_START_LOCAL and, with one operand more, DBG_START_LOCAL_EXTENDED
unfoldable pub start_local : Bool → FileView → List ℕ → ℕ → Machine → Res Flow
unfolding narrow_register lookup_plus_one end_active insert_active
start_local extended file bytes registers_size m = do
  (raw, p1) ← next_uleb128 file.leb128 bytes m.at
  register ← narrow_register raw registers_size
  (name_idx, p2) ← next_uleb128 file.leb128 bytes p1
  (type_idx, p3) ← next_uleb128 file.leb128 bytes p2
  (sig_idx, p4) ← if extended then next_uleb128 file.leb128 bytes p3 else ok (0, p3)
  let name = lookup_plus_one file.get_string name_idx
  let type_desc = lookup_plus_one file.get_type_descriptor type_idx
  ok (go_on (insert_active register name type_desc (end_active register (record m { at = p4 }))))

unfoldable pub end_local : FileView → List ℕ → ℕ → Machine → Res Flow
unfolding narrow_register end_active
end_local file bytes registers_size m = do
  (raw, at) ← next_uleb128 file.leb128 bytes m.at
  register ← narrow_register raw registers_size
  ok (go_on (end_active register (record m { at = at })))

-- `locals.iter().rev().find(|l| l.register == register)`
unfoldable pub last_local : ℕ → List LocalVar → Option LocalVar
last_local register [] = none
last_local register (l ∷ ls) = elim (last_local register ls) [
  | some found ↦ some found
  | none ↦ if l.register == register then some l else none
]

unfoldable pub restart_local : FileView → List ℕ → ℕ → Machine → Res Flow
unfolding narrow_register last_local insert_active
restart_local file bytes registers_size m = do
  (raw, at) ← next_uleb128 file.leb128 bytes m.at
  register ← narrow_register raw registers_size
  ok (
      go_on (elim (last_local register m.locals) [
        | none ↦ record m { at = at }
        | some prev ↦ insert_active register prev.name prev.type_desc (record m { at = at })
      ]))

unfoldable pub set_file : FileView → List ℕ → Machine → Res Flow
set_file file bytes m = do
  (name_idx, at) ← next_uleb128 file.leb128 bytes m.at
  ok (go_on (record m { at = at }))

-- A special opcode, by its distance from DBG_FIRST_SPECIAL; -4 is DBG_LINE_BASE.
unfoldable pub special_op : ℕ → Machine → Flow
unfolding ◌+ℤ◌ checked_add_i32 checked_add_u32 push_line
special_op adjusted m = elim (checked_add_i32 m.line (negsuc 3 +ℤ pos (adjusted % 15))) [
  | none ↦ break_out m
  | some line ↦ elim (checked_add_u32 m.address (adjusted / 15)) [
    | none ↦ break_out (record m { line = line })
    | some address ↦ go_on (push_line (record m { line = line; address = address }))
  ]
]

-- The arms of the match on an opcode.
pub data DebugOp : Type 0 where
  end_sequence op_advance_pc op_advance_line op_end_local op_restart_local marker op_set_file
        unknown :
      DebugOp
  op_start_local : Bool → DebugOp
  special : ℕ → DebugOp

unfoldable pub debug_op : ℕ → DebugOp
debug_op op =
    if op == 0x00
    then end_sequence
    else if op == 0x01
    then op_advance_pc
    else if op == 0x02
    then op_advance_line
    else if op == 0x03
    then op_start_local false
    else if op == 0x04
    then op_start_local true
    else if op == 0x05
    then op_end_local
    else if op == 0x06
    then op_restart_local
    else if op == 0x07
    then marker
    else if op == 0x08
    then marker
    else if op == 0x09
    then op_set_file
    else if leb 0x0a op
    then special (op - 0x0a)
    else unknown

unfoldable pub run_op : DebugOp → FileView → List ℕ → ℕ → Machine → Res Flow
run_op end_sequence file bytes registers_size m = ok (break_out m)
run_op op_advance_pc file bytes registers_size m = advance_pc file bytes m
run_op op_advance_line file bytes registers_size m = advance_line file bytes m
run_op (op_start_local extended) file bytes registers_size m =
    start_local extended file bytes registers_size m
run_op op_end_local file bytes registers_size m = end_local file bytes registers_size m
run_op op_restart_local file bytes registers_size m = restart_local file bytes registers_size m
run_op marker file bytes registers_size m = ok (go_on m)
run_op op_set_file file bytes registers_size m = set_file file bytes m
run_op (special adjusted) file bytes registers_size m = ok (special_op adjusted m)
run_op unknown file bytes registers_size m = ok (break_out m)
