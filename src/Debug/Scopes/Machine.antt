-- ===== src/Debug/Scopes/Machine.antt =====
-- Every opcode keeps the scopes of one register apart.
use droidsaw_dex.Prelude.{
  ℕ, ◌/◌, ◌%◌, ◌≤◌, ◌<◌, ◌≡◌, refl, arith, inl, inr, Bool, some, Option-cases, List, if◌then◌else◌,
}
use droidsaw_dex.Prelude.Int.{ℤ, pos, negsuc, ◌+ℤ◌}
use droidsaw_dex.Prelude.Errors.{ok, IfOk, IfOk-bind, IfOk-then}
use droidsaw_dex.Leb.{next_uleb128, next_sleb128}
use droidsaw_dex.Debug.Machine.{
  FileView, Machine, Flow, push_entry, push_line, advance_pc, advance_line, checked_add_u32,
  checked_add_i32, start_local, end_local, last_local, restart_local, set_file, special_op,
  narrow_register, DebugOp, end_sequence, op_advance_pc, op_advance_line, op_start_local,
  op_end_local, op_restart_local, marker, op_set_file, special, unknown, run_op,
}
use droidsaw_dex.Debug.Rounds.{left}
use droidsaw_dex.Debug.Scopes.State.{IsScoped, later, end_active-IsScoped, insert_active-IsScoped}

narrow_register-lt : (raw rs : ℕ) → IfOk (λ register. register < rs) (narrow_register raw rs)
unfolding narrow_register
narrow_register-lt raw rs = ground arith

push_entry-same :
    (z : ℤ) (m : Machine)
    → ((push_entry z m).locals ≡ m.locals)
      × ((push_entry z m).active ≡ m.active)
      × ((push_entry z m).address ≡ m.address)
unfolding push_entry
push_entry-same (pos n) m = (refl, refl, refl)
push_entry-same (negsuc n) m = (refl, refl, refl)

checked_add_u32-le : (a b n : ℕ) → checked_add_u32 a b ≡ some n → a ≤ n
unfolding checked_add_u32
checked_add_u32-le a b n e = ground arith

module _ (rs : ℕ) (file : FileView) (bytes : List ℕ) (m : Machine) (h : IsScoped rs m) where
  abbrev LeavesScoped : Flow → Type 0
  LeavesScoped f = IsScoped rs (left f)

  moved :
      (at address : ℕ) (line : ℤ)
      → m.address ≤ address
      → IsScoped rs (push_line (record m { at = at; address = address; line = line }))
  unfolding push_line
  moved at address line le =
      let same = push_entry-same line (record m { at = at; address = address; line = line }) in
      later rs m _ same.0 same.1 (omega (arith, same.2)) h

  advance_pc-IsScoped : IfOk LeavesScoped (advance_pc file bytes m)
  unfolding advance_pc
  advance_pc-IsScoped = IfOk-then _ (next_uleb128 file.leb128 bytes m.at) _ λ r.
      elim (Option-cases (checked_add_u32 m.address r.0)) [
        | inl gone ↦ rw gone (later rs m _ refl refl (omega arith) h)
        | inr (a, e) ↦ rw e (later rs m _ refl refl (checked_add_u32-le m.address r.0 a e) h)
      ]

  advance_line-IsScoped : IfOk LeavesScoped (advance_line file bytes m)
  unfolding advance_line
  advance_line-IsScoped = IfOk-then _ (next_sleb128 file.leb128 bytes m.at) _ λ r.
      elim (Option-cases (checked_add_i32 m.line r.0)) [
        | inl gone ↦ rw gone (later rs m _ refl refl (omega arith) h)
        | inr (l, e) ↦ rw e (moved r.1 m.address l (omega arith))
      ]

  special_op-IsScoped : (adjusted : ℕ) → LeavesScoped (special_op adjusted m)
  unfolding special_op
  special_op-IsScoped adjusted =
      elim (Option-cases (checked_add_i32 m.line (negsuc 3 +ℤ pos (adjusted % 15)))) [
        | inl gone ↦ rw (gone, left, special_op) h
        | inr (l, e) ↦ elim (Option-cases (checked_add_u32 m.address (adjusted / 15))) [
          | inl gone ↦ rw (e, gone, left, special_op) (later rs m _ refl refl (omega arith) h)
          | inr (a, f) ↦ rw (e, f, left, special_op) (moved m.at a l (checked_add_u32-le _ _ a f))
        ]
      ]

  start_local-IsScoped :
      (extended : Bool) → IfOk LeavesScoped (start_local extended file bytes rs m)
  unfolding start_local
  start_local-IsScoped extended = IfOk-then _ (next_uleb128 file.leb128 bytes m.at) _ λ a.
      IfOk-bind _ _ (narrow_register a.0 rs) _ (narrow_register-lt a.0 rs) λ register small.
        IfOk-then _ (next_uleb128 file.leb128 bytes a.1) _ λ b.
          IfOk-then _ (next_uleb128 file.leb128 bytes b.1) _ λ c.
            IfOk-then _ (if extended then next_uleb128 file.leb128 bytes c.1 else ok (0, c.1)) _
              λ d. insert_active-IsScoped rs register _ _ _ small (
                end_active-IsScoped rs register (record m { at = d.1 })
                  (later rs m _ refl refl (omega arith) h))

  end_local-IsScoped : IfOk LeavesScoped (end_local file bytes rs m)
  unfolding end_local
  end_local-IsScoped = IfOk-then _ (next_uleb128 file.leb128 bytes m.at) _ λ a.
      IfOk-then _ (narrow_register a.0 rs) _ λ register.
        end_active-IsScoped rs register (record m { at = a.1 })
          (later rs m _ refl refl (omega arith) h)

  restart_local-IsScoped : IfOk LeavesScoped (restart_local file bytes rs m)
  unfolding restart_local
  restart_local-IsScoped = IfOk-then _ (next_uleb128 file.leb128 bytes m.at) _ λ a.
      IfOk-bind _ _ (narrow_register a.0 rs) _ (narrow_register-lt a.0 rs) λ register small.
        let here : IsScoped rs (record m { at = a.1 }) = later rs m _ refl refl (omega arith) h in
        elim (Option-cases (last_local register m.locals)) [
          | inl gone ↦ rw gone here
          | inr (l, e) ↦ rw e (
              insert_active-IsScoped rs register l.name l.type_desc (record m { at = a.1 }) small
                here)
        ]

  pub run_op-IsScoped : (op : DebugOp) → IfOk LeavesScoped (run_op op file bytes rs m)
  unfolding run_op set_file
  run_op-IsScoped end_sequence = h
  run_op-IsScoped op_advance_pc = advance_pc-IsScoped
  run_op-IsScoped op_advance_line = advance_line-IsScoped
  run_op-IsScoped (op_start_local extended) = start_local-IsScoped extended
  run_op-IsScoped op_end_local = end_local-IsScoped
  run_op-IsScoped op_restart_local = restart_local-IsScoped
  run_op-IsScoped marker = h
  run_op-IsScoped op_set_file =
      IfOk-then _ (next_uleb128 file.leb128 bytes m.at) _
        λ a. later rs m _ refl refl (omega arith) h
  run_op-IsScoped (special adjusted) = special_op-IsScoped adjusted
  run_op-IsScoped unknown = h
