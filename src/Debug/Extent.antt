-- ===== src/Debug/Extent.antt =====
-- The parser and the scanner agree on where an opcode ends.
use droidsaw_dex.Prelude.{
  ℕ, zero, suc, ◌/◌, ◌%◌, ◌≤◌, ◌≡◌, refl, sym, ap, arith, inl, inr, Bool, Bool-cases, true, false,
  Option-cases, List, get_elem?, if◌then◌else◌,
}
use droidsaw_dex.Prelude.Int.{pos, negsuc, ◌+ℤ◌}
use droidsaw_dex.Prelude.Errors.{ok, ◌>>=◌, IfOk, IfOk-bind, IfOk-then, IfOk-seq, IfOk-eq}
use droidsaw_dex.Decode.Reader.{Res, safe_add}
use droidsaw_dex.Leb.{next_uleb128, next_sleb128}
use droidsaw_dex.Debug.Machine.{
  FileView, Machine, Flow, go_on, break_out, push_line, advance_pc, advance_line, checked_add_u32,
  checked_add_i32, insert_active, start_local, end_local, last_local, restart_local, set_file,
  special_op, narrow_register, DebugOp, end_sequence, op_advance_pc, op_advance_line,
  op_start_local, op_end_local, op_restart_local, marker, op_set_file, special, unknown, run_op,
  debug_op,
}
use droidsaw_dex.Debug.Parse.{continue_with, run}
use droidsaw_dex.Debug.Rounds.{left, next_uleb128-le, next_sleb128-le, safe_add-IfOk}
use droidsaw_dex.Debug.Fuel.{push_entry-at, end_active-at}
use droidsaw_dex.Debug.Scan.{skip_ulebs, skip_sleb, skip_op, is_end, scan_ops}

module _ (file : FileView) (bytes : List ℕ) (rs : ℕ) (m : Machine) where
  abbrev Agrees : DebugOp → Flow → Type 0
  Agrees op f = skip_op op file bytes m.at ≡ ok (left f).at

  advance_pc-Agrees : IfOk (Agrees op_advance_pc) (advance_pc file bytes m)
  unfolding advance_pc skip_op skip_ulebs
  advance_pc-Agrees = IfOk-seq _ (next_uleb128 file.leb128 bytes m.at) _ λ r e.
      elim (Option-cases (checked_add_u32 m.address r.0)) [
        | inl gone ↦ rw gone (rw e)
        | inr (a, ea) ↦ rw ea (rw e)
      ]

  advance_line-Agrees : IfOk (Agrees op_advance_line) (advance_line file bytes m)
  unfolding advance_line push_line skip_op skip_sleb
  advance_line-Agrees = IfOk-seq _ (next_sleb128 file.leb128 bytes m.at) _ λ r e.
      elim (Option-cases (checked_add_i32 m.line r.0)) [
        | inl gone ↦ rw gone (rw e)
        | inr (l, el) ↦ rw (el, push_entry-at l (record m { at = r.1; line = l })) (rw e)
      ]

  special_op-Agrees : (adjusted : ℕ) → Agrees (special adjusted) (special_op adjusted m)
  unfolding special_op push_line skip_op
  special_op-Agrees adjusted =
      elim (Option-cases (checked_add_i32 m.line (negsuc 3 +ℤ pos (adjusted % 15)))) [
        | inl gone ↦ rw (gone, left, special_op) refl
        | inr (l, e) ↦ elim (Option-cases (checked_add_u32 m.address (adjusted / 15))) [
          | inl gone ↦ rw (e, gone, left, special_op) refl
          | inr (a, f) ↦
              rw (e, f, left, special_op)
                (ap ok (sym (push_entry-at l (record m { line = l; address = a }))))
        ]
      ]

  end_local-Agrees : IfOk (Agrees op_end_local) (end_local file bytes rs m)
  unfolding end_local skip_op skip_ulebs
  end_local-Agrees = IfOk-seq _ (next_uleb128 file.leb128 bytes m.at) _ λ a e.
      IfOk-then _ (narrow_register a.0 rs) _
        λ register. rw e (ap ok (sym (end_active-at register (record m { at = a.1 }))))

  restart_local-Agrees : IfOk (Agrees op_restart_local) (restart_local file bytes rs m)
  unfolding restart_local insert_active skip_op skip_ulebs
  restart_local-Agrees = IfOk-seq _ (next_uleb128 file.leb128 bytes m.at) _ λ a e.
      IfOk-then _ (narrow_register a.0 rs) _ λ register.
        elim (Option-cases (last_local register m.locals)) [
          | inl gone ↦ rw gone (rw e)
          | inr (l, el) ↦ rw el (rw e)
        ]

  start_local-Agrees :
      (extended : Bool)
      → IfOk (Agrees (op_start_local extended)) (start_local extended file bytes rs m)
  unfolding start_local insert_active skip_op skip_ulebs
  start_local-Agrees false = IfOk-seq _ (next_uleb128 file.leb128 bytes m.at) _ λ a ea.
      IfOk-then _ (narrow_register a.0 rs) _ λ register.
        IfOk-seq _ (next_uleb128 file.leb128 bytes a.1) _ λ b eb.
          IfOk-seq _ (next_uleb128 file.leb128 bytes b.1) _
            λ c ec. rw (ea, eb, ec) (ap ok (sym (end_active-at register (record m { at = c.1 }))))
  start_local-Agrees true = IfOk-seq _ (next_uleb128 file.leb128 bytes m.at) _ λ a ea.
      IfOk-then _ (narrow_register a.0 rs) _ λ register.
        IfOk-seq _ (next_uleb128 file.leb128 bytes a.1) _ λ b eb.
          IfOk-seq _ (next_uleb128 file.leb128 bytes b.1) _ λ c ec.
            IfOk-seq _ (next_uleb128 file.leb128 bytes c.1) _ λ d ed.
              rw (ea, eb, ec, ed) (ap ok (sym (end_active-at register (record m { at = d.1 }))))

  run_op-Agrees : (op : DebugOp) → is_end op ≡ false → IfOk (Agrees op) (run_op op file bytes rs m)
  unfolding run_op set_file skip_op skip_ulebs is_end
  run_op-Agrees end_sequence not_end = absurd (cc not_end)
  run_op-Agrees op_advance_pc not_end = advance_pc-Agrees
  run_op-Agrees op_advance_line not_end = advance_line-Agrees
  run_op-Agrees (op_start_local extended) not_end = start_local-Agrees extended
  run_op-Agrees op_end_local not_end = end_local-Agrees
  run_op-Agrees op_restart_local not_end = restart_local-Agrees
  run_op-Agrees marker not_end = refl
  run_op-Agrees op_set_file not_end = IfOk-seq _ (next_uleb128 file.leb128 bytes m.at) _ λ a e. rw e
  run_op-Agrees (special adjusted) not_end = special_op-Agrees adjusted
  run_op-Agrees unknown not_end = refl

skip_ulebs-le :
    (file : FileView) (bytes : List ℕ) (n lo at : ℕ)
    → lo ≤ at
    → IfOk (λ p. lo ≤ p) (skip_ulebs file bytes n at)
unfolding skip_ulebs
skip_ulebs-le file bytes zero lo at le = le
skip_ulebs-le file bytes (suc n) lo at le =
    IfOk-bind _ _ (next_uleb128 file.leb128 bytes at) _ (next_uleb128-le file.leb128 bytes lo at le)
      λ r k. skip_ulebs-le file bytes n lo r.1 k

skip_op-le :
    (file : FileView) (bytes : List ℕ) (op : DebugOp) (at : ℕ)
    → IfOk (λ p. at ≤ p) (skip_op op file bytes at)
unfolding skip_op skip_sleb
skip_op-le file bytes op_advance_pc at = skip_ulebs-le file bytes 1 at at (omega arith)
skip_op-le file bytes op_advance_line at =
    IfOk-bind _ _ (next_sleb128 file.leb128 bytes at) _
      (next_sleb128-le file.leb128 bytes at at (omega arith)) λ r k. k
skip_op-le file bytes (op_start_local extended) at =
    skip_ulebs-le file bytes (if extended then 4 else 3) at at (omega arith)
skip_op-le file bytes op_end_local at = skip_ulebs-le file bytes 1 at at (omega arith)
skip_op-le file bytes op_restart_local at = skip_ulebs-le file bytes 1 at at (omega arith)
skip_op-le file bytes op_set_file at = skip_ulebs-le file bytes 1 at at (omega arith)
skip_op-le file bytes end_sequence at = omega arith
skip_op-le file bytes marker at = omega arith
skip_op-le file bytes (special adjusted) at = omega arith
skip_op-le file bytes unknown at = omega arith

-- The scanner does not move back.
scan_ops-le :
    (file : FileView) (bytes : List ℕ) (rounds lo at : ℕ)
    → lo ≤ at
    → IfOk (λ p. lo ≤ p) (scan_ops file bytes rounds at)
unfolding scan_ops
scan_ops-le file bytes zero lo at le = tt
scan_ops-le file bytes (suc rounds) lo at le = elim (Option-cases (get_elem? bytes at)) [
  | inl gone ↦ rw (gone, scan_ops) tt
  | inr (opcode, e) ↦
      rw (e, scan_ops)
        (IfOk-bind _ _ (safe_add at 1) _ (safe_add-IfOk at 1) λ at' k.
          elim (Bool-cases (is_end (debug_op opcode))) [
            | inl end ↦ rw end (omega arith)
            | inr go ↦ rw go (
                IfOk-bind _ _ (skip_op (debug_op opcode) file bytes at') _
                  (skip_op-le file bytes (debug_op opcode) at')
                  λ p kp. scan_ops-le file bytes rounds lo p (omega arith))
          ])
]

continue_with-le :
    (end : ℕ) (next : Machine → Res Machine) (f : Flow)
    → (left f).at ≤ end
    → IfOk (λ (m : Machine). m.at ≤ end) (next (left f))
    → IfOk (λ (m : Machine). m.at ≤ end) (continue_with next f)
unfolding continue_with
continue_with-le end next (go_on m) le h = h
continue_with-le end next (break_out m) le h = le

is_end-eq : (op : DebugOp) → is_end op ≡ true → op ≡ end_sequence
unfolding is_end
is_end-eq end_sequence h = refl
is_end-eq _ h = absurd (cc h)

module _ (file : FileView) (bytes : List ℕ) (registers_size end : ℕ) where
  -- A round that is not the last one of the scanner.
  round-le :
      (op : DebugOp) (rounds : ℕ) (m : Machine)
      → is_end op ≡ false
      → ((next : Machine)
          → scan_ops file bytes rounds next.at ≡ ok end
          → IfOk (λ (x : Machine). x.at ≤ end) (run file bytes registers_size rounds next))
      → (skip_op op file bytes m.at >>= scan_ops file bytes rounds) ≡ ok end
      → IfOk
          (λ (x : Machine). x.at ≤ end)
          (run_op op file bytes registers_size m
            >>= continue_with (run file bytes registers_size rounds))
  round-le op rounds m not_end rest scanned =
      IfOk-bind _ _ (run_op op file bytes registers_size m) _
        (run_op-Agrees file bytes registers_size m op not_end)
        λ f agrees.
          let scanned' : scan_ops file bytes rounds (left f).at ≡ ok end = rw agrees at scanned in
          continue_with-le end (run file bytes registers_size rounds) f
            (IfOk-eq (λ p. (left f).at ≤ p) (scan_ops file bytes rounds (left f).at)
              (scan_ops-le file bytes rounds (left f).at (left f).at (omega arith)) scanned')
            (rest (left f) scanned')

  run-le :
      (rounds : ℕ) (m : Machine)
      → scan_ops file bytes rounds m.at ≡ ok end
      → IfOk (λ (x : Machine). x.at ≤ end) (run file bytes registers_size rounds m)
  unfolding run scan_ops run_op
  run-le zero m scanned = absurd (cc scanned)
  run-le (suc rounds) m scanned = elim (Option-cases (get_elem? bytes m.at)) [
    | inl gone ↦ absurd (cc (rw (gone, scan_ops) at scanned))
    | inr (opcode, e) ↦
        rw (e, run)
          (IfOk-seq _ (safe_add m.at 1) _ λ at ea.
            let scanned' = rw (e, ea, scan_ops) at scanned in
            elim (Bool-cases (is_end (debug_op opcode))) [
              | inl last ↦
                  rw (is_end-eq (debug_op opcode) last, run_op, continue_with)
                    (let here : at ≡ end = cc (rw last at scanned') in omega (arith, here))
              | inr more ↦
                  round-le (debug_op opcode) rounds (record m { at = at }) more (run-le rounds)
                    (rw more at scanned')
            ])
  ]

-- When the scanner finds the end of the opcodes, the parser, started at the same position with as
-- many rounds, does not read past it.
pub run-scan_ops :
    (file : FileView) (bytes : List ℕ) (registers_size rounds : ℕ) (m m' : Machine) (end : ℕ)
    → scan_ops file bytes rounds m.at ≡ ok end
    → run file bytes registers_size rounds m ≡ ok m'
    → m'.at ≤ end
run-scan_ops file bytes registers_size rounds m m' end scanned ran =
    IfOk-eq (λ (x : Machine). x.at ≤ end) (run file bytes registers_size rounds m)
      (run-le file bytes registers_size end rounds m scanned) ran
