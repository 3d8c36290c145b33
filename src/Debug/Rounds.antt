-- ===== src/Debug/Rounds.antt =====
-- What every opcode keeps, the whole machine keeps; and the rounds are enough.
use droidsaw_dex.Prelude.{
  ℕ, zero, suc, ◌+◌, ◌≤◌, ◌≡◌, refl, arith, inl, inr, Option-cases, List, ◌++◌, length, get_elem?,
}
use droidsaw_dex.Prelude.Errors.{IfOk, IfOk-bind, IfOk-then}
use droidsaw_dex.Decode.Reader.{Res, safe_add}
use droidsaw_dex.Leb.{Leb128, read_uleb128, read_sleb128, next_uleb128, next_sleb128}
use droidsaw_dex.Debug.Machine.{
  FileView, Machine, Flow, go_on, break_out, DebugOp, run_op, debug_op,
}
use droidsaw_dex.Debug.Parse.{
  DebugInfo, read_names, continue_with, run, close_active, initial, parse_debug_info,
}

-- The machine that a round leaves behind.
abbrev pub left : Flow → Machine
left (go_on m) = m
left (break_out m) = m

continue_with-inv {ℓ} :
    (P : Machine → Type ℓ) (next : Machine → Res Machine) (f : Flow)
    → ((m : Machine) → P m → IfOk P (next m))
    → P (left f)
    → IfOk P (continue_with next f)
unfolding continue_with
continue_with-inv P next (go_on m) k h = k m h
continue_with-inv P next (break_out m) k h = h

module _ {ℓ} (P : Machine → Type ℓ) (file : FileView) (bytes : List ℕ) (registers_size : ℕ)
    (moves : (m : Machine) (at : ℕ) → P m → P (record m { at = at }))
    (keeps : (op : DebugOp) (m : Machine)
      → P m
      → IfOk (λ f. P (left f)) (run_op op file bytes registers_size m)) where
  run-inv : (rounds : ℕ) (m : Machine) → P m → IfOk P (run file bytes registers_size rounds m)
  unfolding run
  run-inv zero m h = h
  run-inv (suc rounds) m h = elim (Option-cases (get_elem? bytes m.at)) [
    | inl gone ↦ rw (gone, run) h
    | inr (opcode, e) ↦
        rw (e, run)
          (IfOk-then P (safe_add m.at 1) _ λ at.
            IfOk-bind (λ f. P (left f)) P
              (run_op (debug_op opcode) file bytes registers_size (record m { at = at })) _
              (keeps (debug_op opcode) (record m { at = at }) (moves m at h))
              λ f k.
                continue_with-inv P (run file bytes registers_size rounds) f (run-inv rounds) k)
  ]

-- The parts of a result are those of a machine that has the property.
abbrev pub Ends {ℓ} : (ℕ → Machine → Type ℓ) → DebugInfo → Type ℓ
Ends P d =
    (m : Machine) × P d.line_start m
    × (d.locals ≡ m.locals ++ close_active m.active)
    × (d.line_table ≡ m.line_table)

pub parse_debug_info-inv {ℓ} :
    (P : ℕ → Machine → Type ℓ) (file : FileView) (bytes : List ℕ) (offset registers_size : ℕ)
    → ((n : ℕ) (m : Machine) (at : ℕ) → P n m → P n (record m { at = at }))
    → ((n : ℕ) (op : DebugOp) (m : Machine)
        → P n m
        → IfOk (λ f. P n (left f)) (run_op op file bytes registers_size m))
    → ((n at : ℕ) → P n (initial at n))
    → IfOk (Ends P) (parse_debug_info file bytes offset registers_size)
unfolding parse_debug_info
parse_debug_info-inv P file bytes offset registers_size moves keeps starts =
    IfOk-then _ (next_uleb128 file.leb128 bytes offset) _ λ a.
      IfOk-then _ (next_uleb128 file.leb128 bytes a.1) _ λ b.
        IfOk-then _ (file.bound_count b.0 1 (length bytes)) _ λ count.
          IfOk-then _ (read_names file bytes count b.1) _ λ names.
            IfOk-bind (P a.0) _ (run file bytes registers_size (length bytes) (initial names.1 a.0))
              _
              (run-inv (P a.0) file bytes registers_size (moves a.0) (keeps a.0) (length bytes)
                (initial names.1 a.0) (starts a.0 names.1))
              λ m h. (m, h, refl, refl)

pub safe_add-IfOk : (a b : ℕ) → IfOk (λ n. n ≡ a + b) (safe_add a b)
unfolding safe_add
safe_add-IfOk a b = ground arith

-- To read an operand does not move back.
pub next_uleb128-le :
    (leb : Leb128) (bytes : List ℕ) (lo at : ℕ)
    → lo ≤ at
    → IfOk (λ r. lo ≤ r.1) (next_uleb128 leb bytes at)
unfolding next_uleb128
next_uleb128-le leb bytes lo at le =
    IfOk-then _ (read_uleb128 leb bytes at) _
      λ r. IfOk-bind _ _ (safe_add at r.1) _ (safe_add-IfOk at r.1) λ n k. omega arith

pub next_sleb128-le :
    (leb : Leb128) (bytes : List ℕ) (lo at : ℕ)
    → lo ≤ at
    → IfOk (λ r. lo ≤ r.1) (next_sleb128 leb bytes at)
unfolding next_sleb128
next_sleb128-le leb bytes lo at le =
    IfOk-then _ (read_sleb128 leb bytes at) _
      λ r. IfOk-bind _ _ (safe_add at r.1) _ (safe_add-IfOk at r.1) λ n k. omega arith
