-- ===== src/Debug/Parse.antt =====
-- src/debug.rs: `parse_debug_info` and the look-ups in what it returns.
use droidsaw_dex.Prelude.{
  ℕ, zero, suc, Option, none, some, List, [], ◌∷◌, ◌++◌, length, get_elem?, leb, if◌then◌else◌,
}
use droidsaw_dex.Prelude.Errors.{ok, ◌>>=◌}
use droidsaw_dex.Prelude.Words.{as_signed}
use droidsaw_dex.Decode.Reader.{Res, safe_add}
use droidsaw_dex.Leb.{next_uleb128}
use droidsaw_dex.Debug.Machine.{
  Text, FileView, LocalVar, Machine, Flow, go_on, break_out, lookup_plus_one, debug_op, run_op,
}

pub record DebugInfo : Type 0 where
  pub line_start : ℕ
  pub parameter_names : List (Option Text)
  pub locals : List LocalVar
  pub line_table : List (ℕ × ℕ)

-- `for _ in 0..params_count`, with the position behind the names
unfoldable pub read_names : FileView → List ℕ → ℕ → ℕ → Res (List (Option Text) × ℕ)
unfolding lookup_plus_one
read_names file bytes zero at = ok ([], at)
read_names file bytes (suc n) at = do
  (idx_plus_one, at') ← next_uleb128 file.leb128 bytes at
  (names, end) ← read_names file bytes n at'
  ok (lookup_plus_one file.get_string idx_plus_one ∷ names, end)

-- What follows a round: the next rounds, or nothing after a break.
unfoldable pub continue_with : (Machine → Res Machine) → Flow → Res Machine
continue_with next (go_on m) = next m
continue_with next (break_out m) = ok m

-- `while let Some(&opcode) = data.get(pos)`. Each round moves the position on, so that as many
-- rounds as there are bytes are enough.
unfoldable pub run : FileView → List ℕ → ℕ → ℕ → Machine → Res Machine
unfolding debug_op continue_with
run file bytes registers_size zero m = ok m
run file bytes registers_size (suc rounds) m = elim (get_elem? bytes m.at) [
  | none ↦ ok m
  | some opcode ↦ do
    at ← safe_add m.at 1
    run_op (debug_op opcode) file bytes registers_size (record m { at = at })
        >>= continue_with (run file bytes registers_size rounds)
]

-- The locals that are still active extend to the end of the method.
unfoldable pub close_active : List (ℕ × LocalVar) → List LocalVar
close_active [] = []
close_active ((register, l) ∷ rest) = record l { end_addr = none } ∷ close_active rest

abbrev pub initial : ℕ → ℕ → Machine
initial at line_start = record {
  at = at;
  address = 0;
  line = as_signed 32 line_start;
  active = [];
  locals = [];
  line_table = (0, line_start) ∷ [];
}

unfoldable pub parse_debug_info : FileView → List ℕ → ℕ → ℕ → Res DebugInfo
unfolding close_active
parse_debug_info file bytes offset registers_size = do
  (line_start, p1) ← next_uleb128 file.leb128 bytes offset
  (params_size, p2) ← next_uleb128 file.leb128 bytes p1
  params_count ← file.bound_count params_size 1 (length bytes)
  (names, at) ← read_names file bytes params_count p2
  m ← run file bytes registers_size (length bytes) (initial at line_start)
  ok (record {
    line_start = line_start;
    parameter_names = names;
    locals = m.locals ++ close_active m.active;
    line_table = m.line_table;
  })

-- `line_table.iter().rev().find(|(entry_pc, _)| *entry_pc <= pc)`
unfoldable pub last_entry : List (ℕ × ℕ) → ℕ → Option ℕ
last_entry [] pc = none
last_entry ((entry_pc, line) ∷ rest) pc = elim (last_entry rest pc) [
  | some found ↦ some found
  | none ↦ if leb entry_pc pc then some line else none
]

unfoldable pub line_at : DebugInfo → ℕ → Option ℕ
unfolding last_entry
line_at debug pc = last_entry debug.line_table pc
