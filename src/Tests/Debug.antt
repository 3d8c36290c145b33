-- ===== src/Tests/Debug.antt =====
-- A debug info with a parameter, a local that starts and ends, and a line that is moved on.
use droidsaw_dex.Prelude.{ℕ, ◌≤◌, ◌≡◌, refl, none, some, List, [], ◌∷◌}
use droidsaw_dex.Prelude.Int.{pos}
use droidsaw_dex.Prelude.Errors.{ok}
use droidsaw_dex.Debug.Machine.{
  FileView, LocalVar, Machine, run_op, debug_op, start_local, end_local, special_op,
}
use droidsaw_dex.Debug.Parse.{DebugInfo, initial, run, parse_debug_info, line_at, read_names}
use droidsaw_dex.Debug.Lookup.{in_scope, not_this, local_name_at}
use droidsaw_dex.Debug.Scan.{scan_ops}
use droidsaw_dex.Debug.Lines.{CutAt, parse_debug_info-line_at}
use droidsaw_dex.Debug.Scopes.Lookup.{parse_debug_info-local_name_at}
use droidsaw_dex.Debug.Extent.{run-scan_ops}
use droidsaw_dex.Leb.{next_uleb128, next_sleb128}
use droidsaw_dex.Decode.Reader.{safe_add}
use droidsaw_dex.Tests.Samples.{sample_leb128, sample_bound_count}

abbrev sample_file : FileView
sample_file = record {
  leb128 = sample_leb128;
  bound_count = sample_bound_count;
  get_string = λ i. some (0x61 ∷ i ∷ []);
  get_type_descriptor = λ i. none;
}

abbrev sample_bytes : List ℕ
sample_bytes = 5 ∷ 1 ∷ 1 ∷ 3 ∷ 1 ∷ 2 ∷ 0 ∷ 0x1e ∷ 5 ∷ 1 ∷ 0 ∷ []

abbrev sample_local : LocalVar
sample_local = record {
  register = 1;
  name = some (0x61 ∷ 1 ∷ []);
  type_desc = none;
  start_addr = 0;
  end_addr = some 1;
}

abbrev sample_info : DebugInfo
sample_info = record {
  line_start = 5;
  parameter_names = some (0x61 ∷ 0 ∷ []) ∷ [];
  locals = sample_local ∷ [];
  line_table = (0, 5) ∷ (1, 6) ∷ [];
}

sample_parsed : parse_debug_info sample_file sample_bytes 0 2 ≡ ok sample_info
unfolding parse_debug_info next_uleb128 next_sleb128 safe_add read_names run run_op debug_op
    start_local end_local special_op
sample_parsed = refl

parse_debug_info-line_at_example : CutAt 3 sample_info.line_table (line_at sample_info 3)
parse_debug_info-line_at_example =
    parse_debug_info-line_at sample_file sample_bytes 0 2 sample_info 3 sample_parsed

abbrev first_local : ℕ
first_local = 0

parse_debug_info-local_name_at_example :
    (first_local ≡ first_local) × (local_name_at sample_info 1 0 ≡ some (0x61 ∷ 1 ∷ []))
unfolding in_scope not_this
parse_debug_info-local_name_at_example =
    parse_debug_info-local_name_at sample_file sample_bytes 0 2 1 0 sample_info first_local
      first_local sample_local sample_local sample_parsed refl refl refl refl refl

abbrev after_sample : Machine
after_sample = record (initial 11 5) {
  address = 1;
  line = pos 6;
  locals = sample_local ∷ [];
  line_table = (0, 5) ∷ (1, 6) ∷ [];
}

run-scan_ops_example : 11 ≤ 11
unfolding scan_ops run next_uleb128 next_sleb128 safe_add run_op debug_op start_local end_local
    special_op
run-scan_ops_example =
    run-scan_ops sample_file sample_bytes 2 9 (initial 3 5) after_sample 11 refl refl
