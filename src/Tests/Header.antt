-- ===== src/Tests/Header.antt =====
-- The header of a file with two bytes of data behind it.
use droidsaw_dex.Prelude.{ℕ, ◌+◌, ◌*◌, ◌%◌, ◌<◌, ◌≡◌, refl, arith, List, [], ◌∷◌, ◌++◌}
use droidsaw_dex.Prelude.Errors.{ok}
use droidsaw_dex.Emit.Header.{HeaderLayout, emit_header, no_signature, finalize_checksums}
use droidsaw_dex.Header.{DexHeader, any_eq, parse, verify_checksum}
use droidsaw_dex.Header.RoundTrip.{parsed}
use droidsaw_dex.Header.Finalize.{parse-emit_header, verify_checksum-finalize_checksums}

abbrev small_layout : HeaderLayout
small_layout = record {
  version = 0x30 ∷ 0x33 ∷ 0x35 ∷ [];
  file_size = 114;
  map_off = 0;
  string_ids_size = 0;
  string_ids_off = 0;
  type_ids_size = 0;
  type_ids_off = 0;
  proto_ids_size = 0;
  proto_ids_off = 0;
  field_ids_size = 0;
  field_ids_off = 0;
  method_ids_size = 0;
  method_ids_off = 0;
  class_defs_size = 0;
  class_defs_off = 0;
  data_size = 2;
  data_off = 112;
}

-- Stand-ins for the two hashes.
abbrev rolling_sum : List ℕ → ℕ
rolling_sum [] = 1
rolling_sum (b ∷ bytes) = (b + rolling_sum bytes * 3) % 65521

rolling_sum-lt : (bytes : List ℕ) → rolling_sum bytes < 0x1_0000_0000
rolling_sum-lt [] = omega arith
rolling_sum-lt (b ∷ bytes) = omega arith

parse-emit_header_example :
    parse (emit_header small_layout ++ 7 ∷ 9 ∷ []) ≡ ok (parsed small_layout 0 no_signature)
unfolding any_eq
parse-emit_header_example = parse-emit_header small_layout (7 ∷ 9 ∷ []) refl refl (omega arith)

verify_checksum-finalize_checksums_example :
    (out : List ℕ) × (h : DexHeader) × (finalize_checksums
        (λ bytes. no_signature)
        rolling_sum
        (emit_header small_layout ++ 7 ∷ 9 ∷ [])
      ≡ ok out)
    × (parse out ≡ ok h)
    × (verify_checksum rolling_sum h out ≡ ok tt)
    × (h ≡ parsed small_layout h.checksum no_signature)
unfolding any_eq emit_header
verify_checksum-finalize_checksums_example =
    verify_checksum-finalize_checksums (λ bytes. no_signature) rolling_sum small_layout (7 ∷ 9 ∷ [])
      (λ bytes. refl) rolling_sum-lt refl refl (omega arith) refl
