-- ===== src/Decode/Stream/Insns.antt =====
-- src/decode.rs: `decode_insns`.
use droidsaw_dex.Prelude.{ℕ, zero, suc, List, [], ◌++◌, ltb, if◌then◌else◌}
use droidsaw_dex.Prelude.Errors.{ok, ◌>>=◌}
use droidsaw_dex.Decode.Insn.{Instruction}
use droidsaw_dex.Decode.Item.{PayloadData}
use droidsaw_dex.Decode.Reader.{Res}
use droidsaw_dex.Decode.Single.{Violation}
use droidsaw_dex.Decode.Payload.{BoundCount}
use droidsaw_dex.Decode.Stream.Step.{Scan, start, step}
use droidsaw_dex.Decode.Stream.Checks.{tail_bytes, check_targets, resolve}

-- `while pc < insns_size`. A round moves the address on, so that `insns_size` rounds are enough.
unfoldable pub scan : List ℕ → ℕ → ℕ → ℕ → Scan → Res Scan
scan bytes insns_off insns_size zero s = ok s
scan bytes insns_off insns_size (suc rounds) s =
    if ltb s.pc insns_size
    then step bytes insns_off insns_size s >>= scan bytes insns_off insns_size rounds
    else ok s

-- `DecodedInsnStream`
pub record Stream : Type 0 where
  pub instructions : List Instruction
  pub payloads : List (ℕ × PayloadData)
  pub violations : List Violation

unfoldable pub decode_insns : BoundCount → List ℕ → ℕ → ℕ → Res Stream
unfolding start
decode_insns bound_count bytes insns_off insns_size = do
  s ← scan bytes insns_off insns_size insns_size start
  let vs =
      s.violations
      ++ tail_bytes insns_size s.pc
      ++ check_targets insns_size s.opcode_starts s.instructions s.instructions
  (payloads, vs') ← resolve bound_count bytes insns_off insns_size s.pending ([], vs)
  ok (record { instructions = s.instructions; payloads = payloads; violations = vs' })
