-- ===== src/Decode/Single/Reads.antt =====
-- What `decode_operands` reads and what it keeps, for every format.
use Prim.Native.Nat.{min, bit_or, ◌*◌}
use droidsaw_dex.Prelude.{sym, ℕ, ◌-◌, ◌<◌, ◌^◌, ◌≡◌, refl, arith, List, [], ◌++◌}
use mathlib.Core.List.{append-nil}
use droidsaw_dex.Prelude.Errors.{ok, err, IfOk, IfOk-then}
use droidsaw_dex.Prelude.Words.{as_signed}
use droidsaw_dex.Decode.Format.{InsnFormat, format_size}
use droidsaw_dex.Decode.Insn.{Instruction}
use droidsaw_dex.Decode.Reader.{Res, branch_target}
use droidsaw_dex.Decode.Reader.Bounds.{value}
use droidsaw_dex.Decode.Single.{Decoded, Violation, decode_operands, range_regs, check_arg_count}

-- The instruction of a result.
abbrev pub decoded_insn : Res Decoded → Res Instruction
decoded_insn (ok d) = ok d.0
decoded_insn (err e) = err e

-- The violations that the decoding of one instruction adds.
pub new_violations : InsnFormat → Instruction → ℕ → List Violation
unfolding check_arg_count
new_violations InsnFormat.f35c insn b = check_arg_count insn b []
new_violations InsnFormat.f45cc insn b = check_arg_count insn b []
new_violations _ insn b = []

module _ (insn : Instruction) (aa a b : ℕ) (unit : ℕ → Res ℕ) (vs : List Violation) where
  -- A successful decoding does not see whether a unit that it did not read can be read.
  pub decode_operands-value :
      (fmt : InsnFormat) (d : Decoded)
      → decode_operands fmt insn aa a b unit vs ≡ ok d
      → decode_operands fmt insn aa a b (λ i. ok (value (unit i))) vs ≡ ok d
  unfolding decode_operands
  decode_operands-value InsnFormat.f10x d h = h
  decode_operands-value _ d h = ground arith

  -- The address, the opcode and the size stay, and the violations of this instruction are added
  -- behind those that were there.
  abbrev pub Keeps : InsnFormat → Decoded → Type 0
  Keeps fmt d =
      (d.0.addr ≡ insn.addr)
      × (d.0.op ≡ insn.op)
      × (d.0.size ≡ insn.size)
      × (d.1 ≡ vs ++ new_violations fmt insn b)

  count_violations : check_arg_count insn b vs ≡ vs ++ check_arg_count insn b []
  unfolding check_arg_count
  count_violations = ground (arith, append-nil vs)

  pub decode_operands-Keeps :
      (fmt : InsnFormat) → IfOk (Keeps fmt) (decode_operands fmt insn aa a b unit vs)
  unfolding decode_operands new_violations
  decode_operands-Keeps InsnFormat.f10x = (refl, refl, refl, sym (append-nil vs))
  decode_operands-Keeps InsnFormat.f12x = (refl, refl, refl, sym (append-nil vs))
  decode_operands-Keeps InsnFormat.f11n = (refl, refl, refl, sym (append-nil vs))
  decode_operands-Keeps InsnFormat.f11x = (refl, refl, refl, sym (append-nil vs))
  decode_operands-Keeps InsnFormat.f10t =
      IfOk-then _ (branch_target insn.addr (as_signed 8 aa)) _
        λ t. (refl, refl, refl, sym (append-nil vs))
  decode_operands-Keeps InsnFormat.f22x =
      IfOk-then _ (unit 1) _ λ u1. (refl, refl, refl, sym (append-nil vs))
  decode_operands-Keeps InsnFormat.f21s =
      IfOk-then _ (unit 1) _ λ u1. (refl, refl, refl, sym (append-nil vs))
  decode_operands-Keeps InsnFormat.f21h =
      IfOk-then _ (unit 1) _ λ u1. (refl, refl, refl, sym (append-nil vs))
  decode_operands-Keeps InsnFormat.f21c =
      IfOk-then _ (unit 1) _ λ u1. (refl, refl, refl, sym (append-nil vs))
  decode_operands-Keeps InsnFormat.f23x =
      IfOk-then _ (unit 1) _ λ u1. (refl, refl, refl, sym (append-nil vs))
  decode_operands-Keeps InsnFormat.f22s =
      IfOk-then _ (unit 1) _ λ u1. (refl, refl, refl, sym (append-nil vs))
  decode_operands-Keeps InsnFormat.f22c =
      IfOk-then _ (unit 1) _ λ u1. (refl, refl, refl, sym (append-nil vs))
  decode_operands-Keeps InsnFormat.f22b =
      IfOk-then _ (unit 1) _ λ u1. (refl, refl, refl, sym (append-nil vs))
  decode_operands-Keeps InsnFormat.f20t = IfOk-then _ (unit 1) _ λ u1.
      IfOk-then _ (branch_target insn.addr (as_signed 16 u1)) _
        λ t. (refl, refl, refl, sym (append-nil vs))
  decode_operands-Keeps InsnFormat.f21t = IfOk-then _ (unit 1) _ λ u1.
      IfOk-then _ (branch_target insn.addr (as_signed 16 u1)) _
        λ t. (refl, refl, refl, sym (append-nil vs))
  decode_operands-Keeps InsnFormat.f22t = IfOk-then _ (unit 1) _ λ u1.
      IfOk-then _ (branch_target insn.addr (as_signed 16 u1)) _
        λ t. (refl, refl, refl, sym (append-nil vs))
  decode_operands-Keeps InsnFormat.f32x =
      IfOk-then _ (unit 1) _
        λ u1. IfOk-then _ (unit 2) _ λ u2. (refl, refl, refl, sym (append-nil vs))
  decode_operands-Keeps InsnFormat.f31i =
      IfOk-then _ (unit 1) _
        λ u1. IfOk-then _ (unit 2) _ λ u2. (refl, refl, refl, sym (append-nil vs))
  decode_operands-Keeps InsnFormat.f31c =
      IfOk-then _ (unit 1) _
        λ u1. IfOk-then _ (unit 2) _ λ u2. (refl, refl, refl, sym (append-nil vs))
  decode_operands-Keeps InsnFormat.f30t = IfOk-then _ (unit 1) _ λ u1. IfOk-then _ (unit 2) _ λ u2.
      IfOk-then _ (branch_target insn.addr (as_signed 32 (bit_or u1 (u2 * 2 ^ 16)))) _
        λ t. (refl, refl, refl, sym (append-nil vs))
  decode_operands-Keeps InsnFormat.f31t = IfOk-then _ (unit 1) _ λ u1. IfOk-then _ (unit 2) _ λ u2.
      IfOk-then _ (branch_target insn.addr (as_signed 32 (bit_or u1 (u2 * 2 ^ 16)))) _
        λ t. (refl, refl, refl, sym (append-nil vs))
  decode_operands-Keeps InsnFormat.f35c =
      IfOk-then _ (unit 1) _ λ u1. IfOk-then _ (unit 2) _ λ u2. (refl, refl, refl, count_violations)
  decode_operands-Keeps InsnFormat.f45cc = IfOk-then _ (unit 1) _ λ u1.
      IfOk-then _ (unit 2) _ λ u2. IfOk-then _ (unit 3) _ λ u3. (refl, refl, refl, count_violations)
  decode_operands-Keeps InsnFormat.f3rc = IfOk-then _ (unit 1) _ λ u1. IfOk-then _ (unit 2) _ λ u2.
      IfOk-then _ (range_regs insn.addr u2 (min aa 5) 0 _) _
        λ regs. (refl, refl, refl, sym (append-nil vs))
  decode_operands-Keeps InsnFormat.f4rcc = IfOk-then _ (unit 1) _ λ u1. IfOk-then _ (unit 2) _ λ u2.
      IfOk-then _ (unit 3) _ λ u3.
        IfOk-then _ (range_regs insn.addr u2 (min aa 5) 0 _) _
          λ regs. (refl, refl, refl, sym (append-nil vs))
  decode_operands-Keeps InsnFormat.f51l = IfOk-then _ (unit 1) _ λ u1. IfOk-then _ (unit 2) _ λ u2.
      IfOk-then _ (unit 3) _
        λ u3. IfOk-then _ (unit 4) _ λ u4. (refl, refl, refl, sym (append-nil vs))

  -- The last unit of the format is read.
  pub decode_operands-last :
      (fmt : InsnFormat) (u0 : ℕ) (d : Decoded)
      → unit 0 ≡ ok u0
      → decode_operands fmt insn aa a b unit vs ≡ ok d
      → (u : ℕ) × (unit (format_size fmt - 1) ≡ ok u)
  unfolding decode_operands format_size
  decode_operands-last InsnFormat.f10x u0 d r h = (u0, r)
  decode_operands-last _ u0 d r h = ground arith

  -- Units that can be read up to the size of the format decide the result.
  pub decode_operands-reads :
      (fmt : InsnFormat) (us : ℕ → ℕ)
      → ((i : ℕ) → i < format_size fmt → unit i ≡ ok (us i))
      → decode_operands fmt insn aa a b unit vs
        ≡ decode_operands fmt insn aa a b (λ i. ok (us i)) vs
  unfolding decode_operands format_size
  decode_operands-reads InsnFormat.f10x us h = refl
  decode_operands-reads InsnFormat.f12x us h = refl
  decode_operands-reads InsnFormat.f11n us h = refl
  decode_operands-reads InsnFormat.f11x us h = refl
  decode_operands-reads InsnFormat.f10t us h = refl
  decode_operands-reads InsnFormat.f30t us h = rw (h 1 (omega arith), h 2 (omega arith))
  decode_operands-reads InsnFormat.f32x us h = rw (h 1 (omega arith), h 2 (omega arith))
  decode_operands-reads InsnFormat.f31i us h = rw (h 1 (omega arith), h 2 (omega arith))
  decode_operands-reads InsnFormat.f31t us h = rw (h 1 (omega arith), h 2 (omega arith))
  decode_operands-reads InsnFormat.f31c us h = rw (h 1 (omega arith), h 2 (omega arith))
  decode_operands-reads InsnFormat.f35c us h = rw (h 1 (omega arith), h 2 (omega arith))
  decode_operands-reads InsnFormat.f3rc us h = rw (h 1 (omega arith), h 2 (omega arith))
  decode_operands-reads InsnFormat.f45cc us h =
      rw (h 1 (omega arith), h 2 (omega arith), h 3 (omega arith))
  decode_operands-reads InsnFormat.f4rcc us h =
      rw (h 1 (omega arith), h 2 (omega arith), h 3 (omega arith))
  decode_operands-reads InsnFormat.f51l us h =
      rw (h 1 (omega arith), h 2 (omega arith), h 3 (omega arith), h 4 (omega arith))
  decode_operands-reads _ us h = rw (h 1 (omega arith))
