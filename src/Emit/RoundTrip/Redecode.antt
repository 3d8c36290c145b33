-- ===== src/Emit/RoundTrip/Redecode.antt =====
-- The canonical units decode to the instruction that the original units decode to.
use Prim.Native.Nat.{min}
use droidsaw_dex.Prelude.{
  ℕ, zero, suc, ◌/◌, ◌%◌, ◌^◌, ◌<◌, ◌≡◌, refl, arith, inl, inr, Bool-cases, List, [], ◌∷◌, get_or,
  ltb, ◌==◌, if◌then◌else◌,
}
use droidsaw_dex.Prelude.Errors.{ok}
use droidsaw_dex.Decode.Format.{InsnFormat}
use droidsaw_dex.Decode.Reader.{Res}
use droidsaw_dex.Decode.Insn.{Instruction}
use droidsaw_dex.Decode.Single.{Decoded, Violation, decode_operands, arg_regs, range_regs}
use droidsaw_dex.Decode.Single.Reads.{decoded_insn}
use droidsaw_dex.Emit.Canonical.{canonical_units, used_args, used_head}

-- The arm of a format on the pure units `u0`, `us 1`, `us 2`, ….
abbrev pub decode_units : InsnFormat → Instruction → ℕ → (ℕ → ℕ) → List Violation → Res Decoded
decode_units fmt insn u0 us vs =
    decode_operands fmt insn (u0 / 2 ^ 8 % 2 ^ 8) (u0 / 2 ^ 8 % 2 ^ 4) (u0 / 2 ^ 12 % 2 ^ 4)
      (λ i. ok (us i)) vs

-- Only the nibbles that the count asks for matter.
arg_regs-used_args :
    (count u2 g : ℕ)
    → u2 < 2 ^ 16
    → arg_regs (min count 5) (used_args count u2) (if ltb count 5 then 0 else g)
      ≡ arg_regs count u2 g
unfolding arg_regs used_args
arg_regs-used_args zero u2 g h = ground arith
arg_regs-used_args (suc zero) u2 g h = ground arith
arg_regs-used_args (suc (suc zero)) u2 g h = ground arith
arg_regs-used_args (suc (suc (suc zero))) u2 g h = ground arith
arg_regs-used_args (suc (suc (suc (suc zero)))) u2 g h = ground arith
arg_regs-used_args (suc (suc (suc (suc (suc count))))) u2 g h = ground arith

range_regs_none :
    (pc start n : ℕ)
    → n ≡ 0
    → range_regs pc start n 0 (0 ∷ 0 ∷ 0 ∷ 0 ∷ 0 ∷ []) ≡ ok (0 ∷ 0 ∷ 0 ∷ 0 ∷ 0 ∷ [])
unfolding range_regs
range_regs_none pc start zero e = refl
range_regs_none pc start (suc n) e = absurd (omega arith)

module _ (insn : Instruction) (op u0 : ℕ) (us : ℕ → ℕ) (vs ws : List Violation)
    (head : u0 % 2 ^ 8 ≡ op) (fits : u0 < 2 ^ 16) (wide : (i : ℕ) → us i < 2 ^ 16) where
  used_head-fields :
      (used_head op u0 / 2 ^ 12 % 2 ^ 4 ≡ min (u0 / 2 ^ 12 % 2 ^ 4) 5)
      × (used_head op u0 / 2 ^ 8 % 2 ^ 4
          ≡ (if ltb (u0 / 2 ^ 12 % 2 ^ 4) 5 then 0 else u0 / 2 ^ 8 % 2 ^ 4))
  unfolding used_head
  used_head-fields = ground arith

  abbrev Redecodes : InsnFormat → Type 0
  Redecodes fmt =
      let c = canonical_units fmt op u0 us in
      decoded_insn (decode_units fmt insn (get_or c 0 0) (λ i. get_or c i 0) ws)
      ≡ decoded_insn (decode_units fmt insn u0 us vs)

  Redecodes-f4rcc : Redecodes InsnFormat.f4rcc
  unfolding decode_operands canonical_units range_regs
  Redecodes-f4rcc = elim (Bool-cases (u0 / 2 ^ 8 == 0)) [
    | inl none_given ↦ ground (
      arith,
      range_regs_none insn.addr 0 (min (u0 / 2 ^ 8 % 2 ^ 8) 5),
      range_regs_none insn.addr (us 2) (min (u0 / 2 ^ 8 % 2 ^ 8) 5),
    )
    | inr given ↦ ground arith
  ]

  -- The instruction, or the error, is that of the original units.
  pub redecodes : (fmt : InsnFormat) → Redecodes fmt
  unfolding decode_operands canonical_units
  redecodes InsnFormat.f10x = refl
  redecodes InsnFormat.f35c = ground (
    arith,
    used_head-fields,
    arg_regs-used_args (u0 / 2 ^ 12) (us 2) (u0 / 2 ^ 8 % 2 ^ 4) (wide 2),
  )
  redecodes InsnFormat.f45cc = ground (
    arith,
    used_head-fields,
    arg_regs-used_args (u0 / 2 ^ 12) (us 2) (u0 / 2 ^ 8 % 2 ^ 4) (wide 2),
  )
  redecodes InsnFormat.f4rcc = Redecodes-f4rcc
  redecodes _ = ground arith
