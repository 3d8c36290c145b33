-- ===== src/Emit/RoundTrip/Whole.antt =====
-- The round trip of one instruction through `decode_single` and `emit_instruction`, over bytes.
use droidsaw_dex.Prelude.{
  ℕ, ◌+◌, ◌*◌, ◌-◌, ◌/◌, ◌%◌, ◌^◌, ◌<◌, ◌≡◌, refl, sym, subst, arith, ap, ◌∙◌, List, [], ◌∷◌, ◌++◌,
  All, length, get_or,
}
use droidsaw_dex.Prelude.Errors.{ok, IfOk-eq}
use droidsaw_dex.Prelude.Words.{u32_mod, usize_mod}
use droidsaw_dex.Opcodes.{Opcode}
use droidsaw_dex.Opcodes.Bytes.{to_u8}
use droidsaw_dex.Decode.Format.{InsnFormat, insn_format, format_size}
use droidsaw_dex.Decode.Reader.{read_unit}
use droidsaw_dex.Decode.Reader.Bounds.{
  IsByte, value, read_unit-lt, unit_offset-fits, read_unit-append,
}
use droidsaw_dex.Decode.Single.{Decoded, Violation, blank, decode_operands, decode_single}
use droidsaw_dex.Decode.Single.Reads.{
  decoded_insn, decode_operands-value, decode_operands-Keeps, decode_operands-last,
  decode_operands-reads,
}
use droidsaw_dex.Emit.Instruction.{emit_operands, emit_instruction}
use droidsaw_dex.Emit.Canonical.{canonical_units, push_units}
use droidsaw_dex.Emit.Canonical.Bytes.{
  unit_bytes, push_units-unit_bytes, le_u16-unit_bytes, length-canonical_units,
  canonical_units-IsUnit,
}
use droidsaw_dex.Emit.RoundTrip.Simple
use droidsaw_dex.Emit.RoundTrip.Simple.{Emits}
use droidsaw_dex.Emit.RoundTrip.Branches
use droidsaw_dex.Emit.RoundTrip.Args
use droidsaw_dex.Emit.RoundTrip.Redecode.{decode_units, redecodes}

module _ (op u0 : ℕ) (us : ℕ → ℕ) (pc : ℕ) (opcode : Opcode) (vs : List Violation)
    (head : u0 % 2 ^ 8 ≡ op) (fits : u0 < 2 ^ 16) (wide : (i : ℕ) → us i < 2 ^ 16)
    (in_u32 : pc < u32_mod) where
  emits : (fmt : InsnFormat) → insn_format opcode ≡ fmt → Emits fmt op u0 us pc opcode vs
  emits InsnFormat.f10x e = Simple.Emits-f10x op u0 us pc opcode vs head fits wide
  emits InsnFormat.f12x e = Simple.Emits-f12x op u0 us pc opcode vs head fits wide
  emits InsnFormat.f11n e = Simple.Emits-f11n op u0 us pc opcode vs head fits wide
  emits InsnFormat.f11x e = Simple.Emits-f11x op u0 us pc opcode vs head fits wide
  emits InsnFormat.f22x e = Simple.Emits-f22x op u0 us pc opcode vs head fits wide
  emits InsnFormat.f21s e = Simple.Emits-f21s op u0 us pc opcode vs head fits wide
  emits InsnFormat.f21c e = Simple.Emits-f21c op u0 us pc opcode vs head fits wide
  emits InsnFormat.f23x e = Simple.Emits-f23x op u0 us pc opcode vs head fits wide
  emits InsnFormat.f22s e = Simple.Emits-f22s op u0 us pc opcode vs head fits wide
  emits InsnFormat.f22c e = Simple.Emits-f22c op u0 us pc opcode vs head fits wide
  emits InsnFormat.f22b e = Simple.Emits-f22b op u0 us pc opcode vs head fits wide
  emits InsnFormat.f32x e = Simple.Emits-f32x op u0 us pc opcode vs head fits wide
  emits InsnFormat.f31i e = Simple.Emits-f31i op u0 us pc opcode vs head fits wide
  emits InsnFormat.f31c e = Simple.Emits-f31c op u0 us pc opcode vs head fits wide
  emits InsnFormat.f51l e = Simple.Emits-f51l op u0 us pc opcode vs head fits wide
  emits InsnFormat.f10t e = Branches.Emits-f10t op u0 us pc opcode vs head fits wide in_u32
  emits InsnFormat.f20t e = Branches.Emits-f20t op u0 us pc opcode vs head fits wide in_u32
  emits InsnFormat.f21t e = Branches.Emits-f21t op u0 us pc opcode vs head fits wide in_u32
  emits InsnFormat.f22t e = Branches.Emits-f22t op u0 us pc opcode vs head fits wide in_u32
  emits InsnFormat.f30t e = Branches.Emits-f30t op u0 us pc opcode vs head fits wide in_u32
  emits InsnFormat.f31t e = Branches.Emits-f31t op u0 us pc opcode vs head fits wide in_u32
  emits InsnFormat.f21h e = Branches.Emits-f21h op u0 us pc opcode vs head fits wide in_u32 e
  emits InsnFormat.f35c e = Args.Emits-f35c op u0 us pc opcode vs head fits wide
  emits InsnFormat.f3rc e = Args.Emits-f3rc op u0 us pc opcode vs head fits wide
  emits InsnFormat.f45cc e = Args.Emits-f45cc op u0 us pc opcode vs head fits wide
  emits InsnFormat.f4rcc e = Args.Emits-f4rcc op u0 us pc opcode vs head fits wide

format_size_pos : (fmt : InsnFormat) → 0 < format_size fmt
unfolding format_size
format_size_pos InsnFormat.f10x = omega arith
format_size_pos _ = omega arith

length-unit_bytes : (us : List ℕ) → length (unit_bytes us) ≡ 2 * length us
length-unit_bytes [] = refl
length-unit_bytes (u ∷ us) = omega (arith, length-unit_bytes us)

-- The units of the instruction at `pc`, as numbers.
abbrev pub units_at : List ℕ → ℕ → ℕ → ℕ → ℕ
units_at bytes insns_off pc i = value (read_unit bytes insns_off pc i)

module _ (bytes : List ℕ) (insns_off pc u0 : ℕ) (op : Opcode) (vs : List Violation) (d : Decoded)
    (are_bytes : All IsByte bytes) (first : read_unit bytes insns_off pc 0 ≡ ok u0)
    (dispatch : u0 % 2 ^ 8 ≡ to_u8 op)
    (decoded : decode_single bytes insns_off pc op vs ≡ ok d) where
  operands :
      decode_operands
        (insn_format op)
        (blank pc op)
        (u0 / 2 ^ 8 % 2 ^ 8)
        (u0 / 2 ^ 8 % 2 ^ 4)
        (u0 / 2 ^ 12 % 2 ^ 4)
        (read_unit bytes insns_off pc)
        vs
      ≡ ok d
  unfolding decode_single
  operands = rw first at decoded

  fits : u0 < 2 ^ 16
  fits = rw first at (read_unit-lt bytes insns_off pc 0 are_bytes)

  wide : (i : ℕ) → units_at bytes insns_off pc i < 2 ^ 16
  wide i = read_unit-lt bytes insns_off pc i are_bytes

  in_u32 : pc < u32_mod
  in_u32 = omega (arith, (unit_offset-fits bytes insns_off pc 0 first).0)

  pure_operands :
      decode_units (insn_format op) (blank pc op) u0 (units_at bytes insns_off pc) vs ≡ ok d
  pure_operands =
      decode_operands-value (blank pc op) _ _ _ (read_unit bytes insns_off pc) vs (insn_format op) d
        operands

  keeps_op : d.0.op ≡ op
  unfolding blank
  keeps_op =
      (IfOk-eq _ _
        (decode_operands-Keeps (blank pc op) _ _ _ (read_unit bytes insns_off pc) vs
          (insn_format op))
        operands).1

  -- What `decode_single` accepts, `emit_instruction` writes back: the code units that were read, but for
  -- three things. The bits that the instruction does not use are zero: the high byte of a format
  -- without operands in it, and in F35c and F45cc the registers behind the last argument. A count of
  -- arguments above five in F35c and F45cc is written as five. The register CCCC of F4rcc is written
  -- as zero when there are no arguments.
  pub emit_instruction-decode_single :
      (out : List ℕ)
      → emit_instruction out d.0
        ≡ ok (
            push_units out
              (canonical_units (insn_format op) (to_u8 op) u0 (units_at bytes insns_off pc)))
  unfolding emit_instruction
  emit_instruction-decode_single out =
      subst
        (λ o.
          emit_operands (insn_format o) out (to_u8 o) d.0
          ≡ ok (
              push_units out
                (canonical_units (insn_format op) (to_u8 op) u0 (units_at bytes insns_off pc))))
        (sym keeps_op)
        (IfOk-eq _ _
          (emits (to_u8 op) u0 (units_at bytes insns_off pc) pc op vs dispatch fits wide in_u32
            (insn_format op) refl)
          pure_operands out)

  canon : List ℕ
  canon = canonical_units (insn_format op) (to_u8 op) u0 (units_at bytes insns_off pc)

  last_fits :
      (pc + (format_size (insn_format op) - 1) < u32_mod)
      × (insns_off + (pc + (format_size (insn_format op) - 1)) * 2 < usize_mod)
  last_fits =
      unit_offset-fits bytes insns_off pc (format_size (insn_format op) - 1)
        (decode_operands-last (blank pc op) _ _ _ (read_unit bytes insns_off pc) vs (insn_format op)
          u0 d first operands).1

  module _ (pre rest : List ℕ) (placed : length pre ≡ insns_off + pc * 2) where
    written_unit :
        (i : ℕ)
        → i < format_size (insn_format op)
        → read_unit (pre ++ (unit_bytes canon ++ rest)) insns_off pc i ≡ ok (get_or canon i 0)
    unfolding canon
    written_unit i lt =
        read_unit-append pre (unit_bytes canon ++ rest) insns_off pc i placed
          (omega (arith, last_fits.0)) (omega (arith, last_fits.1))
        ∙ le_u16-unit_bytes canon rest i _
            (canonical_units-IsUnit (to_u8 op) u0 (units_at bytes insns_off pc) dispatch fits wide
              (insn_format op))
            (omega (
              arith,
              length-canonical_units (to_u8 op) u0 (units_at bytes insns_off pc) dispatch fits wide
                  (insn_format op),
            ))

    redecoded :
        (ws : List Violation)
        → decoded_insn (decode_single (pre ++ (unit_bytes canon ++ rest)) insns_off pc op ws)
          ≡ ok d.0
    unfolding decode_single canon
    redecoded ws = rw (written_unit 0 (format_size_pos (insn_format op))) (
        rw
          (decode_operands-reads (blank pc op) _ _ _
            (read_unit (pre ++ (unit_bytes canon ++ rest)) insns_off pc) ws (insn_format op)
            (λ i. get_or canon i 0) written_unit)
          (redecodes (blank pc op) (to_u8 op) u0 (units_at bytes insns_off pc) vs ws dispatch fits
              wide (insn_format op)
            ∙ ap decoded_insn pure_operands))

    -- The emitted bytes, put where the instruction stood, in front of anything, decode to the same
    -- instruction again; there are two of them for each code unit of its size.
    pub decode_single-emit_instruction :
        (ws : List Violation)
        → (emitted : List ℕ) × (emit_instruction [] d.0 ≡ ok emitted)
          × (length emitted ≡ 2 * format_size (insn_format op))
          × (decoded_insn (decode_single (pre ++ (emitted ++ rest)) insns_off pc op ws) ≡ ok d.0)
    unfolding canon
    decode_single-emit_instruction ws = (
      unit_bytes canon,
      emit_instruction-decode_single [] ∙ ap ok (push_units-unit_bytes [] canon),
      length-unit_bytes canon
          ∙ ap (λ (n : ℕ). 2 * n)
              (length-canonical_units (to_u8 op) u0 (units_at bytes insns_off pc) dispatch fits wide
                (insn_format op)),
      redecoded ws,
    )
