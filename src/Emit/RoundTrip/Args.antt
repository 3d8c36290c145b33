-- ===== src/Emit/RoundTrip/Args.antt =====
-- Formats of calls: the argument nibbles of F35c and F45cc, the ranges of F3rc and F4rcc.
use Prim.Native.Nat.{bit_or, min}
use droidsaw_dex.Prelude.{
  ℕ, zero, suc, ◌+◌, ◌*◌, ◌/◌, ◌%◌, ◌^◌, ◌<◌, ◌≡◌, refl, arith, ap, ◌∙◌, ◌⊎◌, inl, inr, some, List,
  [], ◌∷◌, get_elem?, set, ltb, if◌then◌else◌,
}
use droidsaw_dex.Prelude.Bits.{bit_or-shifted}
use droidsaw_dex.Prelude.Errors.{ok, IfOk, IfOk-bind, IfOk-map}
use droidsaw_dex.Prelude.Int.{pos}
use droidsaw_dex.Opcodes.{Opcode}
use droidsaw_dex.Decode.Format.{InsnFormat}
use droidsaw_dex.Decode.Insn.{PoolIndex, Instruction, as_slice, raw_at, is_empty, classify_pool_35c}
use droidsaw_dex.Decode.Single.{Violation, blank, decode_operands, arg_regs, range_regs}
use droidsaw_dex.Emit.Operands.{src_u4, src_u16, pool_u16, pool_u32, pool_proto_u16}
use droidsaw_dex.Emit.Instruction.{op_ab, emit_operands, arg_units}
use droidsaw_dex.Emit.Canonical.{
  push_units, canonical_units, used_args, used_head, op_aa-head, op_ab_lem,
}
use droidsaw_dex.Emit.RoundTrip.Fields.{
  pool_number-classify_pool_35c, pool_number-classify_pool_3rc,
}
use droidsaw_dex.Emit.RoundTrip.Simple.{Emits}

four_nibbles :
    (c d e f : ℕ)
    → c < 16
    → d < 16
    → e < 16
    → bit_or (bit_or (bit_or c (d * 2 ^ 4)) (e * 2 ^ 8)) (f * 2 ^ 12)
      ≡ c + d * 2 ^ 4 + e * 2 ^ 8 + f * 2 ^ 12
four_nibbles c d e f hc hd he =
    ap (λ x. bit_or (bit_or x (e * 2 ^ 8)) (f * 2 ^ 12)) (bit_or-shifted 4 c d hc)
    ∙ ap (λ x. bit_or x (f * 2 ^ 12)) (bit_or-shifted 8 (c + d * 2 ^ 4) e (omega arith))
    ∙ bit_or-shifted 12 (c + d * 2 ^ 4 + e * 2 ^ 8) f (omega arith)

-- The emitter packs the nibbles that the decoder kept, and zeros for the others.
arg_units-arg_regs :
    (insn : Instruction) (count u2 g : ℕ)
    → u2 < 2 ^ 16
    → g < 16
    → arg_units (record insn { src = arg_regs count u2 g })
      ≡ ok ((if ltb count 5 then 0 else g), used_args count u2)
unfolding arg_units src_u4 as_slice arg_regs used_args
arg_units-arg_regs insn zero u2 g h k = ground (arith, four_nibbles 0 0 0 0)
arg_units-arg_regs insn (suc zero) u2 g h k = ground (arith, four_nibbles (u2 % 2 ^ 4) 0 0 0)
arg_units-arg_regs insn (suc (suc zero)) u2 g h k =
    ground (arith, four_nibbles (u2 % 2 ^ 4) (u2 / 2 ^ 4 % 2 ^ 4) 0 0)
arg_units-arg_regs insn (suc (suc (suc zero))) u2 g h k =
    ground (arith, four_nibbles (u2 % 2 ^ 4) (u2 / 2 ^ 4 % 2 ^ 4) (u2 / 2 ^ 8 % 2 ^ 4) 0)
arg_units-arg_regs insn (suc (suc (suc (suc zero)))) u2 g h k = ground (
  arith,
  four_nibbles (u2 % 2 ^ 4) (u2 / 2 ^ 4 % 2 ^ 4) (u2 / 2 ^ 8 % 2 ^ 4) (u2 / 2 ^ 12 % 2 ^ 4),
)
arg_units-arg_regs insn (suc (suc (suc (suc (suc count))))) u2 g h k = ground (
  arith,
  four_nibbles (u2 % 2 ^ 4) (u2 / 2 ^ 4 % 2 ^ 4) (u2 / 2 ^ 8 % 2 ^ 4) (u2 / 2 ^ 12 % 2 ^ 4),
)

-- The loop of the range formats leaves the first register in place.
range_regs_keeps :
    (pc start n i : ℕ) (regs : List ℕ)
    → get_elem? regs 0 ≡ some start
    → IfOk (λ r. get_elem? r 0 ≡ some start) (range_regs pc start n (suc i) regs)
unfolding range_regs
range_regs_keeps pc start n i [] h = cc
range_regs_keeps pc start zero i (r ∷ regs) h = h
range_regs_keeps pc start (suc n) i (r ∷ regs) h =
    ground (arith, range_regs_keeps pc start n (i + 1) (r ∷ set regs i (start + suc i)) h)

-- The first round writes `start` itself.
range_regs_first :
    (pc start n r : ℕ) (regs : List ℕ)
    → start < 2 ^ 16
    → IfOk (λ rs. get_elem? rs 0 ≡ some start) (range_regs pc start (suc n) 0 (r ∷ regs))
unfolding range_regs
range_regs_first pc start n r regs h =
    ground (arith, range_regs_keeps pc start n 0 ((start + 0) ∷ regs) (ground arith))

raw_at-zero :
    (rs : List ℕ) (n start : ℕ)
    → get_elem? rs 0 ≡ some start
    → raw_at (record { regs = rs; len = n }) 0 ≡ start
unfolding raw_at
raw_at-zero [] n start h = cc
raw_at-zero (r ∷ rs) n start h = cc

src_u16-zero :
    (insn : Instruction) (rs : List ℕ) (n start : ℕ)
    → 0 < n
    → get_elem? rs 0 ≡ some start
    → src_u16 (record insn { src = record { regs = rs; len = n } }) 0 ≡ ok start
unfolding src_u16 as_slice
src_u16-zero insn rs zero start h e = absurd (omega arith)
src_u16-zero insn [] (suc n) start h e = cc
src_u16-zero insn (r ∷ rs) (suc n) start h e = cc

range_regs_starts :
    (pc start n r : ℕ) (regs : List ℕ)
    → start < 2 ^ 16
    → IfOk
        (λ rs. (0 < n) ⊎ (r ≡ start) → get_elem? rs 0 ≡ some start)
        (range_regs pc start n 0 (r ∷ regs))
unfolding range_regs
range_regs_starts pc start zero r regs h = λ c. ground arith
range_regs_starts pc start (suc n) r regs h =
    IfOk-map (λ rs. get_elem? rs 0 ≡ some start) _ (range_regs pc start (suc n) 0 (r ∷ regs))
      (λ rs e _. e) (range_regs_first pc start n r regs h)

module _ (op u0 : ℕ) (us : ℕ → ℕ) (pc : ℕ) (opcode : Opcode) (vs : List Violation)
    (head : u0 % 2 ^ 8 ≡ op) (fits : u0 < 2 ^ 16) (wide : (i : ℕ) → us i < 2 ^ 16) where
  args_head :
      op_ab op
        (if ltb (u0 / 2 ^ 12 % 2 ^ 4) 5 then 0 else u0 / 2 ^ 8 % 2 ^ 4)
        (min (u0 / 2 ^ 12 % 2 ^ 4) 5)
      ≡ used_head op u0
  unfolding used_head
  args_head = ground (
    arith,
    op_ab_lem op (if ltb (u0 / 2 ^ 12 % 2 ^ 4) 5 then 0 else u0 / 2 ^ 8 % 2 ^ 4)
        (min (u0 / 2 ^ 12 % 2 ^ 4) 5),
  )

  pub Emits-f35c : Emits InsnFormat.f35c op u0 us pc opcode vs
  unfolding decode_operands emit_operands canonical_units push_units blank pool_u16 pool_u32
      arg_regs
  Emits-f35c out = ground (
    arith,
    wide 1,
    wide 2,
    args_head,
    pool_number-classify_pool_35c opcode (us 1),
    arg_units-arg_regs
        (record (blank pc opcode) { pool_idx = some (classify_pool_35c opcode (us 1)) })
        (u0 / 2 ^ 12 % 2 ^ 4) (us 2) (u0 / 2 ^ 8 % 2 ^ 4),
  )

  pub Emits-f45cc : Emits InsnFormat.f45cc op u0 us pc opcode vs
  unfolding decode_operands emit_operands canonical_units push_units blank pool_u16 pool_u32
      pool_proto_u16 arg_regs
  Emits-f45cc out = ground (
    arith,
    wide 1,
    wide 2,
    wide 3,
    args_head,
    arg_units-arg_regs
        (record (blank pc opcode) { pool_idx = some (PoolIndex.method_and_proto (us 1) (us 3)) })
        (u0 / 2 ^ 12 % 2 ^ 4) (us 2) (u0 / 2 ^ 8 % 2 ^ 4),
  )

  pub Emits-f3rc : Emits InsnFormat.f3rc op u0 us pc opcode vs
  unfolding decode_operands emit_operands canonical_units push_units blank pool_u16 pool_u32
  Emits-f3rc =
      IfOk-bind _ _ (range_regs pc (us 2) (min (u0 / 2 ^ 8 % 2 ^ 8) 5) 0 _) _
        (range_regs_starts pc (us 2) (min (u0 / 2 ^ 8 % 2 ^ 8) 5) (us 2) _ (wide 2))
        (λ rs starts out. ground (
          arith,
          wide 1,
          op_aa-head op u0 head fits,
          pool_number-classify_pool_3rc opcode (us 1),
          raw_at-zero rs (min (u0 / 2 ^ 8 % 2 ^ 8) 5) (us 2) (starts (inr refl)),
        ))

  pub Emits-f4rcc : Emits InsnFormat.f4rcc op u0 us pc opcode vs
  unfolding decode_operands emit_operands canonical_units push_units blank pool_u16 pool_u32
      pool_proto_u16 is_empty
  Emits-f4rcc =
      IfOk-bind _ _ (range_regs pc (us 2) (min (u0 / 2 ^ 8 % 2 ^ 8) 5) 0 _) _
        (range_regs_starts pc (us 2) (min (u0 / 2 ^ 8 % 2 ^ 8) 5) 0 _ (wide 2))
        (λ rs starts out. ground (
          arith,
          wide 1,
          wide 3,
          op_aa-head op u0 head fits,
          λ (some_args : 0 < u0 / 2 ^ 8 % 2 ^ 8).
              src_u16-zero
                (record (blank pc opcode) {
                  literal = pos (u0 / 2 ^ 8 % 2 ^ 8);
                  pool_idx = some (PoolIndex.method_and_proto (us 1) (us 3));
                })
                rs (min (u0 / 2 ^ 8 % 2 ^ 8) 5) (us 2) (omega arith) (starts (inl (omega arith))),
        ))
