-- ===== src/Decode/Stream/Clean.antt =====
-- The loop of `decode_insns` without violations: every start has its instruction.
use droidsaw_dex.Prelude.{
  ℕ, zero, suc, ◌<◌, ◌≡◌, refl, sym, subst, arith, ◌∙◌, Option, none, some, List, [], ◌∷◌, ◌++◌,
  leb, ltb, Bool-cases, inl, inr, ◌⊎◌, ◌==◌, ◌&&◌, ◌%◌, ◌/◌, ◌^◌, All,
}
use droidsaw_dex.Prelude.Errors.{ok, IfOk, IfOk-bind, IfOk-then, IfOk-map}
use droidsaw_dex.Prelude.Sets.{set_insert, In, In-of-set_insert}
use droidsaw_dex.Opcodes.{Opcode}
use droidsaw_dex.Opcodes.Bytes.{from_u8}
use droidsaw_dex.Decode.Format.{insn_format}
use droidsaw_dex.Decode.Insn.{Instruction}
use droidsaw_dex.Decode.Reader.{safe_add_u32, read_unit}
use droidsaw_dex.Decode.Single.{Decoded, blank, decode_single, Violation}
use droidsaw_dex.Decode.Single.Reads.{Keeps, decode_operands-Keeps}
use droidsaw_dex.Decode.Stream.Step.{
  Scan, is_payload_ident, payload_size, step_insn, step_opcode, skip_payload, step, out_of_range,
  offset_zero, table_entry,
}
use droidsaw_dex.Decode.Stream.Order.{if_ok}
use droidsaw_dex.Decode.Stream.Insns.{scan}

pub append-[] {ℓ} : {A : Type ℓ} (xs ys : List A) → xs ++ ys ≡ [] → (xs ≡ []) × (ys ≡ [])
append-[] [] ys e = (refl, e)
append-[] (x ∷ xs) ys e = cc

-- An instruction of the list stands at the address.
abbrev pub StandsAt : ℕ → List Instruction → Type 0
StandsAt t [] = ⊥
StandsAt t (i ∷ is) = (t ≡ i.addr) ⊎ StandsAt t is

StandsAt-left : (t : ℕ) (is js : List Instruction) → StandsAt t is → StandsAt t (is ++ js)
StandsAt-left t [] js h = absurd h
StandsAt-left t (i ∷ is) js (inl e) = inl e
StandsAt-left t (i ∷ is) js (inr h) = inr (StandsAt-left t is js h)

StandsAt-last : (is : List Instruction) (i : Instruction) → StandsAt i.addr (is ++ i ∷ [])
StandsAt-last [] i = inl refl
StandsAt-last (j ∷ is) i = inr (StandsAt-last is i)

-- The target, if there is one, lies in the code.
abbrev pub TargetBelow : ℕ → Option ℕ → Type 0
TargetBelow n none = Unit
TargetBelow n (some t) = t < n

abbrev pub TargetsBelow : ℕ → List Instruction → Type 0
TargetsBelow n is = All (λ (i : Instruction). TargetBelow n i.target) is

TargetsBelow-snoc :
    (n : ℕ) (is : List Instruction) (i : Instruction)
    → TargetsBelow n is
    → TargetBelow n i.target
    → TargetsBelow n (is ++ i ∷ [])
TargetsBelow-snoc n [] i h k = (k, tt)
TargetsBelow-snoc n (j ∷ is) i h k = (h.0, TargetsBelow-snoc n is i h.1 k)

out_of_range-[] :
    (n : ℕ) (op : Opcode) (pc : ℕ) (t : Option ℕ) → out_of_range n op pc t ≡ [] → TargetBelow n t
unfolding out_of_range
out_of_range-[] n op pc none e = tt
out_of_range-[] n op pc (some t) e = elim (Bool-cases (leb n t)) [
  | inl over ↦ absurd (cc (rw (over, out_of_range) at e))
  | inr below ↦ ground (arith, below)
]

-- Without violations the starts are the addresses of the instructions, and the targets are in range.
abbrev pub IsClean : ℕ → Scan → Type 0
IsClean n s =
    s.violations ≡ []
    → ((t : ℕ) → In t s.opcode_starts → StandsAt t s.instructions) × TargetsBelow n s.instructions

-- The address and the violations of a decoded instruction.
abbrev Decodes : ℕ → List Violation → Decoded → Type 0
Decodes pc vs d = (d.0.addr ≡ pc) × (d.1 ≡ [] → vs ≡ [])

decode_single-Decodes :
    (bytes : List ℕ) (insns_off pc : ℕ) (op : Opcode) (vs : List Violation)
    → IfOk (Decodes pc vs) (decode_single bytes insns_off pc op vs)
unfolding decode_single blank
decode_single-Decodes bytes insns_off pc op vs =
    IfOk-then (Decodes pc vs) (read_unit bytes insns_off pc 0) _ λ u0.
      IfOk-map
        (Keeps (blank pc op) (u0 / 2 ^ 8 % 2 ^ 8) (u0 / 2 ^ 8 % 2 ^ 4) (u0 / 2 ^ 12 % 2 ^ 4)
          (read_unit bytes insns_off pc) vs (insn_format op))
        (Decodes pc vs) _ (λ d k. (k.0, λ e. (append-[] vs _ (sym k.3 ∙ e)).0))
        (decode_operands-Keeps (blank pc op) _ _ _ (read_unit bytes insns_off pc) vs
          (insn_format op))

-- Before the round of an instruction its own address is the only start without an instruction.
abbrev StartsOrHere : Scan → Type 0
StartsOrHere s = (t : ℕ) → In t s.opcode_starts → (t ≡ s.pc) ⊎ StandsAt t s.instructions

step_insn-IsClean :
    (bytes : List ℕ) (insns_off n : ℕ) (s : Scan) (op : Opcode)
    → (s.violations ≡ [] → StartsOrHere s × TargetsBelow n s.instructions)
    → IfOk (IsClean n) (step_insn bytes insns_off n s op)
unfolding step_insn
step_insn-IsClean bytes insns_off n s op h =
    IfOk-bind _ _ (decode_single bytes insns_off s.pc op s.violations) _
      (decode_single-Decodes bytes insns_off s.pc op s.violations)
      λ d k. IfOk-then _ (safe_add_u32 s.pc d.0.size) _ λ next e.
        let here =
          (append-[]
            (d.1
              ++ out_of_range n op s.pc d.0.target
              ++ offset_zero op s.pc d.0.target
              ++ (table_entry op s.pc d.0.target).0)
            _ e).0 in
        let inner =
          (append-[] (d.1 ++ out_of_range n op s.pc d.0.target ++ offset_zero op s.pc d.0.target) _
            here).0 in
        let both = (append-[] (d.1 ++ out_of_range n op s.pc d.0.target) _ inner).0 in
        let (vs_none, in_range) = append-[] d.1 (out_of_range n op s.pc d.0.target) both in
        let before = h (k.1 vs_none) in
        (
          (λ t i. elim (before.0 t i) [
            | inl own ↦
                subst (λ x. StandsAt x (s.instructions ++ d.0 ∷ [])) (k.0 ∙ sym own)
                  (StandsAt-last s.instructions d.0)
            | inr there ↦ StandsAt-left t s.instructions (d.0 ∷ []) there
          ]),
          TargetsBelow-snoc n s.instructions d.0 before.1
              (out_of_range-[] n op s.pc d.0.target in_range),
        )

step_opcode-IsClean :
    (bytes : List ℕ) (insns_off n : ℕ) (s : Scan) (byte : ℕ) (op : Option Opcode)
    → (s.violations ≡ [] → StartsOrHere s × TargetsBelow n s.instructions)
    → IfOk (IsClean n) (step_opcode bytes insns_off n s byte op)
unfolding step_opcode
step_opcode-IsClean bytes insns_off n s byte none h =
    IfOk-then _ (safe_add_u32 s.pc 1) _ λ next e. absurd (cc ((append-[] s.violations _ e).1))
step_opcode-IsClean bytes insns_off n s byte (some op) h =
    step_insn-IsClean bytes insns_off n s op h

skip_payload-IsClean :
    (bytes : List ℕ) (insns_off n : ℕ) (s : Scan) (ident : ℕ)
    → IsClean n s
    → IfOk (IsClean n) (skip_payload bytes insns_off s ident)
unfolding skip_payload
skip_payload-IsClean bytes insns_off n s ident h =
    IfOk-then _ (payload_size bytes insns_off s.pc ident) _
      λ size. IfOk-then _ (safe_add_u32 s.pc size) _ λ next. h

step-IsClean :
    (bytes : List ℕ) (insns_off n : ℕ) (s : Scan)
    → IsClean n s
    → IfOk (IsClean n) (step bytes insns_off n s)
unfolding step
step-IsClean bytes insns_off n s h = IfOk-then _ (read_unit bytes insns_off s.pc 0) _ λ u0.
    if_ok (IsClean n) (u0 % 2 ^ 8 == 0x00 && is_payload_ident (u0 / 2 ^ 8)) _ _
      (skip_payload-IsClean bytes insns_off n s (u0 / 2 ^ 8) h)
      (step_opcode-IsClean bytes insns_off n
        (record s { opcode_starts = set_insert s.pc s.opcode_starts }) (u0 % 2 ^ 8)
        (from_u8 (u0 % 2 ^ 8))
        λ e. (
          (λ t i. elim (In-of-set_insert t s.pc s.opcode_starts i) [
            | inl own ↦ inl own
            | inr old ↦ inr ((h e).0 t old)
          ]),
          (h e).1,
        ))

pub scan-IsClean :
    (bytes : List ℕ) (insns_off n rounds : ℕ) (s : Scan)
    → IsClean n s
    → IfOk (IsClean n) (scan bytes insns_off n rounds s)
unfolding scan
scan-IsClean bytes insns_off n zero s h = h
scan-IsClean bytes insns_off n (suc rounds) s h =
    if_ok (IsClean n) (ltb s.pc n) _ (ok s)
      (IfOk-bind (IsClean n) _ (step bytes insns_off n s) _ (step-IsClean bytes insns_off n s h)
        λ s' k. scan-IsClean bytes insns_off n rounds s' k)
      h
