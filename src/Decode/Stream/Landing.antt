-- ===== src/Decode/Stream/Landing.antt =====
-- What a decoding without violations means for the branch targets.
use droidsaw_dex.Prelude.{
  ℕ, ◌<◌, ◌≡◌, sym, subst, arith, true, false, none, some, List, [], ◌∷◌, ◌++◌, leb, Bool-cases,
  inl, inr, ◌==◌,
}
use droidsaw_dex.Prelude.Errors.{ok, IfOk, IfOk-bind, IfOk-then, IfOk-map, IfOk-eq, ok_or}
use droidsaw_dex.Prelude.Sets.{In}
use droidsaw_dex.Opcodes.{Opcode}
use droidsaw_dex.Decode.Insn.{Instruction}
use droidsaw_dex.Decode.Reader.{invalid_instruction, read_unit}
use droidsaw_dex.Decode.Single.{branch_target_mid_instruction}
use droidsaw_dex.Decode.Payload.{BoundCount}
use droidsaw_dex.Decode.Stream.Step.{start, is_table_op}
use droidsaw_dex.Decode.Stream.Checks.{
  Resolved, owner_of, opcode_at, lands_on, expected_ident, decode_payload, is_start, check_target,
  check_targets, resolve, resolve_one, tail_bytes,
}
use droidsaw_dex.Decode.Stream.Order.{if_ok}
use droidsaw_dex.Cfg.Boundary.{Has}
use droidsaw_dex.Decode.Stream.Insns.{scan, Stream, decode_insns}
use droidsaw_dex.Decode.Stream.Clean.{
  append-[], StandsAt, TargetBelow, TargetsBelow, IsClean, scan-IsClean,
}

is_start-In : (t : ℕ) (starts : List ℕ) → is_start t starts ≡ true → In t starts
unfolding is_start
is_start-In t [] e = cc
is_start-In t (x ∷ xs) e = elim (Bool-cases (t == x)) [
  | inl same ↦ inl (ground (arith, same))
  | inr other ↦ inr (is_start-In t xs (rw (other, is_start) at e))
]

-- No violation from the check of a target: it is out of range, or a start.
check_target-[] :
    (n t : ℕ) (starts : List ℕ) (all : List Instruction) (i : Instruction)
    → is_table_op i.op ≡ false
    → t < n
    → check_target n starts all i (some t) ≡ []
    → In t starts
unfolding check_target
check_target-[] n t starts all i branch lt e =
    let below : leb n t ≡ false = ground arith in
    elim (Bool-cases (is_start t starts)) [
      | inl hit ↦ is_start-In t starts hit
      | inr miss ↦
          let shown : branch_target_mid_instruction i.op i.addr t (owner_of t starts 0)
                ∷ ([] ++ lands_on i t (opcode_at t all none))
              ≡ [] =
            rw (below, branch, miss, check_target) at e in
          absurd (cc shown)
    ]

check_targets-[] :
    (n t : ℕ) (starts : List ℕ) (all is : List Instruction) (i : Instruction)
    → check_targets n starts all is ≡ []
    → Has i is
    → i.target ≡ some t
    → is_table_op i.op ≡ false
    → t < n
    → In t starts
unfolding check_targets
check_targets-[] n t starts all [] i e has target branch lt = absurd has
check_targets-[] n t starts all (j ∷ is) i e (inl own) target branch lt =
    let first = (append-[] (check_target n starts all j j.target) _ e).0 in
    let first' : check_target n starts all i i.target ≡ [] =
      subst (λ x. check_target n starts all x x.target ≡ []) (sym own) first in
    check_target-[] n t starts all i branch lt
      (subst (λ o. check_target n starts all i o ≡ []) target first')
check_targets-[] n t starts all (j ∷ is) i e (inr has) target branch lt =
    check_targets-[] n t starts all is i (append-[] (check_target n starts all j j.target) _ e).1
      has target branch lt

TargetsBelow-at :
    (n t : ℕ) (is : List Instruction) (i : Instruction)
    → TargetsBelow n is
    → Has i is
    → i.target ≡ some t
    → t < n
TargetsBelow-at n t [] i h has target = absurd has
TargetsBelow-at n t (j ∷ is) i h (inl own) target =
    subst (TargetBelow n) target (subst (λ x. TargetBelow n x.target) (sym own) h.0)
TargetsBelow-at n t (j ∷ is) i h (inr has) target = TargetsBelow-at n t is i h.1 has target

resolve_one-grows :
    (bound_count : BoundCount) (bytes : List ℕ) (insns_off n : ℕ) (p : ℕ × ℕ × Opcode)
    (r : Resolved)
    → IfOk (λ (r' : Resolved). r'.1 ≡ [] → r.1 ≡ []) (resolve_one bound_count bytes insns_off n p r)
unfolding resolve_one
resolve_one-grows bound_count bytes insns_off n (switch_pc, payload_pc, op) (payloads, vs) =
    IfOk-then _ (ok_or (expected_ident op) (invalid_instruction switch_pc)) _ λ expected.
      IfOk-then _ (read_unit bytes insns_off payload_pc 0) _ λ observed.
        if_ok _ (observed == expected) _ _
          (IfOk-then _ (decode_payload bound_count bytes insns_off payload_pc switch_pc op) _
            λ payload e. (append-[] vs _ e).0)
          (λ e. (append-[] vs _ e).0)

resolve-grows :
    (bound_count : BoundCount) (bytes : List ℕ) (insns_off n : ℕ) (ps : List (ℕ × ℕ × Opcode))
    (r : Resolved)
    → IfOk (λ (r' : Resolved). r'.1 ≡ [] → r.1 ≡ []) (resolve bound_count bytes insns_off n ps r)
unfolding resolve
resolve-grows bound_count bytes insns_off n [] r = λ e. e
resolve-grows bound_count bytes insns_off n (p ∷ ps) r =
    IfOk-bind (λ (r' : Resolved). r'.1 ≡ [] → r.1 ≡ []) _
      (resolve_one bound_count bytes insns_off n p r) _
      (resolve_one-grows bound_count bytes insns_off n p r)
      λ r' k.
        IfOk-map (λ (q : Resolved). q.1 ≡ [] → r'.1 ≡ []) _ _ (λ q later e. k (later e))
          (resolve-grows bound_count bytes insns_off n ps r')

-- Where the targets of a list of instructions lead.
abbrev BranchesLand : ℕ → List Instruction → Type 0
BranchesLand n is =
    (i : Instruction) (t : ℕ)
    → Has i is
    → i.target ≡ some t
    → is_table_op i.op ≡ false
    → (t < n) × StandsAt t is

decode_insns-BranchesLand_if :
    (bound_count : BoundCount) (bytes : List ℕ) (insns_off insns_size : ℕ)
    → IfOk
        (λ (r : Stream). r.violations ≡ [] → BranchesLand insns_size r.instructions)
        (decode_insns bound_count bytes insns_off insns_size)
unfolding decode_insns start
decode_insns-BranchesLand_if bound_count bytes insns_off n =
    IfOk-bind (IsClean n) _ (scan bytes insns_off n n start) _
      (scan-IsClean bytes insns_off n n start λ e. ((λ t i. absurd i), tt))
      λ s clean.
        let found =
          s.violations
          ++ tail_bytes n s.pc
          ++ check_targets n s.opcode_starts s.instructions s.instructions in
        IfOk-bind (λ (r' : Resolved). r'.1 ≡ [] → found ≡ []) _
          (resolve bound_count bytes insns_off n s.pending ([], found)) _
          (resolve-grows bound_count bytes insns_off n s.pending ([], found))
          λ r' grows e i t has target branch.
            let (scanned, checked) = append-[] (s.violations ++ tail_bytes n s.pc) _ (grows e) in
            let facts = clean (append-[] s.violations _ scanned).0 in
            let lt = TargetsBelow-at n t s.instructions i facts.1 has target in
            (
              lt,
              facts.0 t (
                  check_targets-[] n t s.opcode_starts s.instructions s.instructions i checked has
                    target branch lt),
            )

-- When `decode_insns` reports no violation, every target of an instruction that is not a switch or a
-- fill-array-data lies in the code, and an instruction that was decoded stands there.
pub decode_insns-StandsAt :
    (bound_count : BoundCount) (bytes : List ℕ) (insns_off insns_size : ℕ) (r : Stream)
    (i : Instruction) (t : ℕ)
    → decode_insns bound_count bytes insns_off insns_size ≡ ok r
    → r.violations ≡ []
    → Has i r.instructions
    → i.target ≡ some t
    → is_table_op i.op ≡ false
    → (t < insns_size) × StandsAt t r.instructions
decode_insns-StandsAt bound_count bytes insns_off insns_size r i t e clean has target branch =
    IfOk-eq (λ (x : Stream). x.violations ≡ [] → BranchesLand insns_size x.instructions)
      (decode_insns bound_count bytes insns_off insns_size)
      (decode_insns-BranchesLand_if bound_count bytes insns_off insns_size) e clean i t has target
      branch
