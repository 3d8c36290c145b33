-- ===== src/Cfg/Predecessors/Added.antt =====
-- What `add_predecessor`, the insertion into the predecessor set of the target, adds.
use droidsaw_dex.Prelude.{
  ℕ, zero, suc, ◌≡◌, refl, ap, arith, subst, ◌⊎◌, inl, inr, ◌↔◌, some, some-eq, Option-cases, List,
  [], ◌∷◌,
}
use droidsaw_dex.Prelude.Sets.{In, In-set_insert, In-set_insert_self, In-of-set_insert}
use droidsaw_dex.Cfg.Blocks.{BasicBlock}
use droidsaw_dex.Cfg.Edges.{add_predecessor, add_predecessors}

abbrev pub predecessors_at : List BasicBlock → ℕ → List ℕ
predecessors_at [] k = []
predecessors_at (b ∷ bs) zero = b.predecessors
predecessors_at (b ∷ bs) (suc k) = predecessors_at bs k

abbrev pub HasPair : ℕ → ℕ → List (ℕ × ℕ) → Type 0
HasPair s d [] = ⊥
HasPair s d (p ∷ ps) = ((s ≡ p.0) × (d ≡ p.1)) ⊎ HasPair s d ps

In-add_predecessor_below :
    (src dst s d : ℕ) (b : BasicBlock) (bs rest : List BasicBlock)
    → ((k : ℕ)
        → In s (predecessors_at rest k) ↔ (((s ≡ src) × (k ≡ dst)) ⊎ In s (predecessors_at bs k)))
    → In s (predecessors_at (b ∷ rest) d)
      ↔ (((s ≡ src) × (d ≡ suc dst)) ⊎ In s (predecessors_at (b ∷ bs) d))
In-add_predecessor_below src dst s zero b bs rest below =
    (inr, (λ h. elim h [ inl new ↦ absurd (omega (arith, new.1)) | inr old ↦ old ]))
In-add_predecessor_below src dst s (suc d) b bs rest below = (
  (λ h. elim ((below d).0 h) [ inl new ↦ inl (new.0, ap suc new.1) | inr old ↦ inr old ]),
  (λ h. elim h [
    | inl new ↦ (below d).1 (inl (new.0, omega (arith, new.1)))
    | inr old ↦ (below d).1 (inr old)
  ]),
)

-- Adding a pair adds its source to the set of its target and nothing else.
In-add_predecessor :
    (src dst s d : ℕ) (bs bs' : List BasicBlock)
    → add_predecessor src dst bs ≡ some bs'
    → In s (predecessors_at bs' d) ↔ (((s ≡ src) × (d ≡ dst)) ⊎ In s (predecessors_at bs d))
unfolding add_predecessor
In-add_predecessor src dst s d [] bs' e = cc
In-add_predecessor src zero s zero (b ∷ bs) bs' e =
    subst (λ x. In s (predecessors_at x 0) ↔ (((s ≡ src) × ◌≡◌ {A = ℕ} 0 0) ⊎ In s b.predecessors))
      (some-eq _ bs' e)
      (
        (λ h. elim (In-of-set_insert s src b.predecessors h) [
          | inl same ↦ inl (same, refl)
          | inr old ↦ inr old
        ]),
        (λ h. elim h [
          | inl new ↦ rw new.0 (In-set_insert_self src b.predecessors)
          | inr old ↦ In-set_insert s src b.predecessors old
        ]),
      )
In-add_predecessor src zero s (suc d) (b ∷ bs) bs' e =
    subst
      (λ x.
        In s (predecessors_at x (suc d))
        ↔ (((s ≡ src) × (suc d ≡ 0)) ⊎ In s (predecessors_at bs d)))
      (some-eq _ bs' e)
      (inr, (λ h. elim h [ inl new ↦ absurd (omega (arith, new.1)) | inr old ↦ old ]))
In-add_predecessor src (suc dst) s d (b ∷ bs) bs' e =
    elim (Option-cases (add_predecessor src dst bs)) [
      | inl gone ↦ absurd (cc (rw (gone, add_predecessor) at e))
      | inr (rest, found) ↦
          subst
            (λ x.
              In s (predecessors_at x d)
              ↔ (((s ≡ src) × (d ≡ suc dst)) ⊎ In s (predecessors_at (b ∷ bs) d)))
            (some-eq (b ∷ rest) bs' (rw (found, add_predecessor) at e))
            (In-add_predecessor_below src dst s d b bs rest
              (λ k. In-add_predecessor src dst s k bs rest found))
    ]

-- The set of a pair of edges.
pub In-add_predecessors :
    (s d : ℕ) (ps : List (ℕ × ℕ)) (bs bs' : List BasicBlock)
    → add_predecessors ps bs ≡ some bs'
    → In s (predecessors_at bs' d) ↔ (HasPair s d ps ⊎ In s (predecessors_at bs d))
unfolding add_predecessors
In-add_predecessors s d [] bs bs' e =
    subst (λ x. In s (predecessors_at x d) ↔ (⊥ ⊎ In s (predecessors_at bs d))) (some-eq bs bs' e)
      (inr, (λ h. elim h [ inl never ↦ absurd never | inr old ↦ old ]))
In-add_predecessors s d ((src, dst) ∷ ps) bs bs' e =
    elim (Option-cases (add_predecessor src dst bs)) [
      | inl gone ↦ absurd (cc (rw (gone, add_predecessors) at e))
      | inr (bs1, found) ↦
          let one = In-add_predecessor src dst s d bs bs1 found in
          let rest = In-add_predecessors s d ps bs1 bs' (rw (found, add_predecessors) at e) in
          (
            (λ h. elim (rest.0 h) [
              | inl later ↦ inl (inr later)
              | inr before ↦ elim (one.0 before) [ inl new ↦ inl (inl new) | inr old ↦ inr old ]
            ]),
            (λ h. elim h [
              | inl now ↦ elim now [
                | inl new ↦ rest.1 (inr (one.1 (inl new)))
                | inr later ↦ rest.1 (inl later)
              ]
              | inr old ↦ rest.1 (inr (one.1 (inr old)))
            ]),
          )
    ]
