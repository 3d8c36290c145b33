-- ===== src/Cfg/Views.antt =====
-- src/cfg.rs: the graph of all edges, and `NormalFlow`, which hides those to exception handlers.
-- `none` is the panic of an index out of range.
use droidsaw_dex.Prelude.{
  ℕ, ◌≡◌, refl, sym, ap, ◌∙◌, subst, arith, inl, inr, ◌↔◌, Bool, true, false, not, ◌&&◌, Option,
  none, some, some-eq, Bool-cases, Option-cases, List, [], ◌∷◌, get_elem?, ◌==◌, if◌then◌else◌,
}
use droidsaw_dex.Prelude.Sets.{In}
use droidsaw_dex.Cfg.Blocks.{EdgeKind, Edge, BasicBlock, Cfg}

unfoldable pub is_exception : EdgeKind → Bool
is_exception (EdgeKind.exception_handler t) = true
is_exception EdgeKind.exception_catch_all = true
is_exception _ = false

unfoldable pub edge_targets : List Edge → List ℕ
edge_targets [] = []
edge_targets (e ∷ es) = e.target ∷ edge_targets es

unfoldable pub normal_targets : List Edge → List ℕ
normal_targets [] = []
normal_targets (e ∷ es) =
    let rest = normal_targets es in if is_exception e.kind then rest else e.target ∷ rest

-- `e.target == target` for an edge that is not to an exception handler
unfoldable pub has_normal_edge : ℕ → List Edge → Bool
has_normal_edge target [] = false
has_normal_edge target (e ∷ es) =
    if (e.target == target) && not (is_exception e.kind) then true else has_normal_edge target es

unfoldable pub successors_of : Cfg → ℕ → Option (List ℕ)
unfolding edge_targets
successors_of cfg node = elim (get_elem? cfg.blocks node) [
  | none ↦ none
  | some b ↦ some (edge_targets b.successors)
]

unfoldable pub predecessors_of : Cfg → ℕ → Option (List ℕ)
predecessors_of cfg node = elim (get_elem? cfg.blocks node) [
  | none ↦ none
  | some b ↦ some b.predecessors
]

unfoldable pub normal_successors : Cfg → ℕ → Option (List ℕ)
unfolding normal_targets
normal_successors cfg node = elim (get_elem? cfg.blocks node) [
  | none ↦ none
  | some b ↦ some (normal_targets b.successors)
]

-- The filter of the predecessors of `node`; each is looked up.
unfoldable pub filter_normal : List BasicBlock → ℕ → List ℕ → Option (List ℕ)
unfolding has_normal_edge
filter_normal blocks node [] = some []
filter_normal blocks node (p ∷ ps) =
    let rest = filter_normal blocks node ps in
    elim (get_elem? blocks p) [
      | none ↦ none
      | some b ↦ elim rest [
        | none ↦ none
        | some kept ↦ some (if has_normal_edge node b.successors then p ∷ kept else kept)
      ]
    ]

unfoldable pub normal_predecessors : Cfg → ℕ → Option (List ℕ)
unfolding filter_normal
normal_predecessors cfg node = elim (get_elem? cfg.blocks node) [
  | none ↦ none
  | some b ↦ filter_normal cfg.blocks node b.predecessors
]

-- The edges that are counted are those whose targets are listed.
has_normal_edge-In :
    (t : ℕ) (es : List Edge) → (has_normal_edge t es ≡ true) ↔ In t (normal_targets es)
unfolding has_normal_edge normal_targets
has_normal_edge-In t [] = (cc, λ i. absurd i)
has_normal_edge-In t (e ∷ es) =
    let (to, back) = has_normal_edge-In t es in
    elim (Bool-cases (is_exception e.kind)) [ inl hidden ↦ grind arith | inr shown ↦ grind arith ]

-- One element of the filter, whose test holds exactly when `T` does.
In-kept :
    (test : Bool) (p q : ℕ) (ps kept : List ℕ) (T : Type 0)
    → (p ≡ q → (test ≡ true) ↔ T)
    → In p kept ↔ (In p ps × T)
    → In p (if test then q ∷ kept else kept) ↔ (In p (q ∷ ps) × T)
In-kept true p q ps kept T same below = (
  (λ i. elim i [
    | inl e ↦ (inl e, (same e).0 refl)
    | inr old ↦ (inr (below.0 old).0, (below.0 old).1)
  ]),
  (λ h. elim h.0 [ inl e ↦ inl e | inr old ↦ inr (below.1 (old, h.1)) ]),
)
In-kept false p q ps kept T same below = (
  (λ i. (inr (below.0 i).0, (below.0 i).1)),
  (λ h. elim h.0 [ inl e ↦ absurd (cc ((same e).1 h.1)) | inr old ↦ below.1 (old, h.1) ]),
)

filter_normal-In :
    (blocks : List BasicBlock) (node p : ℕ) (ps kept : List ℕ) (b : BasicBlock)
    → filter_normal blocks node ps ≡ some kept
    → get_elem? blocks p ≡ some b
    → In p kept ↔ (In p ps × In node (normal_targets b.successors))
unfolding filter_normal
filter_normal-In blocks node p [] kept b e found =
    subst (λ k. In p k ↔ (⊥ × In node (normal_targets b.successors))) (some-eq [] kept e)
      ((λ i. absurd i), (λ h. absurd h.0))
filter_normal-In blocks node p (q ∷ ps) kept b e found = elim (Option-cases (get_elem? blocks q)) [
  | inl gone ↦ absurd (cc (rw (gone, filter_normal) at e))
  | inr (c, fc) ↦ elim (Option-cases (filter_normal blocks node ps)) [
    | inl gone ↦ absurd (cc (rw (fc, gone, filter_normal) at e))
    | inr (rest, fr) ↦
        subst (λ k. In p k ↔ (In p (q ∷ ps) × In node (normal_targets b.successors)))
          (some-eq _ kept (rw (fc, fr, filter_normal) at e))
          (In-kept (has_normal_edge node c.successors) p q ps rest
            (In node (normal_targets b.successors))
            (λ same.
              subst
                (λ (x : BasicBlock).
                  (has_normal_edge node c.successors ≡ true)
                  ↔ In node (normal_targets x.successors))
                (some-eq c b (sym fc ∙ ap (get_elem? blocks) (sym same) ∙ found))
                (has_normal_edge-In node c.successors))
            (filter_normal-In blocks node p ps rest b fr found))
  ]
]

-- In the view without the edges to exception handlers, when the blocks that are looked up are
-- there, a block is a predecessor of another exactly when it is one in the graph of all edges and
-- the other is among its successors in the view.
pub normal_predecessors-normal_successors :
    (cfg : Cfg) (node p : ℕ) (all kept next : List ℕ)
    → predecessors_of cfg node ≡ some all
    → normal_predecessors cfg node ≡ some kept
    → normal_successors cfg p ≡ some next
    → In p kept ↔ (In p all × In node next)
unfolding predecessors_of normal_predecessors normal_successors
normal_predecessors-normal_successors cfg node p all kept next ea ek en =
    elim (Option-cases (get_elem? cfg.blocks node)) [
      | inl gone ↦ absurd (cc (rw (gone, predecessors_of) at ea))
      | inr (b, fb) ↦ elim (Option-cases (get_elem? cfg.blocks p)) [
        | inl gone ↦ absurd (cc (rw (gone, normal_successors) at en))
        | inr (c, fc) ↦
            subst (λ x. In p kept ↔ (In p x × In node next))
              (some-eq _ all (rw (fb, predecessors_of) at ea))
              (subst (λ x. In p kept ↔ (In p b.predecessors × In node x))
                (some-eq _ next (rw (fc, normal_successors) at en))
                (filter_normal-In cfg.blocks node p b.predecessors kept c
                  (rw (fb, normal_predecessors) at ek) fc))
      ]
    ]
