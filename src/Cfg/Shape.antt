-- ===== src/Cfg/Shape.antt =====
-- The addresses and the instructions of the blocks are those of `build_blocks`, whatever edges are added.
use droidsaw_dex.Prelude.{
  ℕ, zero, suc, ◌≡◌, refl, sym, ap, ◌∙◌, inl, inr, Bool, true, false, some-eq, some, List, [], ◌∷◌,
  ◌⊎◌, ap₂, Option-cases, get_elem?, ◌++◌, if◌then◌else◌,
}
use droidsaw_dex.Decode.Insn.{Instruction}
use droidsaw_dex.Decode.Item.{CatchHandler, CodeItem, TryItem}
use droidsaw_dex.Cfg.Blocks.{Edge, BasicBlock, Cfg, find_leaders, build_blocks}
use droidsaw_dex.Cfg.Edges.{
  add_edges, add_try_edges, overlaps, last_insn, handler_edges, exception_edges_from,
  add_exception_edges, add_predecessor, add_predecessors, fill_predecessors, edge_pairs,
}
use droidsaw_dex.Cfg.Build.{build, build_from, build_nonempty, build_exception_regions}

-- Where each block starts, and what it holds.
abbrev pub shape : List BasicBlock → List (ℕ × List Instruction)
shape [] = []
shape (b ∷ bs) = (b.start_addr, b.instructions) ∷ shape bs

shape-add_edges :
    (bs : List BasicBlock) (m : List (ℕ × ℕ)) (code : CodeItem)
    → shape (add_edges bs m code) ≡ shape bs
unfolding add_edges
shape-add_edges [] m code = refl
shape-add_edges (b ∷ bs) m code =
    ap (λ ss. (b.start_addr, b.instructions) ∷ ss) (shape-add_edges bs m code)

if_shape :
    (c : Bool) (b : BasicBlock) (es : List Edge)
    → ◌≡◌ {A = ℕ × List Instruction}
        (
          (if c then record b { successors = es } else b).start_addr,
          (if c then record b { successors = es } else b).instructions,
        )
        (b.start_addr, b.instructions)
if_shape true b es = refl
if_shape false b es = refl

shape-add_try_edges :
    (try : TryItem) (es : List Edge) (bs : List BasicBlock)
    → shape (add_try_edges try es bs) ≡ shape bs
unfolding add_try_edges
shape-add_try_edges try es [] = refl
shape-add_try_edges try es (b ∷ bs) =
    ap₂ ◌∷◌ (if_shape (overlaps try b (last_insn b.instructions)) b (b.successors ++ es))
      (shape-add_try_edges try es bs)

shape-exception_edges_from :
    (tries : List TryItem) (handlers : List CatchHandler) (m : List (ℕ × ℕ))
    (bs bs' : List BasicBlock)
    → exception_edges_from tries handlers m bs ≡ some bs'
    → shape bs' ≡ shape bs
unfolding exception_edges_from
shape-exception_edges_from [] handlers m bs bs' e = cc
shape-exception_edges_from (t ∷ ts) handlers m bs bs' e =
    elim (Option-cases (get_elem? handlers t.handler_idx)) [
      | inl gone ↦ absurd (cc (rw (gone, exception_edges_from) at e))
      | inr (handler, found) ↦
          shape-exception_edges_from ts handlers m (add_try_edges t (handler_edges m handler) bs)
            bs' (rw (found, exception_edges_from) at e)
          ∙ shape-add_try_edges t (handler_edges m handler) bs
    ]

shape-add_predecessor :
    (src dst : ℕ) (bs bs' : List BasicBlock)
    → add_predecessor src dst bs ≡ some bs'
    → shape bs' ≡ shape bs
unfolding add_predecessor
shape-add_predecessor src dst [] bs' e = cc
shape-add_predecessor src zero (b ∷ bs) bs' e = ap shape (sym (some-eq _ _ e))
shape-add_predecessor src (suc dst) (b ∷ bs) bs' e =
    elim (Option-cases (add_predecessor src dst bs)) [
      | inl gone ↦ absurd (cc (rw (gone, add_predecessor) at e))
      | inr (rest, found) ↦
          ap shape (sym (some-eq _ _ (rw (found, add_predecessor) at e)))
          ∙ ap (λ ss. (b.start_addr, b.instructions) ∷ ss)
              (shape-add_predecessor src dst bs rest found)
    ]

shape-add_predecessors :
    (pairs : List (ℕ × ℕ)) (bs bs' : List BasicBlock)
    → add_predecessors pairs bs ≡ some bs'
    → shape bs' ≡ shape bs
unfolding add_predecessors
shape-add_predecessors [] bs bs' e = cc
shape-add_predecessors ((src, dst) ∷ ps) bs bs' e =
    elim (Option-cases (add_predecessor src dst bs)) [
      | inl gone ↦ absurd (cc (rw (gone, add_predecessors) at e))
      | inr (bs1, found) ↦
          shape-add_predecessors ps bs1 bs' (rw (found, add_predecessors) at e)
          ∙ shape-add_predecessor src dst bs bs1 found
    ]

shape-build_nonempty :
    (code : CodeItem) (cfg : Cfg)
    → build_nonempty code ≡ some cfg
    → shape cfg.blocks ≡ shape (build_blocks code (find_leaders code)).0
unfolding build_nonempty build_blocks add_exception_edges fill_predecessors
shape-build_nonempty code cfg e =
    let built = build_blocks code (find_leaders code) in
    let edged = add_edges built.0 built.1 code in
    elim (Option-cases (add_exception_edges edged built.1 code)) [
      | inl gone ↦ absurd (cc (rw gone at e))
      | inr (caught, e1) ↦ elim (Option-cases (fill_predecessors caught)) [
        | inl gone ↦ absurd (cc (rw (e1, gone) at e))
        | inr (linked, e2) ↦ elim (Option-cases (build_exception_regions code built.1)) [
          | inl gone ↦ absurd (cc (rw (e1, e2, gone) at e))
          | inr (regions, e3) ↦
              ap (λ (c : Cfg). shape c.blocks) (sym (some-eq _ cfg (rw (e1, e2, e3) at e)))
              ∙ shape-add_predecessors (edge_pairs caught) caught linked e2
              ∙ shape-exception_edges_from code.tries code.catch_handlers built.1 edged caught e1
              ∙ shape-add_edges built.0 built.1 code
        ]
      ]
    ]

shape-build_from :
    (code : CodeItem) (cfg : Cfg) (is : List Instruction)
    → is ≡ code.instructions
    → build_from is code ≡ some cfg
    → ((cfg.blocks ≡ []) × (code.instructions ≡ []))
      ⊎ (shape cfg.blocks ≡ shape (build_blocks code (find_leaders code)).0)
unfolding build_from
shape-build_from code cfg [] held e =
    inl (ap (λ (c : Cfg). c.blocks) (sym (some-eq _ cfg e)), sym held)
shape-build_from code cfg (i ∷ is) held e = inr (shape-build_nonempty code cfg e)

-- A graph has no blocks when there are no instructions, and otherwise those of `build_blocks`.
pub shape-build :
    (code : CodeItem) (cfg : Cfg)
    → build code ≡ some cfg
    → ((cfg.blocks ≡ []) × (code.instructions ≡ []))
      ⊎ (shape cfg.blocks ≡ shape (build_blocks code (find_leaders code)).0)
unfolding build
shape-build code cfg e = shape-build_from code cfg code.instructions refl e
