-- ===== src/Cfg/Targets.antt =====
-- Every edge leads to a block: what `Cfg::build` takes from the address map is in range.
use droidsaw_dex.Prelude.{
  ℕ, ◌+◌, ◌<◌, Bool, true, false, Option, none, some, List, [], ◌∷◌, ◌++◌, ◌==◌, All, if◌then◌else◌,
  Bool-cases, inl, inr,
}
use droidsaw_dex.Prelude.Int.{ℤ}
use droidsaw_dex.Prelude.Sets.{map_get}
use droidsaw_dex.Decode.Insn.{Instruction}
use droidsaw_dex.Decode.Item.{
  PayloadData, packed_switch, sparse_switch, fill_array_data, TypedCatch, CatchHandler, CodeItem,
}
use droidsaw_dex.Cfg.Blocks.{
  EdgeKind, Edge, BasicBlock, is_terminal, is_unconditional_branch, is_switch, is_branch,
}
use droidsaw_dex.Cfg.Edges.{
  edge_to, edge_to?, packed_cases, sparse_cases, payload_edges, switch_edges, last_edges,
  block_edges, add_edges, catch_edges, handler_edges,
}

-- Every value of the map is a block number below `n`.
abbrev pub MapBelow : ℕ → List (ℕ × ℕ) → Type 0
MapBelow n m = All (λ (entry : ℕ × ℕ). entry.1 < n) m

abbrev pub EdgesBelow : ℕ → List Edge → Type 0
EdgesBelow n es = All (λ (e : Edge). e.target < n) es

abbrev pub BlocksBelow : ℕ → List BasicBlock → Type 0
BlocksBelow n bs = All (λ (b : BasicBlock). EdgesBelow n b.successors) bs

pub EdgesBelow-append :
    (n : ℕ) (xs ys : List Edge) → EdgesBelow n xs → EdgesBelow n ys → EdgesBelow n (xs ++ ys)
EdgesBelow-append n [] ys h k = k
EdgesBelow-append n (x ∷ xs) ys h k = (h.0, EdgesBelow-append n xs ys h.1 k)

EdgesBelow-if :
    (n : ℕ) (c : Bool) (xs ys : List Edge)
    → EdgesBelow n xs
    → EdgesBelow n ys
    → EdgesBelow n (if c then xs else ys)
EdgesBelow-if n true xs ys h k = h
EdgesBelow-if n false xs ys h k = k

-- The edges that an address map gives lead to its blocks.
module _ (n : ℕ) where
  edge_to-below :
      (m : List (ℕ × ℕ)) (addr : ℕ) (kind : EdgeKind)
      → MapBelow n m
      → EdgesBelow n (edge_to m addr kind)
  unfolding edge_to map_get
  edge_to-below [] addr kind h = tt
  edge_to-below ((a, i) ∷ m) addr kind h = elim (Bool-cases (addr == a)) [
    | inl hit ↦ rw (hit, edge_to) (h.0, tt)
    | inr miss ↦ rw (miss, edge_to) (edge_to-below m addr kind h.1)
  ]

  module _ (m : List (ℕ × ℕ)) (below : MapBelow n m) where
    edge_to?-below : (addr : Option ℕ) (kind : EdgeKind) → EdgesBelow n (edge_to? m addr kind)
    unfolding edge_to?
    edge_to?-below none kind = tt
    edge_to?-below (some addr) kind = edge_to-below m addr kind below

    packed_cases-below :
        (first_key : ℤ) (j : ℕ) (ts : List ℕ) → EdgesBelow n (packed_cases m first_key j ts)
    unfolding packed_cases
    packed_cases-below first_key j [] = tt
    packed_cases-below first_key j (t ∷ ts) =
        EdgesBelow-append n _ _ (edge_to-below m t _ below)
          (packed_cases-below first_key (j + 1) ts)

    sparse_cases-below : (keys : List ℤ) (ts : List ℕ) → EdgesBelow n (sparse_cases m keys ts)
    unfolding sparse_cases
    sparse_cases-below (k ∷ ks) (t ∷ ts) =
        EdgesBelow-append n _ _ (edge_to-below m t _ below) (sparse_cases-below ks ts)
    sparse_cases-below (k ∷ ks) [] = tt
    sparse_cases-below [] ts = tt

    payload_edges-below : (p : Option PayloadData) → EdgesBelow n (payload_edges m p)
    unfolding payload_edges
    payload_edges-below (some (packed_switch k ts)) = packed_cases-below k 0 ts
    payload_edges-below (some (sparse_switch ks ts)) = sparse_cases-below ks ts
    payload_edges-below (some (fill_array_data w es)) = tt
    payload_edges-below none = tt

    switch_edges-below : (code : CodeItem) (t : Option ℕ) → EdgesBelow n (switch_edges code m t)
    unfolding switch_edges
    switch_edges-below code none = tt
    switch_edges-below code (some t) = payload_edges-below _

    last_edges-below :
        (code : CodeItem) (last : Instruction) → EdgesBelow n (last_edges code m last)
    unfolding last_edges
    last_edges-below code last = EdgesBelow-if n (is_terminal last.op) _ _ tt (
        EdgesBelow-if n (is_unconditional_branch last.op) _ _ (edge_to?-below _ _) (
          EdgesBelow-if n (is_switch last.op) _ _
            (EdgesBelow-append n _ _ (edge_to-below m _ _ below) (switch_edges-below code _))
            (EdgesBelow-if n (is_branch last.op) _ _
              (EdgesBelow-append n _ _ (edge_to-below m _ _ below) (edge_to?-below _ _))
              (edge_to-below m _ _ below))))

    block_edges-below :
        (code : CodeItem) (last : Option Instruction) → EdgesBelow n (block_edges code m last)
    unfolding block_edges
    block_edges-below code none = tt
    block_edges-below code (some last) = last_edges-below code last

    pub add_edges-below :
        (code : CodeItem) (bs : List BasicBlock) → BlocksBelow n (add_edges bs m code)
    unfolding add_edges
    add_edges-below code [] = tt
    add_edges-below code (b ∷ bs) = (block_edges-below code _, add_edges-below code bs)

    catch_edges-below : (cs : List TypedCatch) → EdgesBelow n (catch_edges m cs)
    unfolding catch_edges
    catch_edges-below [] = tt
    catch_edges-below (c ∷ cs) =
        EdgesBelow-append n _ _ (edge_to-below m _ _ below) (catch_edges-below cs)

    pub handler_edges-below : (h : CatchHandler) → EdgesBelow n (handler_edges m h)
    unfolding handler_edges
    handler_edges-below h =
        EdgesBelow-append n _ _ (catch_edges-below h.catches) (edge_to?-below _ _)
