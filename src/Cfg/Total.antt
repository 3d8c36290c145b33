-- ===== src/Cfg/Total.antt =====
-- When no index of `Cfg::build` is out of range.
use droidsaw_dex.Prelude.{
  ℕ, zero, suc, ◌+◌, ◌<◌, ◌≤◌, ◌≡◌, refl, arith, Bool, true, false, some, List, [], ◌∷◌, ◌++◌, All,
  length, get_elem?, if◌then◌else◌, ap, ◌∙◌,
}
use droidsaw_dex.Decode.Insn.{Instruction}
use droidsaw_dex.Decode.Item.{TryItem, CatchHandler, CodeItem}
use droidsaw_dex.Cfg.Blocks.{
  Edge, BasicBlock, ExceptionRegion, Cfg, find_leaders, blocks_from, addr_map_from, build_blocks,
}
use droidsaw_dex.Cfg.Edges.{
  last_insn, add_edges, handler_edges, overlaps, add_try_edges, exception_edges_from,
  add_exception_edges, add_predecessor, block_pairs, edge_pairs, add_predecessors,
  fill_predecessors,
}
use droidsaw_dex.Cfg.Build.{
  build, build_from, build_nonempty, exception_region, regions_from, build_exception_regions,
}
use droidsaw_dex.Cfg.Targets.{
  MapBelow, EdgesBelow, BlocksBelow, EdgesBelow-append, add_edges-below, handler_edges-below,
}

-- The map that `build_blocks` gives names its blocks.
addr_map_from-below : (n i : ℕ) (ls : List ℕ) → i + length ls ≤ n → MapBelow n (addr_map_from i ls)
unfolding addr_map_from
addr_map_from-below n i [] h = tt
addr_map_from-below n i (l ∷ ls) h = (omega arith, addr_map_from-below n (i + 1) ls (omega arith))

length-blocks_from :
    (insns : List Instruction) (i : ℕ) (ls : List ℕ) → length (blocks_from insns i ls) ≡ length ls
unfolding blocks_from
length-blocks_from insns i [] = refl
length-blocks_from insns i (l ∷ ls) = ap suc (length-blocks_from insns (i + 1) ls)

length-add_edges :
    (bs : List BasicBlock) (m : List (ℕ × ℕ)) (code : CodeItem)
    → length (add_edges bs m code) ≡ length bs
unfolding add_edges
length-add_edges [] m code = refl
length-add_edges (b ∷ bs) m code = ap suc (length-add_edges bs m code)

-- Every try item names a handler that is there.
abbrev pub HandlersInRange : List CatchHandler → List TryItem → Type 0
HandlersInRange handlers tries = All (λ (t : TryItem). t.handler_idx < length handlers) tries

get_elem?-in {ℓ} :
    {A : Type ℓ} (xs : List A) (i : ℕ) → i < length xs → (x : A) × get_elem? xs i ≡ some x
get_elem?-in [] i h = absurd (omega arith)
get_elem?-in (x ∷ xs) zero h = (x, refl)
get_elem?-in (x ∷ xs) (suc i) h = get_elem?-in xs i (omega arith)

successors_if-below :
    (n : ℕ) (c : Bool) (b : BasicBlock) (es : List Edge)
    → EdgesBelow n b.successors
    → EdgesBelow n es
    → EdgesBelow n (if c then record b { successors = b.successors ++ es } else b).successors
successors_if-below n true b es h k = EdgesBelow-append n b.successors es h k
successors_if-below n false b es h k = h

add_try_edges-below :
    (n : ℕ) (try : TryItem) (es : List Edge) (bs : List BasicBlock)
    → EdgesBelow n es
    → BlocksBelow n bs
    → BlocksBelow n (add_try_edges try es bs)
unfolding add_try_edges
add_try_edges-below n try es [] k h = tt
add_try_edges-below n try es (b ∷ bs) k h = (
  successors_if-below n (overlaps try b (last_insn b.instructions)) b es h.0 k,
  add_try_edges-below n try es bs k h.1,
)

length-add_try_edges :
    (try : TryItem) (es : List Edge) (bs : List BasicBlock)
    → length (add_try_edges try es bs) ≡ length bs
unfolding add_try_edges
length-add_try_edges try es [] = refl
length-add_try_edges try es (b ∷ bs) = ap suc (length-add_try_edges try es bs)

exception_edges_from-total :
    (n : ℕ) (handlers : List CatchHandler) (m : List (ℕ × ℕ)) (tries : List TryItem)
    (bs : List BasicBlock)
    → MapBelow n m
    → HandlersInRange handlers tries
    → BlocksBelow n bs
    → (bs' : List BasicBlock) × (exception_edges_from tries handlers m bs ≡ some bs')
      × BlocksBelow n bs'
      × (length bs' ≡ length bs)
unfolding exception_edges_from
exception_edges_from-total n handlers m [] bs hm hh hb = (bs, refl, hb, refl)
exception_edges_from-total n handlers m (t ∷ ts) bs hm hh hb =
    let (handler, found) = get_elem?-in handlers t.handler_idx hh.0 in
    let es = handler_edges m handler in
    let (bs', e, below, len) =
      exception_edges_from-total n handlers m ts (add_try_edges t es bs) hm hh.1
        (add_try_edges-below n t es bs (handler_edges-below n m hm handler) hb) in
    (bs', rw (found, exception_edges_from) e, below, len ∙ length-add_try_edges t es bs)

abbrev pub PairsBelow : ℕ → List (ℕ × ℕ) → Type 0
PairsBelow n ps = All (λ (p : ℕ × ℕ). p.1 < n) ps

PairsBelow-append :
    (n : ℕ) (xs ys : List (ℕ × ℕ)) → PairsBelow n xs → PairsBelow n ys → PairsBelow n (xs ++ ys)
PairsBelow-append n [] ys h k = k
PairsBelow-append n (x ∷ xs) ys h k = (h.0, PairsBelow-append n xs ys h.1 k)

block_pairs-below :
    (n src : ℕ) (es : List Edge) → EdgesBelow n es → PairsBelow n (block_pairs src es)
unfolding block_pairs
block_pairs-below n src [] h = tt
block_pairs-below n src (e ∷ es) h = (h.0, block_pairs-below n src es h.1)

edge_pairs-below : (n : ℕ) (bs : List BasicBlock) → BlocksBelow n bs → PairsBelow n (edge_pairs bs)
unfolding edge_pairs
edge_pairs-below n [] h = tt
edge_pairs-below n (b ∷ bs) h =
    PairsBelow-append n _ _ (block_pairs-below n b.id b.successors h.0) (edge_pairs-below n bs h.1)

add_predecessor-total :
    (src dst : ℕ) (bs : List BasicBlock)
    → dst < length bs
    → (bs' : List BasicBlock) × (add_predecessor src dst bs ≡ some bs') × (length bs' ≡ length bs)
unfolding add_predecessor
add_predecessor-total src dst [] h = absurd (omega arith)
add_predecessor-total src zero (b ∷ bs) h = (_, refl, refl)
add_predecessor-total src (suc dst) (b ∷ bs) h =
    let (bs', e, len) = add_predecessor-total src dst bs (omega arith) in
    (b ∷ bs', rw (e, add_predecessor) refl, ap suc len)

add_predecessors-total :
    (n : ℕ) (ps : List (ℕ × ℕ)) (bs : List BasicBlock)
    → PairsBelow n ps
    → length bs ≡ n
    → (bs' : List BasicBlock) × add_predecessors ps bs ≡ some bs'
unfolding add_predecessors
add_predecessors-total n [] bs h len = (bs, refl)
add_predecessors-total n ((src, dst) ∷ ps) bs h len =
    let (bs1, e1, len1) = add_predecessor-total src dst bs (omega arith) in
    let (bs2, e2) = add_predecessors-total n ps bs1 h.1 (len1 ∙ len) in
    (bs2, rw (e1, add_predecessors) e2)

regions_from-total :
    (handlers : List CatchHandler) (m : List (ℕ × ℕ)) (tries : List TryItem)
    → HandlersInRange handlers tries
    → (rs : List ExceptionRegion) × regions_from tries handlers m ≡ some rs
unfolding regions_from
regions_from-total handlers m [] h = ([], refl)
regions_from-total handlers m (t ∷ ts) h =
    let (handler, found) = get_elem?-in handlers t.handler_idx h.0 in
    let (rs, e) = regions_from-total handlers m ts h.1 in
    (exception_region m t handler ∷ rs, rw (found, e, regions_from) refl)

build_nonempty-total :
    (code : CodeItem)
    → HandlersInRange code.catch_handlers code.tries
    → (cfg : Cfg) × build_nonempty code ≡ some cfg
unfolding build_nonempty build_blocks add_exception_edges fill_predecessors build_exception_regions
build_nonempty-total code h =
    let ls = find_leaders code in
    let n = length ls in
    let bs = blocks_from code.instructions 0 ls in
    let m = addr_map_from 0 ls in
    let m_below : MapBelow n m = addr_map_from-below n 0 ls (omega arith) in
    let (caught, e1, below, len1) =
      exception_edges_from-total n code.catch_handlers m code.tries (add_edges bs m code) m_below h
        (add_edges-below n m m_below code bs) in
    let (linked, e2) =
      add_predecessors-total n (edge_pairs caught) caught (edge_pairs-below n caught below)
        (len1 ∙ length-add_edges bs m code ∙ length-blocks_from code.instructions 0 ls) in
    let (regions, e3) = regions_from-total code.catch_handlers m code.tries h in
    (
      record { blocks = linked; entry = 0; exception_regions = regions; addr_to_block = m },
      rw (e1, e2, e3, build_nonempty) refl,
    )

build_from-total :
    (code : CodeItem) (is : List Instruction)
    → HandlersInRange code.catch_handlers code.tries
    → (cfg : Cfg) × (build_from is code ≡ some cfg)
unfolding build_from
build_from-total code [] h = (_, refl)
build_from-total code (i ∷ is) h = build_nonempty-total code h

-- When every try item names a handler of the code, no index that the construction of the graph uses
-- is out of range: whatever the branch targets, the payloads and the handlers' addresses, a graph is built.
pub build-total :
    (code : CodeItem)
    → HandlersInRange code.catch_handlers code.tries
    → (cfg : Cfg) × build code ≡ some cfg
unfolding build
build-total code h = build_from-total code code.instructions h
