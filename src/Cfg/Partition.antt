-- ===== src/Cfg/Partition.antt =====
-- The blocks partition the instructions.
use mathlib.Core.List.{append-nil}
use droidsaw_dex.Prelude.{
  ℕ, zero, suc, ◌+◌, ◌<◌, ◌≤◌, ◌≡◌, refl, sym, ap, ◌∙◌, arith, inl, inr, some, List, [], ◌∷◌, ◌++◌,
}
use droidsaw_dex.Prelude.Sets.{In, IsAscending, AscendingAbove}
use droidsaw_dex.Decode.Insn.{Instruction}
use droidsaw_dex.Decode.Item.{CodeItem}
use droidsaw_dex.Cfg.Blocks.{
  BasicBlock, Cfg, find_leaders, insns_between, next_leader, blocks_from, build_blocks,
}
use droidsaw_dex.Cfg.Build.{build}
use droidsaw_dex.Cfg.Shape.{shape, shape-build}
use droidsaw_dex.Cfg.Leaders.{find_leaders-IsAscending, find_leaders-zero}

-- The addresses ascend strictly, from `lo` on and below the sentinel of the last block.
abbrev pub InsnsFrom : ℕ → List Instruction → Type 0
InsnsFrom lo [] = Unit
InsnsFrom lo (i ∷ is) = (lo ≤ i.addr) × (i.addr < 0xffff_ffff) × InsnsFrom (suc i.addr) is

InsnsFrom-weaken : (lo hi : ℕ) (is : List Instruction) → lo ≤ hi → InsnsFrom hi is → InsnsFrom lo is
InsnsFrom-weaken lo hi [] le h = tt
InsnsFrom-weaken lo hi (i ∷ is) le h = (omega arith, h.1, h.2)

between_all :
    (lo : ℕ) (is : List Instruction) → InsnsFrom lo is → insns_between lo 0xffff_ffff is ≡ is
unfolding insns_between
between_all lo [] h = refl
between_all lo (i ∷ is) h =
    ground (arith, between_all lo is (InsnsFrom-weaken lo (suc i.addr) is (omega arith) h.2))

between_none :
    (lo hi m : ℕ) (is : List Instruction) → hi ≤ m → InsnsFrom m is → insns_between lo hi is ≡ []
unfolding insns_between
between_none lo hi m [] le h = refl
between_none lo hi m (i ∷ is) le h =
    ground (arith, between_none lo hi (suc i.addr) is (omega arith) h.2)

-- Two adjacent ranges make one.
between_split :
    (lo m from : ℕ) (is : List Instruction)
    → lo ≤ m
    → InsnsFrom from is
    → insns_between lo m is ++ insns_between m 0xffff_ffff is ≡ insns_between lo 0xffff_ffff is
unfolding insns_between
between_split lo m from [] p h = refl
between_split lo m from (i ∷ is) p h = ground (
  arith,
  between_split lo m (suc i.addr) is p h.2,
  λ (above : m ≤ i.addr). between_none lo m (suc i.addr) is (omega arith) h.2,
)

abbrev pub all_insns : List BasicBlock → List Instruction
all_insns [] = []
all_insns (b ∷ bs) = b.instructions ++ all_insns bs

all_insns-blocks_from :
    (insns : List Instruction) (from i l : ℕ) (ls : List ℕ)
    → InsnsFrom from insns
    → AscendingAbove l ls
    → all_insns (blocks_from insns i (l ∷ ls)) ≡ insns_between l 0xffff_ffff insns
unfolding blocks_from next_leader
all_insns-blocks_from insns from i l [] h a = append-nil _
all_insns-blocks_from insns from i l (m ∷ ls) h a =
    rw (all_insns-blocks_from insns from (i + 1) m ls h a.1)
      (between_split l m from insns (omega arith) h)

above_zero : (lo : ℕ) (ls : List ℕ) → AscendingAbove lo ls → In 0 ls → ⊥
above_zero lo [] a h = h
above_zero lo (l ∷ ls) a (inl e) = omega arith
above_zero lo (l ∷ ls) a (inr h) = above_zero l ls a.1 h

-- From leaders that ascend and hold 0, the blocks make up the instructions.
all_insns-leaders :
    (insns : List Instruction) (ls : List ℕ)
    → InsnsFrom 0 insns
    → IsAscending ls
    → In 0 ls
    → all_insns (blocks_from insns 0 ls) ≡ insns
all_insns-leaders insns [] h a z = absurd z
all_insns-leaders insns (zero ∷ ls) h a z =
    all_insns-blocks_from insns 0 0 0 ls h a ∙ between_all 0 insns h
all_insns-leaders insns (suc l ∷ ls) h a (inl e) = absurd (omega arith)
all_insns-leaders insns (suc l ∷ ls) h a (inr z) = absurd (above_zero (suc l) ls a z)

-- The instructions of all blocks depend on what the blocks hold only.
joined : List (ℕ × List Instruction) → List Instruction
joined [] = []
joined ((start, is) ∷ ss) = is ++ joined ss

joined-shape : (bs : List BasicBlock) → joined (shape bs) ≡ all_insns bs
unfolding joined
joined-shape [] = refl
joined-shape (b ∷ bs) = ap (λ is. b.instructions ++ is) (joined-shape bs)

-- When the addresses of the instructions ascend, as those that the decoder gives do, the blocks of
-- a graph that is built hold, one block after the other, exactly the instructions of the code.
pub build-partition :
    (code : CodeItem) (cfg : Cfg)
    → InsnsFrom 0 code.instructions
    → build code ≡ some cfg
    → all_insns cfg.blocks ≡ code.instructions
unfolding build_blocks
build-partition code cfg h e = elim (shape-build code cfg e) [
  | inl (no_blocks, no_insns) ↦ ap all_insns no_blocks ∙ sym no_insns
  | inr same ↦
      sym (joined-shape cfg.blocks)
      ∙ ap joined same
      ∙ joined-shape (build_blocks code (find_leaders code)).0
      ∙ all_insns-leaders code.instructions (find_leaders code) h (find_leaders-IsAscending code)
          (find_leaders-zero code)
]
