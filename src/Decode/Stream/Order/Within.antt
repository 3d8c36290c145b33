-- ===== src/Decode/Stream/Order/Within.antt =====
-- Instructions whose addresses ascend within bounds.
use droidsaw_dex.Prelude.{ℕ, suc, ◌<◌, ◌≤◌, arith, List, [], ◌∷◌, ◌++◌}
use droidsaw_dex.Prelude.Words.{u32_mod}
use droidsaw_dex.Decode.Insn.{Instruction}
use droidsaw_dex.Cfg.Partition.{InsnsFrom}

-- `InsnsFrom`, with every address below `hi` too.
abbrev pub InsnsWithin : ℕ → ℕ → List Instruction → Type 0
InsnsWithin lo hi [] = lo ≤ hi
InsnsWithin lo hi (i ∷ is) = (lo ≤ i.addr) × InsnsWithin (suc i.addr) hi is

pub InsnsWithin-weaken :
    (lo hi hi' : ℕ) (is : List Instruction)
    → hi ≤ hi'
    → InsnsWithin lo hi is
    → InsnsWithin lo hi' is
InsnsWithin-weaken lo hi hi' [] le h = omega arith
InsnsWithin-weaken lo hi hi' (i ∷ is) le h = (h.0, InsnsWithin-weaken (suc i.addr) hi hi' is le h.1)

pub InsnsWithin-snoc :
    (lo hi hi' : ℕ) (is : List Instruction) (i : Instruction)
    → hi ≤ i.addr
    → i.addr < hi'
    → InsnsWithin lo hi is
    → InsnsWithin lo hi' (is ++ i ∷ [])
InsnsWithin-snoc lo hi hi' [] i le lt h = (omega arith, omega arith)
InsnsWithin-snoc lo hi hi' (j ∷ is) i le lt h =
    (h.0, InsnsWithin-snoc (suc j.addr) hi hi' is i le lt h.1)

InsnsWithin-le : (lo hi : ℕ) (is : List Instruction) → InsnsWithin lo hi is → lo ≤ hi
InsnsWithin-le lo hi [] h = h
InsnsWithin-le lo hi (i ∷ is) h = omega (arith, h.0, InsnsWithin-le (suc i.addr) hi is h.1)

pub InsnsFrom-Within :
    (lo hi : ℕ) (is : List Instruction) → hi < u32_mod → InsnsWithin lo hi is → InsnsFrom lo is
InsnsFrom-Within lo hi [] lt h = tt
InsnsFrom-Within lo hi (i ∷ is) lt h = (
  h.0,
  omega (arith, InsnsWithin-le (suc i.addr) hi is h.1),
  InsnsFrom-Within (suc i.addr) hi is lt h.1,
)
