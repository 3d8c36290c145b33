-- ===== src/Cfg/Boundary.antt =====
-- The block boundaries of a code item, by the Dalvik instructions and tables that make them.
use droidsaw_dex.Prelude.{
  ℕ, ◌+◌, ◌≡◌, refl, ◌⊎◌, inl, inr, true, false, ◌||◌, Bool-cases, some, List, [], ◌∷◌,
}
use droidsaw_dex.Prelude.Int.{ℤ}
use droidsaw_dex.Prelude.Sets.{In, map_get}
use droidsaw_dex.Opcodes.{Opcode}
use droidsaw_dex.Decode.Insn.{Instruction}
use droidsaw_dex.Decode.Item.{packed_switch, sparse_switch, TypedCatch, CatchHandler, CodeItem}
use droidsaw_dex.Cfg.Blocks.{is_branch, is_terminal, is_switch}

-- The opcodes that may go on at the target of their instruction.
pub data Jumps : Opcode → Type 0 where
  by_goto : Jumps Opcode.goto
  by_goto16 : Jumps Opcode.goto16
  by_goto32 : Jumps Opcode.goto32
  by_if_eq : Jumps Opcode.if_eq
  by_if_ne : Jumps Opcode.if_ne
  by_if_lt : Jumps Opcode.if_lt
  by_if_ge : Jumps Opcode.if_ge
  by_if_gt : Jumps Opcode.if_gt
  by_if_le : Jumps Opcode.if_le
  by_if_eqz : Jumps Opcode.if_eqz
  by_if_nez : Jumps Opcode.if_nez
  by_if_ltz : Jumps Opcode.if_ltz
  by_if_gez : Jumps Opcode.if_gez
  by_if_gtz : Jumps Opcode.if_gtz
  by_if_lez : Jumps Opcode.if_lez

-- The opcodes whose targets are in a table.
pub data Switches : Opcode → Type 0 where
  by_packed_switch : Switches Opcode.packed_switch
  by_sparse_switch : Switches Opcode.sparse_switch

-- The opcodes that leave the method.
pub data Leaves : Opcode → Type 0 where
  by_throw : Leaves Opcode.throw
  by_return_void : Leaves Opcode.return_void
  by_return : Leaves Opcode.return
  by_return_wide : Leaves Opcode.return_wide
  by_return_object : Leaves Opcode.return_object

-- `x` stands in the list.
abbrev pub Has : {A : Type 0} → A → List A → Type 0
Has x [] = ⊥
Has x (y ∷ ys) = (x ≡ y) ⊎ Has x ys

-- The boundaries that an instruction makes: its target, or the targets of the table that stands at
-- its target, and the address behind it when control may go elsewhere.
pub data InsnBoundary (code : CodeItem) (insn : Instruction) (addr : ℕ) : Type 0 where
  jump_target : Jumps insn.op → insn.target ≡ some addr → InsnBoundary code insn addr
  packed_target :
      (table : ℕ) (key : ℤ) (targets : List ℕ)
      → Switches insn.op
      → insn.target ≡ some table
      → map_get table code.payloads ≡ some (packed_switch key targets)
      → In addr targets
      → InsnBoundary code insn addr
  sparse_target :
      (table : ℕ) (keys : List ℤ) (targets : List ℕ)
      → Switches insn.op
      → insn.target ≡ some table
      → map_get table code.payloads ≡ some (sparse_switch keys targets)
      → In addr targets
      → InsnBoundary code insn addr
  behind :
      Jumps insn.op ⊎ (Switches insn.op ⊎ Leaves insn.op)
      → addr ≡ insn.addr + insn.size
      → InsnBoundary code insn addr

-- The boundaries that an exception handler makes.
pub data HandlerBoundary (handler : CatchHandler) (addr : ℕ) : Type 0 where
  typed :
      (c : TypedCatch)
      → Has c handler.catches
      → addr ≡ c.handler_addr
      → HandlerBoundary handler addr
  catch_all : handler.catch_all_addr ≡ some addr → HandlerBoundary handler addr

-- The addresses where a block has to start.
pub data Boundary (code : CodeItem) (addr : ℕ) : Type 0 where
  entry : addr ≡ 0 → Boundary code addr
  at_insn :
      (insn : Instruction)
      → Has insn code.instructions
      → InsnBoundary code insn addr
      → Boundary code addr
  at_handler :
      (handler : CatchHandler)
      → Has handler code.catch_handlers
      → HandlerBoundary handler addr
      → Boundary code addr

pub Jumps-is_branch : (op : Opcode) → Jumps op → (is_branch op ≡ true) × (is_switch op ≡ false)
unfolding is_branch is_switch
Jumps-is_branch op by_goto = (refl, refl)
Jumps-is_branch op by_goto16 = (refl, refl)
Jumps-is_branch op by_goto32 = (refl, refl)
Jumps-is_branch op by_if_eq = (refl, refl)
Jumps-is_branch op by_if_ne = (refl, refl)
Jumps-is_branch op by_if_lt = (refl, refl)
Jumps-is_branch op by_if_ge = (refl, refl)
Jumps-is_branch op by_if_gt = (refl, refl)
Jumps-is_branch op by_if_le = (refl, refl)
Jumps-is_branch op by_if_eqz = (refl, refl)
Jumps-is_branch op by_if_nez = (refl, refl)
Jumps-is_branch op by_if_ltz = (refl, refl)
Jumps-is_branch op by_if_gez = (refl, refl)
Jumps-is_branch op by_if_gtz = (refl, refl)
Jumps-is_branch op by_if_lez = (refl, refl)

pub Switches-is_switch : (op : Opcode) → Switches op → is_switch op ≡ true
unfolding is_switch
Switches-is_switch op by_packed_switch = refl
Switches-is_switch op by_sparse_switch = refl

-- The opcodes behind which a block ends.
pub ends_block :
    (op : Opcode) → Jumps op ⊎ (Switches op ⊎ Leaves op) → (is_branch op || is_terminal op) ≡ true
unfolding is_branch is_terminal
ends_block op (inl j) = rw (Jumps-is_branch op j).0 refl
ends_block op (inr (inl by_packed_switch)) = refl
ends_block op (inr (inl by_sparse_switch)) = refl
ends_block op (inr (inr by_throw)) = refl
ends_block op (inr (inr by_return_void)) = refl
ends_block op (inr (inr by_return)) = refl
ends_block op (inr (inr by_return_wide)) = refl
ends_block op (inr (inr by_return_object)) = refl

pub is_switch-Switches : (op : Opcode) → is_switch op ≡ true → Switches op
unfolding is_switch
is_switch-Switches Opcode.packed_switch h = by_packed_switch
is_switch-Switches Opcode.sparse_switch h = by_sparse_switch
is_switch-Switches _ h = absurd (cc h)

pub is_branch-Jumps : (op : Opcode) → is_branch op ≡ true → is_switch op ≡ false → Jumps op
unfolding is_branch is_switch
is_branch-Jumps Opcode.goto h s = by_goto
is_branch-Jumps Opcode.goto16 h s = by_goto16
is_branch-Jumps Opcode.goto32 h s = by_goto32
is_branch-Jumps Opcode.if_eq h s = by_if_eq
is_branch-Jumps Opcode.if_ne h s = by_if_ne
is_branch-Jumps Opcode.if_lt h s = by_if_lt
is_branch-Jumps Opcode.if_ge h s = by_if_ge
is_branch-Jumps Opcode.if_gt h s = by_if_gt
is_branch-Jumps Opcode.if_le h s = by_if_le
is_branch-Jumps Opcode.if_eqz h s = by_if_eqz
is_branch-Jumps Opcode.if_nez h s = by_if_nez
is_branch-Jumps Opcode.if_ltz h s = by_if_ltz
is_branch-Jumps Opcode.if_gez h s = by_if_gez
is_branch-Jumps Opcode.if_gtz h s = by_if_gtz
is_branch-Jumps Opcode.if_lez h s = by_if_lez
is_branch-Jumps Opcode.packed_switch h s = absurd (cc s)
is_branch-Jumps Opcode.sparse_switch h s = absurd (cc s)
is_branch-Jumps _ h s = absurd (cc h)

is_terminal-Leaves : (op : Opcode) → is_terminal op ≡ true → Leaves op
unfolding is_terminal
is_terminal-Leaves Opcode.throw h = by_throw
is_terminal-Leaves Opcode.return_void h = by_return_void
is_terminal-Leaves Opcode.return h = by_return
is_terminal-Leaves Opcode.return_wide h = by_return_wide
is_terminal-Leaves Opcode.return_object h = by_return_object
is_terminal-Leaves _ h = absurd (cc h)

pub ends_block-cases :
    (op : Opcode) → (is_branch op || is_terminal op) ≡ true → Jumps op ⊎ (Switches op ⊎ Leaves op)
ends_block-cases op h = elim (Bool-cases (is_branch op)) [
  | inl branches ↦ elim (Bool-cases (is_switch op)) [
    | inl switches ↦ inr (inl (is_switch-Switches op switches))
    | inr not_switch ↦ inl (is_branch-Jumps op branches not_switch)
  ]
  | inr not_branch ↦ inr (inr (is_terminal-Leaves op (rw not_branch at h)))
]
