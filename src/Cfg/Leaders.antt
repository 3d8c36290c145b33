-- ===== src/Cfg/Leaders.antt =====
-- The leaders of a code item: an ascending set that starts at 0 and holds every block boundary.
mod Inserted
use droidsaw_dex.Cfg.Leaders.Inserted.{In-insn_leaders, In-handler_leaders}
use droidsaw_dex.Prelude.{
  ℕ, ◌≡◌, refl, sym, ap, ◌∙◌, subst, ◌⊎◌, inl, inr, ◌↔◌, Bool, true, false, ◌||◌, Bool-cases,
  Option, none, some, some-eq, Option-cases, List, [], ◌∷◌, if◌then◌else◌,
}
use droidsaw_dex.Prelude.Sets.{
  set_insert, In, IsAscending, IsAscending-set_insert, In-set_insert, In-set_insert_self,
  In-of-set_insert, map_get,
}
use droidsaw_dex.Opcodes.{Opcode}
use droidsaw_dex.Decode.Insn.{Instruction}
use droidsaw_dex.Decode.Item.{
  TypedCatch, packed_switch, sparse_switch, fill_array_data, CatchHandler, CodeItem,
}
use droidsaw_dex.Cfg.Blocks.{
  payload_targets, is_branch, is_terminal, is_switch, next_addr, insert_all, target_leaders,
  add_leaders, insn_leaders, catch_addrs, add_handler, handler_leaders, find_leaders,
}
use droidsaw_dex.Cfg.Boundary.{
  Jumps, Switches, Leaves, Has, InsnBoundary, jump_target, packed_target, sparse_target, behind,
  HandlerBoundary, typed, catch_all, Boundary, entry, at_insn, at_handler, Jumps-is_branch,
  Switches-is_switch, ends_block, is_switch-Switches, is_branch-Jumps, ends_block-cases,
}

if_both {ℓ κ} :
    {A : Type ℓ} (P : A → Type κ) (b : Bool) (x y : A) → P x → P y → P (if b then x else y)
if_both P true x y hx hy = hx
if_both P false x y hx hy = hy

-- The leaders only grow by insertions, so that what an insertion keeps holds of them throughout.
module _ (P : List ℕ → Type 0) (keep : (x : ℕ) (ls : List ℕ) → P ls → P (set_insert x ls)) where
  keep-insert_all : (ts ls : List ℕ) → P ls → P (insert_all ts ls)
  unfolding insert_all
  keep-insert_all [] ls a = a
  keep-insert_all (t ∷ ts) ls a = keep-insert_all ts (set_insert t ls) (keep t ls a)

  keep-add_leaders :
      (code : CodeItem) (insn : Instruction) (ls : List ℕ) → P ls → P (add_leaders code insn ls)
  unfolding add_leaders
  keep-add_leaders code insn ls a =
      keep-insert_all (target_leaders code insn.op insn.target) _
        (if_both P (is_branch insn.op || is_terminal insn.op) _ ls (keep (next_addr insn) ls a) a)

  keep-insn_leaders :
      (code : CodeItem) (insns : List Instruction) (ls : List ℕ)
      → P ls
      → P (insn_leaders code insns ls)
  unfolding insn_leaders
  keep-insn_leaders code [] ls a = a
  keep-insn_leaders code (i ∷ is) ls a =
      keep-insn_leaders code is (add_leaders code i ls) (keep-add_leaders code i ls a)

  keep-catch_all :
      (addr : Option ℕ) (ls : List ℕ)
      → P ls
      → P (elim addr [ none ↦ ls | some a ↦ set_insert a ls ])
  keep-catch_all none ls a = a
  keep-catch_all (some addr) ls a = keep addr ls a

  keep-handler_leaders : (hs : List CatchHandler) (ls : List ℕ) → P ls → P (handler_leaders hs ls)
  unfolding handler_leaders add_handler
  keep-handler_leaders [] ls a = a
  keep-handler_leaders (h ∷ hs) ls a =
      keep-handler_leaders hs _
        (keep-catch_all h.catch_all_addr _ (keep-insert_all (catch_addrs h.catches) ls a))

-- The leaders ascend strictly.
pub find_leaders-IsAscending : (code : CodeItem) → IsAscending (find_leaders code)
unfolding find_leaders set_insert
find_leaders-IsAscending code =
    keep-handler_leaders IsAscending IsAscending-set_insert _ _
      (keep-insn_leaders IsAscending IsAscending-set_insert code _ _ tt)

-- The first block starts at 0.
pub find_leaders-zero : (code : CodeItem) → In 0 (find_leaders code)
unfolding find_leaders set_insert
find_leaders-zero code =
    keep-handler_leaders (In 0) (In-set_insert 0) _ _
      (keep-insn_leaders (In 0) (In-set_insert 0) code _ _ (inl refl))

-- The leaders of a code item are exactly its block boundaries: the entry, the target of each goto and
-- if, the targets in the table of each switch, the address behind each of these and behind each
-- return and throw, and the address of each handler, catch-all handlers included.
pub find_leaders-Boundary :
    (code : CodeItem) (addr : ℕ) → In addr (find_leaders code) ↔ Boundary code addr
unfolding find_leaders set_insert
find_leaders-Boundary code addr =
    let by_insns = In-insn_leaders code code.instructions addr (0 ∷ []) in
    let by_handlers =
      In-handler_leaders code.catch_handlers addr (insn_leaders code code.instructions (0 ∷ [])) in
    (
      (λ h. elim (by_handlers.0 h) [
        | inl (handler, has, b) ↦ at_handler handler has b
        | inr there ↦ elim (by_insns.0 there) [
          | inl (insn, has, b) ↦ at_insn insn has b
          | inr (inl e) ↦ entry e
          | inr (inr none_there) ↦ absurd none_there
        ]
      ]),
      (λ h. elim h [
        | at_handler handler has b ↦ by_handlers.1 (inl (handler, has, b))
        | at_insn insn has b ↦ by_handlers.1 (inr (by_insns.1 (inl (insn, has, b))))
        | entry e ↦ by_handlers.1 (inr (by_insns.1 (inr (inl e))))
      ]),
    )
