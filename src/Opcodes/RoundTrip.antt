-- ===== src/Opcodes/RoundTrip.antt =====
-- src/opcodes.rs: `from_u8` against `to_u8`, and the mnemonics.
use text.Mathlib.Text.{◌==◌ as str_eq}
use droidsaw_dex.Prelude.{
  ℕ, ◌<◌, ◌≡◌, refl, sym, ap, ◌∙◌, ◌↔◌, Option, none, some, List, [], ◌∷◌, arith, All, ◌==◌, ==_iff,
  Bool-cases, some-eq, inl, inr, if◌then◌else◌,
}
use Prim.Native.String.{String}
use droidsaw_dex.Opcodes.{Opcode}
use droidsaw_dex.Opcodes.Bytes.{to_u8, from_u8, find_arm, opcode_arms}
use droidsaw_dex.Opcodes.Mnemonic.{mnemonic}

from_u8-to_u8 : (op : Opcode) → from_u8 (to_u8 op) ≡ some op
unfolding from_u8 to_u8
from_u8-to_u8 Opcode.nop = refl
from_u8-to_u8 _ = refl

abbrev Agrees : ℕ × Opcode → Type 0
Agrees arm = to_u8 arm.1 ≡ arm.0

opcode_arms-Agrees : All Agrees opcode_arms
unfolding to_u8
opcode_arms-Agrees = omega arith

find_arm-Agrees :
    (byte : ℕ) (op : Opcode) (arms : List (ℕ × Opcode))
    → All Agrees arms
    → find_arm byte arms ≡ some op
    → to_u8 op ≡ byte
unfolding find_arm
find_arm-Agrees byte op [] h e = cc
find_arm-Agrees byte op ((b, o) ∷ arms) (h, hs) e = elim (Bool-cases (byte == b)) [
  | inl same ↦
      let found : some o ≡ some op = rw same at e in
      ap to_u8 (sym (some-eq o op found)) ∙ h ∙ sym ((==_iff byte b).0 same)
  | inr other ↦ find_arm-Agrees byte op arms hs (rw other at e)
]

by_mnemonic : String → List (ℕ × Opcode) → Option Opcode
by_mnemonic name [] = none
by_mnemonic name ((b, op) ∷ arms) =
    if str_eq name (mnemonic op) then some op else by_mnemonic name arms

by_mnemonic-mnemonic : (op : Opcode) → by_mnemonic (mnemonic op) opcode_arms ≡ some op
unfolding by_mnemonic mnemonic
by_mnemonic-mnemonic Opcode.nop = refl
by_mnemonic-mnemonic _ = refl

-- No two opcodes print under the same mnemonic.
pub mnemonic-injective : (op op' : Opcode) → mnemonic op ≡ mnemonic op' → op ≡ op'
mnemonic-injective op op' e = some-eq op op' (
    sym (by_mnemonic-mnemonic op)
    ∙ ap (λ name. by_mnemonic name opcode_arms) e
    ∙ by_mnemonic-mnemonic op')

-- The two directions of the opcode codec agree on every byte and every opcode: `from_u8` answers
-- an opcode exactly for the byte that `to_u8` gives it.
pub from_u8-iff-to_u8 : (byte : ℕ) (op : Opcode) → (from_u8 byte ≡ some op) ↔ (to_u8 op ≡ byte)
unfolding from_u8
from_u8-iff-to_u8 byte op =
    (find_arm-Agrees byte op opcode_arms opcode_arms-Agrees, λ e. rw (← e) (from_u8-to_u8 op))

pub to_u8-lt : (op : Opcode) → to_u8 op < 0x100
unfolding to_u8
to_u8-lt Opcode.nop = omega arith
to_u8-lt _ = omega arith
