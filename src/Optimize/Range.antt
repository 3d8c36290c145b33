-- ===== src/Optimize/Range.antt =====
-- The values that `try_fold` gives, and the range of their type.
use native.Mathlib.Nat.{div-le_self}
use droidsaw_dex.Prelude.{
  ℕ, ◌^◌, ◌<◌, ◌≡◌, refl, subst, arith, Bool, true, false, ◌||◌, Bool-cases, inl, inr, Option, none,
  some, List,
}
use droidsaw_dex.Prelude.Int.{ℤ, pos, negsuc, ◌≤ℤ◌, eqb_ℤ}
use droidsaw_dex.Prelude.Words.{as_signed, low_bits, i32_min, i32_max}
use droidsaw_dex.Opcodes.{Opcode}
use droidsaw_dex.Optimize.Classes.{is_wide_op}
use droidsaw_dex.Optimize.Fold.{
  Folded, unknown, panics, value, to_i32, quotient, remainder, fold_division, bits_i32, shift_count,
  shift_left, shift_down, shift_right, not_ℤ, Binary, fold_binary, Unary, fold_unary, Arm, arm_of,
  fold_two, fold_one, fold_arm, try_fold,
}

-- A value of the type i32.
abbrev pub IsI32 : ℤ → Type 0
IsI32 v = (i32_min ≤ℤ v) × (v ≤ℤ i32_max)

low_bits-lt : (z : ℤ) → low_bits 32 z < 2 ^ 32
low_bits-lt (pos n) = omega arith
low_bits-lt (negsuc n) = omega arith

as_signed-IsI32 : (n : ℕ) → n < 2 ^ 32 → IsI32 (as_signed 32 n)
as_signed-IsI32 n h = ground arith

to_i32-IsI32 : (z : ℤ) → IsI32 (to_i32 z)
unfolding to_i32
to_i32-IsI32 z = as_signed-IsI32 (low_bits 32 z) (low_bits-lt z)

-- `P` of the value, if there is one.
abbrev pub IfValue : (ℤ → Type 0) → Folded → Type 0
IfValue P unknown = Unit
IfValue P panics = Unit
IfValue P (value v) = P v

fold_division-IsI32 : (f : ℤ → ℤ → ℤ) (a b : ℤ) → IfValue IsI32 (fold_division f a b)
unfolding fold_division
fold_division-IsI32 f a b = elim (Bool-cases (eqb_ℤ b (pos 0))) [
  | inl zero_divisor ↦ rw zero_divisor tt
  | inr other ↦ rw other (elim (Bool-cases (eqb_ℤ (to_i32 b) (pos 0))) [
    | inl low_zero ↦ rw low_zero tt
    | inr fine ↦ rw fine (to_i32-IsI32 (f (to_i32 a) (to_i32 b)))
  ])
]

shift_down-IsI32 : (z : ℤ) (k : ℕ) → IsI32 z → IsI32 (shift_down z k)
unfolding shift_down
shift_down-IsI32 (pos n) k h = omega (arith, h.1, div-le_self n (2 ^ k))
shift_down-IsI32 (negsuc n) k h = omega (arith, h.0, div-le_self n (2 ^ k))

-- The operations on ints, but for the unsigned shift.
unfoldable pub is_narrow : Binary → Bool
is_narrow Binary.ushr = false
is_narrow Binary.add_long = false
is_narrow Binary.sub_long = false
is_narrow Binary.mul_long = false
is_narrow _ = true

fold_binary-IsI32 : (f : Binary) (a b : ℤ) → is_narrow f ≡ true → IfValue IsI32 (fold_binary f a b)
unfolding fold_binary is_narrow bits_i32 shift_left shift_right
fold_binary-IsI32 Binary.add a b h = to_i32-IsI32 _
fold_binary-IsI32 Binary.sub a b h = to_i32-IsI32 _
fold_binary-IsI32 Binary.mul a b h = to_i32-IsI32 _
fold_binary-IsI32 Binary.rsub a b h = to_i32-IsI32 _
fold_binary-IsI32 Binary.div a b h = fold_division-IsI32 quotient a b
fold_binary-IsI32 Binary.rem a b h = fold_division-IsI32 remainder a b
fold_binary-IsI32 Binary.and a b h = as_signed-IsI32 _ (omega arith)
fold_binary-IsI32 Binary.or a b h = as_signed-IsI32 _ (omega arith)
fold_binary-IsI32 Binary.xor a b h = as_signed-IsI32 _ (omega arith)
fold_binary-IsI32 Binary.shl a b h = as_signed-IsI32 _ (omega arith)
fold_binary-IsI32 Binary.shr a b h = shift_down-IsI32 (to_i32 a) (shift_count b) (to_i32-IsI32 a)
fold_binary-IsI32 Binary.ushr a b h = cc
fold_binary-IsI32 Binary.add_long a b h = cc
fold_binary-IsI32 Binary.sub_long a b h = cc
fold_binary-IsI32 Binary.mul_long a b h = cc

unfoldable pub is_narrow_unary : Unary → Bool
is_narrow_unary Unary.neg_long = false
is_narrow_unary Unary.not_long = false
is_narrow_unary _ = true

not_ℤ-IsI32 : (z : ℤ) → IsI32 z → IsI32 (not_ℤ z)
unfolding not_ℤ
not_ℤ-IsI32 (pos n) h = (omega arith, omega arith)
not_ℤ-IsI32 (negsuc n) h = (omega arith, omega arith)

fold_unary-IsI32 : (f : Unary) (a : ℤ) → is_narrow_unary f ≡ true → IsI32 (fold_unary f a)
unfolding fold_unary is_narrow_unary
fold_unary-IsI32 Unary.neg_int a h = to_i32-IsI32 _
fold_unary-IsI32 Unary.not_int a h = not_ℤ-IsI32 _ (to_i32-IsI32 a)
fold_unary-IsI32 Unary.neg_long a h = cc
fold_unary-IsI32 Unary.not_long a h = cc
fold_unary-IsI32 Unary.int_to_byte a h =
    let lt : low_bits 8 a < 2 ^ 8 = ground arith in ground (arith, lt)
fold_unary-IsI32 Unary.int_to_char a h =
    let lt : low_bits 16 a < 2 ^ 16 = ground arith in (omega arith, omega arith)
fold_unary-IsI32 Unary.int_to_short a h =
    let lt : low_bits 16 a < 2 ^ 16 = ground arith in ground (arith, lt)
fold_unary-IsI32 Unary.int_to_long a h = to_i32-IsI32 a
fold_unary-IsI32 Unary.long_to_int a h = to_i32-IsI32 a

unfoldable pub is_narrow_arm : Arm → Bool
is_narrow_arm (Arm.registers f) = is_narrow f
is_narrow_arm (Arm.literal_of f) = is_narrow f
is_narrow_arm (Arm.one_register f) = is_narrow_unary f
is_narrow_arm Arm.no_arm = true

-- The unsigned shifts of ints.
unfoldable pub is_ushr_int : Opcode → Bool
is_ushr_int Opcode.ushr_int = true
is_ushr_int Opcode.ushr_int_2addr = true
is_ushr_int Opcode.ushr_int_lit8 = true
is_ushr_int _ = false

-- An opcode whose result is not wide has an arm on ints.
arm_of-narrow :
    (op : Opcode) → (is_wide_op op || (is_ushr_int op || is_narrow_arm (arm_of op))) ≡ true
unfolding is_wide_op is_ushr_int is_narrow_arm arm_of is_narrow is_narrow_unary
arm_of-narrow Opcode.nop = refl
arm_of-narrow _ = refl

fold_two-IsI32 : (f : Binary) (a b : Option ℤ) → is_narrow f ≡ true → IfValue IsI32 (fold_two f a b)
unfolding fold_two
fold_two-IsI32 f none b h = tt
fold_two-IsI32 f (some a) none h = tt
fold_two-IsI32 f (some a) (some b) h = fold_binary-IsI32 f a b h

fold_one-IsI32 :
    (f : Unary) (a : Option ℤ) → is_narrow_unary f ≡ true → IfValue IsI32 (fold_one f a)
unfolding fold_one
fold_one-IsI32 f none h = tt
fold_one-IsI32 f (some a) h = fold_unary-IsI32 f a h

fold_arm-IsI32 :
    {V : Type 0} (arm : Arm) (uses : List V) (literal : ℤ) (consts : V → Option ℤ)
    → is_narrow_arm arm ≡ true
    → IfValue IsI32 (fold_arm arm uses literal consts)
unfolding fold_arm is_narrow_arm
fold_arm-IsI32 (Arm.registers f) uses literal consts h = fold_two-IsI32 f _ _ h
fold_arm-IsI32 (Arm.literal_of f) uses literal consts h = fold_two-IsI32 f _ _ h
fold_arm-IsI32 (Arm.one_register f) uses literal consts h = fold_one-IsI32 f _ h
fold_arm-IsI32 Arm.no_arm uses literal consts h = tt

-- The value that folding gives for an opcode whose result is not wide is an i32, but for the unsigned
-- shifts: whatever the constants are, those that are no i32 included.
pub try_fold-IsI32 :
    {V : Type 0} (op : Opcode) (uses : List V) (literal : ℤ) (consts : V → Option ℤ) (v : ℤ)
    → is_wide_op op ≡ false
    → is_ushr_int op ≡ false
    → try_fold op uses literal consts ≡ value v
    → IsI32 v
unfolding try_fold
try_fold-IsI32 op uses literal consts v narrow signed e =
    let arm : is_narrow_arm (arm_of op) ≡ true = rw (narrow, signed) at (arm_of-narrow op) in
    subst (IfValue IsI32) e (fold_arm-IsI32 (arm_of op) uses literal consts arm)
