-- ===== src/Optimize/Fold.antt =====
-- src/optimize.rs: `try_fold`, the value of an instruction whose operands are known.
-- Negation and the arithmetic of `i32` wrap, as in a release build.
use Prim.Native.Nat.{bit_and, bit_or, bit_xor}
use droidsaw_dex.Prelude.{
  ℕ, suc, ◌+◌, ◌*◌, ◌/◌, ◌%◌, ◌^◌, Option, none, some, List, get_elem?, if◌then◌else◌,
}
use droidsaw_dex.Prelude.Int.{ℤ, pos, negsuc, sub_ℕ, pos_part, neg_part, ◌+ℤ◌, ◌-ℤ◌, ◌*ℤ◌, eqb_ℤ}
use droidsaw_dex.Prelude.Words.{as_signed, low_bits, wrap_signed}
use droidsaw_dex.Opcodes.{Opcode}

-- `Option<i64>`, and the panic of a division by zero.
pub data Folded : Type 0 where
  unknown panics : Folded
  value : ℤ → Folded

-- `x as i32`
unfoldable pub to_i32 : ℤ → ℤ
to_i32 z = wrap_signed 32 z

unfoldable pub abs_ℤ : ℤ → ℕ
abs_ℤ z = pos_part z + neg_part z

-- The quotient of two integers, rounded towards zero.
unfoldable pub quotient : ℤ → ℤ → ℤ
unfolding abs_ℤ
quotient (pos n) (pos m) = pos (n / m)
quotient (pos n) (negsuc m) = sub_ℕ 0 (n / suc m)
quotient (negsuc n) (pos m) = sub_ℕ 0 (suc n / m)
quotient (negsuc n) (negsuc m) = pos (suc n / suc m)

-- The remainder, with the sign of the dividend.
unfoldable pub remainder : ℤ → ℤ → ℤ
unfolding abs_ℤ
remainder (pos n) b = pos (n % abs_ℤ b)
remainder (negsuc n) b = sub_ℕ 0 (suc n % abs_ℤ b)

-- `wrapping_div` and `wrapping_rem` of the operands as i32, behind the test of the divisor as i64.
unfoldable pub fold_division : (ℤ → ℤ → ℤ) → ℤ → ℤ → Folded
unfolding to_i32
fold_division f a b =
    if eqb_ℤ b (pos 0)
    then unknown
    else if eqb_ℤ (to_i32 b) (pos 0)
    then panics
    else value (to_i32 (f (to_i32 a) (to_i32 b)))

-- A bitwise operation on two i32.
unfoldable pub bits_i32 : (ℕ → ℕ → ℕ) → ℤ → ℤ → ℤ
bits_i32 f a b = as_signed 32 (f (low_bits 32 a) (low_bits 32 b) % 2 ^ 32)

-- `b as i32 & 0x1F`
unfoldable pub shift_count : ℤ → ℕ
shift_count b = low_bits 5 b

unfoldable pub shift_left : ℤ → ℤ → ℤ
unfolding shift_count
shift_left a b = as_signed 32 (low_bits 32 a * 2 ^ shift_count b % 2 ^ 32)

-- The arithmetic shift rounds down.
unfoldable pub shift_down : ℤ → ℕ → ℤ
shift_down (pos n) k = pos (n / 2 ^ k)
shift_down (negsuc n) k = negsuc (n / 2 ^ k)

unfoldable pub shift_right : ℤ → ℤ → ℤ
unfolding to_i32 shift_down shift_count
shift_right a b = shift_down (to_i32 a) (shift_count b)

-- `i64::from((a as u32) >> (b as i32 & 0x1F))`
unfoldable pub shift_right_unsigned : ℤ → ℤ → ℤ
unfolding shift_count
shift_right_unsigned a b = pos (low_bits 32 a / 2 ^ shift_count b)

unfoldable pub not_ℤ : ℤ → ℤ
not_ℤ (pos n) = negsuc n
not_ℤ (negsuc n) = pos n

-- The operations on two operands, whether the second is a register or the literal.
pub data Binary : Type 0 where
  add sub mul div rem and or xor shl shr ushr rsub add_long sub_long mul_long : Binary

unfoldable pub fold_binary : Binary → ℤ → ℤ → Folded
unfolding to_i32 fold_division quotient remainder bits_i32 shift_left shift_right
    shift_right_unsigned
fold_binary add a b = value (to_i32 (to_i32 a +ℤ to_i32 b))
fold_binary sub a b = value (to_i32 (to_i32 a -ℤ to_i32 b))
fold_binary mul a b = value (to_i32 (to_i32 a *ℤ to_i32 b))
fold_binary div a b = fold_division quotient a b
fold_binary rem a b = fold_division remainder a b
fold_binary and a b = value (bits_i32 bit_and a b)
fold_binary or a b = value (bits_i32 bit_or a b)
fold_binary xor a b = value (bits_i32 bit_xor a b)
fold_binary shl a b = value (shift_left a b)
fold_binary shr a b = value (shift_right a b)
fold_binary ushr a b = value (shift_right_unsigned a b)
fold_binary rsub a b = value (to_i32 (to_i32 b -ℤ to_i32 a))
fold_binary add_long a b = value (wrap_signed 64 (a +ℤ b))
fold_binary sub_long a b = value (wrap_signed 64 (a -ℤ b))
fold_binary mul_long a b = value (wrap_signed 64 (a *ℤ b))

pub data Unary : Type 0 where
  neg_int not_int neg_long not_long int_to_byte int_to_char int_to_short int_to_long long_to_int :
      Unary

unfoldable pub fold_unary : Unary → ℤ → ℤ
unfolding to_i32 not_ℤ
fold_unary neg_int a = to_i32 (pos 0 -ℤ to_i32 a)
fold_unary not_int a = not_ℤ (to_i32 a)
fold_unary neg_long a = wrap_signed 64 (pos 0 -ℤ a)
fold_unary not_long a = not_ℤ a
fold_unary int_to_byte a = wrap_signed 8 a
fold_unary int_to_char a = pos (low_bits 16 a)
fold_unary int_to_short a = wrap_signed 16 a
fold_unary int_to_long a = to_i32 a
fold_unary long_to_int a = to_i32 a

-- What an opcode computes: from two registers, from a register and the literal, or from one register.
pub data Arm : Type 0 where
  registers literal_of : Binary → Arm
  one_register : Unary → Arm
  no_arm : Arm

unfoldable pub arm_of : Opcode → Arm
arm_of Opcode.add_int = registers add
arm_of Opcode.add_int_2addr = registers add
arm_of Opcode.sub_int = registers sub
arm_of Opcode.sub_int_2addr = registers sub
arm_of Opcode.mul_int = registers mul
arm_of Opcode.mul_int_2addr = registers mul
arm_of Opcode.div_int = registers div
arm_of Opcode.div_int_2addr = registers div
arm_of Opcode.rem_int = registers rem
arm_of Opcode.rem_int_2addr = registers rem
arm_of Opcode.and_int = registers and
arm_of Opcode.and_int_2addr = registers and
arm_of Opcode.or_int = registers or
arm_of Opcode.or_int_2addr = registers or
arm_of Opcode.xor_int = registers xor
arm_of Opcode.xor_int_2addr = registers xor
arm_of Opcode.shl_int = registers shl
arm_of Opcode.shl_int_2addr = registers shl
arm_of Opcode.shr_int = registers shr
arm_of Opcode.shr_int_2addr = registers shr
arm_of Opcode.ushr_int = registers ushr
arm_of Opcode.ushr_int_2addr = registers ushr
arm_of Opcode.add_int_lit16 = literal_of add
arm_of Opcode.add_int_lit8 = literal_of add
arm_of Opcode.mul_int_lit16 = literal_of mul
arm_of Opcode.mul_int_lit8 = literal_of mul
arm_of Opcode.div_int_lit16 = literal_of div
arm_of Opcode.div_int_lit8 = literal_of div
arm_of Opcode.rem_int_lit16 = literal_of rem
arm_of Opcode.rem_int_lit8 = literal_of rem
arm_of Opcode.and_int_lit16 = literal_of and
arm_of Opcode.and_int_lit8 = literal_of and
arm_of Opcode.or_int_lit16 = literal_of or
arm_of Opcode.or_int_lit8 = literal_of or
arm_of Opcode.xor_int_lit16 = literal_of xor
arm_of Opcode.xor_int_lit8 = literal_of xor
arm_of Opcode.rsub_int = literal_of rsub
arm_of Opcode.rsub_int_lit8 = literal_of rsub
arm_of Opcode.shl_int_lit8 = literal_of shl
arm_of Opcode.shr_int_lit8 = literal_of shr
arm_of Opcode.ushr_int_lit8 = literal_of ushr
arm_of Opcode.add_long = registers add_long
arm_of Opcode.add_long_2addr = registers add_long
arm_of Opcode.sub_long = registers sub_long
arm_of Opcode.sub_long_2addr = registers sub_long
arm_of Opcode.mul_long = registers mul_long
arm_of Opcode.mul_long_2addr = registers mul_long
arm_of Opcode.neg_int = one_register neg_int
arm_of Opcode.not_int = one_register not_int
arm_of Opcode.neg_long = one_register neg_long
arm_of Opcode.not_long = one_register not_long
arm_of Opcode.int_to_byte = one_register int_to_byte
arm_of Opcode.int_to_char = one_register int_to_char
arm_of Opcode.int_to_short = one_register int_to_short
arm_of Opcode.int_to_long = one_register int_to_long
arm_of Opcode.long_to_int = one_register long_to_int
arm_of _ = no_arm

-- `consts.get(uses.get(i)?)`
unfoldable pub operand : {V : Type 0} → (V → Option ℤ) → List V → ℕ → Option ℤ
operand consts uses i = elim (get_elem? uses i) [ none ↦ none | some v ↦ consts v ]

unfoldable pub fold_two : Binary → Option ℤ → Option ℤ → Folded
fold_two f none b = unknown
fold_two f (some a) none = unknown
fold_two f (some a) (some b) = fold_binary f a b

unfoldable pub fold_one : Unary → Option ℤ → Folded
fold_one f none = unknown
fold_one f (some a) = value (fold_unary f a)

unfoldable pub fold_arm : {V : Type 0} → Arm → List V → ℤ → (V → Option ℤ) → Folded
unfolding operand fold_two fold_one
fold_arm (registers f) uses literal consts =
    fold_two f (operand consts uses 0) (operand consts uses 1)
fold_arm (literal_of f) uses literal consts = fold_two f (operand consts uses 0) (some literal)
fold_arm (one_register f) uses literal consts = fold_one f (operand consts uses 0)
fold_arm no_arm uses literal consts = unknown

unfoldable pub try_fold : {V : Type 0} → Opcode → List V → ℤ → (V → Option ℤ) → Folded
unfolding fold_arm
try_fold op uses literal consts = fold_arm (arm_of op) uses literal consts
