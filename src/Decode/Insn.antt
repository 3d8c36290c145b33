-- ===== src/Decode/Insn.antt =====
-- src/decode.rs: `RegList`, `PoolIndex`, `Instruction` and the pool classification by opcode.
use Prim.Native.Nat.{min}
use droidsaw_dex.Prelude.{ℕ, zero, suc, Bool, Option, List, [], ◌∷◌, length, get_or, take, ◌==◌}
use droidsaw_dex.Prelude.Int.{ℤ}
use droidsaw_dex.Opcodes.{Opcode}

-- `regs: [u16; 5]` is a list of five.
pub record RegList : Type 0 where
  pub regs : List ℕ
  pub len : ℕ

unfoldable pub no_regs : RegList
no_regs = record { regs = 0 ∷ 0 ∷ 0 ∷ 0 ∷ 0 ∷ []; len = 0 }

unfoldable pub one : ℕ → RegList
one r = record { regs = r ∷ 0 ∷ 0 ∷ 0 ∷ 0 ∷ []; len = 1 }

unfoldable pub two : ℕ → ℕ → RegList
two a b = record { regs = a ∷ b ∷ 0 ∷ 0 ∷ 0 ∷ []; len = 2 }

-- `copy_from_slice` of the first `count` registers over zeros, for `count` at most 5.
unfoldable pub copy_regs : ℕ → List ℕ → ℕ → List ℕ
copy_regs zero xs zero = []
copy_regs zero xs (suc k) = 0 ∷ copy_regs zero xs k
copy_regs (suc n) xs zero = []
copy_regs (suc n) [] (suc k) = 0 ∷ copy_regs (suc n) [] k
copy_regs (suc n) (x ∷ xs) (suc k) = x ∷ copy_regs n xs k

unfoldable pub from_slice : List ℕ → RegList
unfolding copy_regs
from_slice s = let count = min (length s) 5 in record { regs = copy_regs count s 5; len = count }

unfoldable pub as_slice : RegList → List ℕ
as_slice r = take r.len r.regs

-- `regs[idx]` whatever `len` is, and 0 past the array.
unfoldable pub raw_at : RegList → ℕ → ℕ
raw_at r idx = get_or r.regs idx 0

unfoldable pub is_empty : RegList → Bool
is_empty r = r.len == 0

-- A reference into one of the pools of the file.
pub data PoolIndex : Type 0 where
  string type field method : ℕ → PoolIndex
  method_and_proto : ℕ → ℕ → PoolIndex
  call_site : ℕ → PoolIndex

pub record Instruction : Type 0 where
  pub addr : ℕ
  pub op : Opcode
  pub size : ℕ
  pub dst : Option ℕ
  pub src : RegList
  pub literal : ℤ
  pub target : Option ℕ
  pub pool_idx : Option PoolIndex

unfoldable pub classify_pool_21c : Opcode → ℕ → PoolIndex
classify_pool_21c Opcode.const_string idx = string idx
classify_pool_21c Opcode.const_class idx = type idx
classify_pool_21c Opcode.check_cast idx = type idx
classify_pool_21c Opcode.new_instance idx = type idx
classify_pool_21c Opcode.sget idx = field idx
classify_pool_21c Opcode.sget_wide idx = field idx
classify_pool_21c Opcode.sget_object idx = field idx
classify_pool_21c Opcode.sget_boolean idx = field idx
classify_pool_21c Opcode.sget_byte idx = field idx
classify_pool_21c Opcode.sget_char idx = field idx
classify_pool_21c Opcode.sget_short idx = field idx
classify_pool_21c Opcode.sput idx = field idx
classify_pool_21c Opcode.sput_wide idx = field idx
classify_pool_21c Opcode.sput_object idx = field idx
classify_pool_21c Opcode.sput_boolean idx = field idx
classify_pool_21c Opcode.sput_byte idx = field idx
classify_pool_21c Opcode.sput_char idx = field idx
classify_pool_21c Opcode.sput_short idx = field idx
classify_pool_21c Opcode.const_method_handle idx = method idx
classify_pool_21c Opcode.const_method_type idx = method idx
classify_pool_21c _ idx = type idx

unfoldable pub classify_pool_22c : Opcode → ℕ → PoolIndex
classify_pool_22c Opcode.instance_of idx = type idx
classify_pool_22c Opcode.new_array idx = type idx
classify_pool_22c _ idx = field idx

unfoldable pub classify_pool_35c : Opcode → ℕ → PoolIndex
classify_pool_35c Opcode.filled_new_array idx = type idx
classify_pool_35c Opcode.invoke_polymorphic idx = method idx
classify_pool_35c Opcode.invoke_custom idx = call_site idx
classify_pool_35c _ idx = method idx

unfoldable pub classify_pool_3rc : Opcode → ℕ → PoolIndex
classify_pool_3rc Opcode.filled_new_array_range idx = type idx
classify_pool_3rc Opcode.invoke_custom_range idx = call_site idx
classify_pool_3rc _ idx = method idx
