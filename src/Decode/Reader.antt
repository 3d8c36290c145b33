-- ===== src/Decode/Reader.antt =====
-- src/decode.rs and src/error.rs: reads with bounds, checked arithmetic and branch targets.
-- The texts that the source formats into its errors are left out of the error values.
pub mod Bounds
use droidsaw_dex.Prelude.{ℕ, ◌+◌, ◌*◌, ◌^◌, List, ◌∷◌, drop, ltb, if◌then◌else◌}
use droidsaw_dex.Prelude.Int.{ℤ, pos, negsuc, ◌+ℤ◌}
use droidsaw_dex.Prelude.Errors.{Result, ok, err, ◌>>=◌}
use droidsaw_dex.Prelude.Words.{u32_mod, usize_mod}

-- The variants of `DexError` that the modelled code raises, by their numbers.
pub data DexError : Type 0 where
  scroll_read : ℕ → DexError
  bad_magic : List ℕ → DexError
  unsupported_version : List ℕ → DexError
  invalid_header_size : ℕ → DexError
  bad_endian_tag : ℕ → DexError
  checksum_mismatch : ℕ → ℕ → DexError
  invalid_uleb128 : ℕ → DexError
  invalid_debug_register : ℕ → ℕ → DexError
  offset_out_of_bounds : ℕ → ℕ → DexError
  encoded_value_size : ℕ → DexError
  unknown_opcode : ℕ → ℕ → DexError
  work_stack_exhausted : DexError
  invalid_instruction : ℕ → DexError
  arithmetic_overflow : DexError
  truncated : ℕ → ℕ → ℕ → DexError
  bound_count_exceeded : DexError
  invalid_access_flags : ℕ → ℕ → DexError
  annotation_directory_allocation_cap : ℕ → ℕ → DexError

abbrev pub Res {ℓ} : Type ℓ → Type ℓ
Res A = Result DexError A

unfoldable pub safe_add : ℕ → ℕ → Res ℕ
safe_add a b = if ltb (a + b) usize_mod then ok (a + b) else err arithmetic_overflow

unfoldable pub safe_mul : ℕ → ℕ → Res ℕ
safe_mul a b = if ltb (a * b) usize_mod then ok (a * b) else err arithmetic_overflow

unfoldable pub safe_add_u32 : ℕ → ℕ → Res ℕ
safe_add_u32 a b = if ltb (a + b) u32_mod then ok (a + b) else err arithmetic_overflow

unfoldable pub safe_mul_u32 : ℕ → ℕ → Res ℕ
safe_mul_u32 a b = if ltb (a * b) u32_mod then ok (a * b) else err arithmetic_overflow

unfoldable pub le_u16 : List ℕ → ℕ → Res ℕ
le_u16 (lo ∷ hi ∷ rest) off = ok (lo + hi * 2 ^ 8)
le_u16 _ off = err (scroll_read off)

-- `data.pread_with::<u16>(off, LE)`
unfoldable pub pread_u16 : List ℕ → ℕ → Res ℕ
unfolding le_u16
pread_u16 bytes off = le_u16 (drop off bytes) off

unfoldable pub le_u32 : List ℕ → ℕ → Res ℕ
le_u32 (a ∷ b ∷ c ∷ d ∷ rest) off = ok (a + b * 2 ^ 8 + c * 2 ^ 16 + d * 2 ^ 24)
le_u32 _ off = err (scroll_read off)

-- `data.pread_with::<u32>(off, LE)`; as an `i32` the pattern is read by `as_signed 32`.
unfoldable pub pread_u32 : List ℕ → ℕ → Res ℕ
unfolding le_u32
pread_u32 bytes off = le_u32 (drop off bytes) off

-- The byte offset of code unit `pc + unit_idx`.
unfoldable pub unit_offset : ℕ → ℕ → ℕ → Res ℕ
unit_offset insns_off pc unit_idx =
    if ltb (pc + unit_idx) u32_mod
    then if ltb (insns_off + (pc + unit_idx) * 2) usize_mod
      then ok (insns_off + (pc + unit_idx) * 2)
      else err arithmetic_overflow
    else err (invalid_instruction pc)

unfoldable pub read_unit : List ℕ → ℕ → ℕ → ℕ → Res ℕ
unfolding unit_offset pread_u16
read_unit bytes insns_off pc unit_idx = do
  off ← unit_offset insns_off pc unit_idx
  pread_u16 bytes off

-- `pc.checked_add_signed(offset)`
unfoldable pub branch_target : ℕ → ℤ → Res ℕ
unfolding ◌+ℤ◌
branch_target pc offset = elim (pos pc +ℤ offset) [
  | pos t ↦ if ltb t u32_mod then ok t else err (invalid_instruction pc)
  | negsuc _ ↦ err (invalid_instruction pc)
]
