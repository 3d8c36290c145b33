-- ===== src/Emit/Tables.antt =====
-- The tables of targets that a payload holds: what is written is read back.
pub mod PackedSwitch
pub mod SparseSwitch
pub mod ArrayData
use mathlib.Core.List.{append-nil, append_assoc}
use droidsaw_dex.Prelude.{
  ℕ, zero, suc, ◌+◌, ◌*◌, ◌<◌, ◌≤◌, ◌≡◌, refl, sym, ap, ◌∙◌, subst, arith, List, [], ◌∷◌, ◌++◌, All,
  length, length-append, drop,
}
use droidsaw_dex.Prelude.Int.{ℤ, pos, negsuc, ◌-ℤ◌, ◌+ℤ◌}
use droidsaw_dex.Prelude.Errors.{ok, ◌>>=◌, ◌>>◌, IfOk, IfOk-bind, IfOk-map}
use droidsaw_dex.Prelude.Words.{low_bits, as_signed, u32_mod, usize_mod}
use droidsaw_dex.Decode.Reader.{pread_u32, le_u32, branch_target, safe_mul, safe_add}
use droidsaw_dex.Decode.Reader.Bounds.{drop-append}
use droidsaw_dex.Decode.Payload.{read_targets}
use droidsaw_dex.Emit.Operands.{branch_i32}
use droidsaw_dex.Emit.Payload.{le_bytes, push_u32, push_targets}

-- A number of 32 bits is read where it was written.
pub pread_u32-le_bytes :
    (pre rest : List ℕ) (off v : ℕ)
    → off ≡ length pre
    → v < u32_mod
    → pread_u32 (pre ++ (le_bytes v ++ rest)) off ≡ ok v
unfolding pread_u32 le_u32
pread_u32-le_bytes pre rest off v at lt =
    rw (drop-append pre (le_bytes v ++ rest) off 0 (omega (arith, at)), le_u32)
      (ap ok (omega arith))

-- The offset of a target leads back to it.
branch_target-branch_i32 :
    (t pc : ℕ)
    → t < u32_mod
    → pc < u32_mod
    → IfOk (λ rel. branch_target pc (as_signed 32 (low_bits 32 rel)) ≡ ok t) (branch_i32 t pc)
unfolding branch_target branch_i32 ◌-ℤ◌ ◌+ℤ◌
branch_target-branch_i32 t pc ht hpc = ground arith

pub safe_mul-four : (i n : ℕ) → i * 4 ≤ n → n < usize_mod → safe_mul i 4 ≡ ok (i * 4)
unfolding safe_mul
safe_mul-four i n le lt = ground arith

pub safe_add-fits : (a b : ℕ) → a + b < usize_mod → safe_add a b ≡ ok (a + b)
unfolding safe_add
safe_add-fits a b lt = ground arith

read_targets-step :
    (bytes : List ℕ) (base pc n i v t : ℕ) (ts : List ℕ)
    → base + i * 4 < usize_mod
    → pread_u32 bytes (base + i * 4) ≡ ok v
    → branch_target pc (as_signed 32 v) ≡ ok t
    → read_targets bytes base pc n (i + 1) ≡ ok ts
    → read_targets bytes base pc (suc n) i ≡ ok (t ∷ ts)
unfolding read_targets
read_targets-step bytes base pc n i v t ts lt read lands rest = rw (
  safe_mul-four i (base + i * 4) (omega arith) lt,
  safe_add-fits base (i * 4) lt,
  read,
  lands,
  rest,
)

-- The bytes in the list are read as these targets, wherever they stand.
abbrev pub TargetBytes : ℕ → List ℕ → List ℕ → Type 0
TargetBytes pc ts tail =
    (pre rest : List ℕ) (base i : ℕ)
    → base + i * 4 ≡ length pre
    → length pre + length tail < usize_mod
    → read_targets (pre ++ (tail ++ rest)) base pc (length ts) i ≡ ok ts

abbrev pub Writes : List ℕ → ℕ → List ℕ → List ℕ → Type 0
Writes out pc ts emitted =
    (tail : List ℕ) × (emitted ≡ out ++ tail)
    × (length tail ≡ 4 * length ts)
    × TargetBytes pc ts tail

pub low_bits-lt : (z : ℤ) → low_bits 32 z < u32_mod
low_bits-lt (pos n) = omega arith
low_bits-lt (negsuc n) = omega arith

TargetBytes-cons :
    (pc t : ℕ) (ts tail : List ℕ) (rel : ℤ)
    → branch_target pc (as_signed 32 (low_bits 32 rel)) ≡ ok t
    → TargetBytes pc ts tail
    → TargetBytes pc (t ∷ ts) (le_bytes (low_bits 32 rel) ++ tail)
TargetBytes-cons pc t ts tail rel lands later pre rest base i at fits =
    let v = low_bits 32 rel in
    let next =
      later (pre ++ le_bytes v) rest base (i + 1) (omega (arith, length-append pre (le_bytes v)))
        (omega (arith, length-append pre (le_bytes v))) in
    read_targets-step (pre ++ (le_bytes v ++ (tail ++ rest))) base pc (length ts) i v t ts
      (omega arith) (pread_u32-le_bytes pre (tail ++ rest) (base + i * 4) v at (low_bits-lt rel))
      lands
      (subst (λ bytes. read_targets bytes base pc (length ts) (i + 1) ≡ ok ts)
        (append_assoc pre (le_bytes v) (tail ++ rest)) next)

pub push_targets-Writes :
    (out : List ℕ) (pc : ℕ) (ts : List ℕ)
    → pc < u32_mod
    → All (λ (t : ℕ). t < u32_mod) ts
    → IfOk (Writes out pc ts) (push_targets out ts pc)
unfolding push_targets push_u32 read_targets
push_targets-Writes out pc [] hpc h =
    ([], sym (append-nil out), refl, λ pre rest base i at fits. refl)
push_targets-Writes out pc (t ∷ ts) hpc h =
    IfOk-bind _ (Writes out pc (t ∷ ts)) (branch_i32 t pc) _ (branch_target-branch_i32 t pc h.0 hpc)
      λ rel lands.
        IfOk-map (Writes (push_u32 out (low_bits 32 rel)) pc ts) (Writes out pc (t ∷ ts))
          (push_targets (push_u32 out (low_bits 32 rel)) ts pc)
          (λ e w. (
            le_bytes (low_bits 32 rel) ++ w.0,
            w.1 ∙ append_assoc out (le_bytes (low_bits 32 rel)) w.0,
            omega (arith, w.2),
            TargetBytes-cons pc t ts w.0 rel lands w.3,
          ))
          (push_targets-Writes (push_u32 out (low_bits 32 rel)) pc ts hpc h.1)
