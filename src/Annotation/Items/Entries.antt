-- ===== src/Annotation/Items/Entries.antt =====
-- The entries of sets and directories are read back where they were emitted.
use droidsaw_dex.Prelude.{
  ℕ, ◌+◌, ◌*◌, ◌/◌, ◌%◌, ◌^◌, ◌<◌, ◌≡◌, refl, ap, arith, List, [], ◌∷◌, ◌++◌, All, length, drop,
}
use droidsaw_dex.Prelude.Errors.{ok}
use droidsaw_dex.Prelude.Words.{u32_mod, usize_mod}
use droidsaw_dex.Prelude.Positions.{drop-past, drop-covers}
use droidsaw_dex.Decode.Reader.{pread_u32, le_u32}
use droidsaw_dex.Annotation.Numbers.{safe_add_lem}
use droidsaw_dex.Annotation.Items.{next_u32, read_entries, read_offsets}
use droidsaw_dex.Emit.Payload.{le_bytes}
use droidsaw_dex.Emit.Annotation.{offset_bytes, entry_bytes}

-- Both numbers of an entry are u32.
abbrev pub IsU32Pair : ℕ × ℕ → Type 0
IsU32Pair (idx, off) = (idx < u32_mod) × (off < u32_mod)

pub length-entry_bytes : (es : List (ℕ × ℕ)) → length (entry_bytes es) ≡ length es * 8
unfolding entry_bytes
length-entry_bytes [] = omega arith
length-entry_bytes ((idx, off) ∷ es) = omega (arith, length-entry_bytes es)

pub length-offset_bytes : (offs : List ℕ) → length (offset_bytes offs) ≡ length offs * 4
unfolding offset_bytes
length-offset_bytes [] = omega arith
length-offset_bytes (off ∷ offs) = omega (arith, length-offset_bytes offs)

module _ (bytes : List ℕ) (short : length bytes < usize_mod) where
  pub next_u32-le_bytes :
      (at v : ℕ) (rest : List ℕ)
      → v < u32_mod
      → drop at bytes ≡ le_bytes v ++ rest
      → next_u32 bytes at ≡ ok (v, at + 4)
  unfolding next_u32 pread_u32 le_u32
  next_u32-le_bytes at v rest lt h =
      let joined : v % 2 ^ 8
            + v / 2 ^ 8 % 2 ^ 8 * 2 ^ 8
            + v / 2 ^ 16 % 2 ^ 8 * 2 ^ 16
            + v / 2 ^ 24 % 2 ^ 8 * 2 ^ 24
          ≡ v =
        omega arith in
      let fits : at + 4 < usize_mod =
        omega (arith, drop-covers at bytes (le_bytes v) rest h (omega arith)) in
      rw (h, safe_add_lem at 4 fits, joined) refl

  pub read_entries-entry_bytes :
      (es : List (ℕ × ℕ)) (at : ℕ) (rest : List ℕ)
      → All IsU32Pair es
      → drop at bytes ≡ entry_bytes es ++ rest
      → read_entries bytes (length es) at ≡ ok (es, at + length (entry_bytes es))
  unfolding read_entries entry_bytes
  read_entries-entry_bytes [] at rest small h = ap (λ n. ok ([], n)) (omega arith)
  read_entries-entry_bytes ((idx, off) ∷ es) at rest small h =
      let behind : drop (at + 4) bytes ≡ le_bytes off ++ (entry_bytes es ++ rest) =
        drop-past at bytes (le_bytes idx) h in
      let later : drop (at + 4 + 4) bytes ≡ entry_bytes es ++ rest =
        drop-past (at + 4) bytes (le_bytes off) behind in
      rw
        (
          next_u32-le_bytes at idx (le_bytes off ++ (entry_bytes es ++ rest)) small.0.0 h,
          next_u32-le_bytes (at + 4) off (entry_bytes es ++ rest) small.0.1 behind,
          read_entries-entry_bytes es (at + 4 + 4) rest small.1 later,
        )
        (ap (λ n. ok ((idx, off) ∷ es, n)) (omega arith))

  pub read_offsets-offset_bytes :
      (offs : List ℕ) (at : ℕ) (rest : List ℕ)
      → All (λ off. off < u32_mod) offs
      → drop at bytes ≡ offset_bytes offs ++ rest
      → read_offsets bytes (length offs) at ≡ ok offs
  unfolding read_offsets offset_bytes
  read_offsets-offset_bytes [] at rest small h = refl
  read_offsets-offset_bytes (off ∷ offs) at rest small h =
      let later : drop (at + 4) bytes ≡ offset_bytes offs ++ rest =
        drop-past at bytes (le_bytes off) h in
      rw
        (
          next_u32-le_bytes at off (offset_bytes offs ++ rest) small.0 h,
          read_offsets-offset_bytes offs (at + 4) rest small.1 later,
        )
        refl
