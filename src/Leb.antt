-- ===== src/Leb.antt =====
-- src/mutf8.rs: the readers of LEB128 numbers, which call those of droidsaw_common.
-- `Leb128` is what droidsaw_common provides. `none` is an `EncodingError`; a number that is read
-- comes with the count of its bytes.
use droidsaw_dex.Prelude.{ℕ, ◌+◌, ◌≤◌, ◌<◌, ◌≡◌, Option, some, List, ◌++◌, length}
use droidsaw_dex.Prelude.Int.{ℤ}
use droidsaw_dex.Prelude.Errors.{ok, ◌>>=◌, ok_or}
use droidsaw_dex.Prelude.Words.{u32_mod}
use droidsaw_dex.Decode.Reader.{Res, invalid_uleb128, safe_add}

pub record Leb128 : Type 0 where
  pub uleb128 : List ℕ → ℕ → Option (ℕ × ℕ)
  pub sleb128 : List ℕ → ℕ → Option (ℤ × ℕ)
  pub write_uleb128 : ℕ → List ℕ

-- The documented behaviour of the readers: a number takes bytes of the input, at least one, and
-- an unsigned one is a u32.
pub record IsLeb128 (leb : Leb128) : Type 0 where
  pub uleb128-within :
      (bytes : List ℕ) (off v n : ℕ)
      → leb.uleb128 bytes off ≡ some (v, n)
      → (v < u32_mod) × (1 ≤ n) × (off + n ≤ length bytes)
  pub sleb128-within :
      (bytes : List ℕ) (off : ℕ) (z : ℤ) (n : ℕ)
      → leb.sleb128 bytes off ≡ some (z, n)
      → (1 ≤ n) × (off + n ≤ length bytes)

-- The documented behaviour of the writer: what it writes is read back, wherever it stands.
pub record IsWriter (leb : Leb128) : Type 0 where
  pub uleb128-write :
      (pre rest : List ℕ) (v : ℕ)
      → v < u32_mod
      → leb.uleb128 (pre ++ (leb.write_uleb128 v ++ rest)) (length pre)
        ≡ some (v, length (leb.write_uleb128 v))

unfoldable pub read_uleb128 : Leb128 → List ℕ → ℕ → Res (ℕ × ℕ)
read_uleb128 leb bytes off = ok_or (leb.uleb128 bytes off) (invalid_uleb128 off)

unfoldable pub read_sleb128 : Leb128 → List ℕ → ℕ → Res (ℤ × ℕ)
read_sleb128 leb bytes off = ok_or (leb.sleb128 bytes off) (invalid_uleb128 off)

-- `let (v, len) = read_uleb128(data, pos)?; pos = safe_add(pos, len)?`
unfoldable pub next_uleb128 : Leb128 → List ℕ → ℕ → Res (ℕ × ℕ)
unfolding read_uleb128
next_uleb128 leb bytes pos = do
  (v, len) ← read_uleb128 leb bytes pos
  pos' ← safe_add pos len
  ok (v, pos')

unfoldable pub next_sleb128 : Leb128 → List ℕ → ℕ → Res (ℤ × ℕ)
unfolding read_sleb128
next_sleb128 leb bytes pos = do
  (z, len) ← read_sleb128 leb bytes pos
  pos' ← safe_add pos len
  ok (z, pos')
