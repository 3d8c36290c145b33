-- ===== src/Decode/Stream/Order.antt =====
-- The loop of `decode_insns` ends, and the addresses of its instructions ascend.
mod Within
use droidsaw_dex.Decode.Stream.Order.Within.{
  InsnsWithin, InsnsWithin-snoc, InsnsWithin-weaken, InsnsFrom-Within,
}
use droidsaw_dex.Prelude.{
  ℕ, zero, suc, ◌+◌, ◌<◌, ◌≤◌, ◌≡◌, ◌⊎◌, refl, sym, subst, arith, Bool, true, false, Option, none,
  some, List, ltb, if◌then◌else◌, Bool-cases, inl, inr, ◌==◌, ◌&&◌, ◌%◌, ◌/◌, ◌^◌,
}
use droidsaw_dex.Prelude.Errors.{
  ok, err, ◌>>=◌, IfOk, IfOk-bind, IfOk-then, IfOk-map, IfOk-eq, bind-cong,
}
use droidsaw_dex.Prelude.Sets.{set_insert}
use droidsaw_dex.Prelude.Words.{u32_mod}
use droidsaw_dex.Opcodes.{Opcode}
use droidsaw_dex.Opcodes.Bytes.{from_u8}
use droidsaw_dex.Decode.Format.{InsnFormat, insn_format, format_size}
use droidsaw_dex.Decode.Reader.{
  Res, DexError, safe_add_u32, safe_mul_u32, read_unit, safe_add, pread_u32,
}
use droidsaw_dex.Decode.Single.{Decoded, blank, decode_single, Violation}
use droidsaw_dex.Decode.Single.Reads.{Keeps, decode_operands-Keeps}
use droidsaw_dex.Decode.Payload.{BoundCount, payload_base}
use droidsaw_dex.Decode.Stream.Step.{
  Scan, start, is_payload_ident, payload_size, step_insn, step_opcode, skip_payload, step,
}
use droidsaw_dex.Decode.Stream.Checks.{resolve}
use droidsaw_dex.Decode.Stream.Insns.{scan, Stream, decode_insns}
use droidsaw_dex.Cfg.Partition.{InsnsFrom}

-- The instructions read so far ascend and lie below the next address, which is a u32.
abbrev pub IsOrdered : Scan → Type 0
IsOrdered s = InsnsWithin 0 s.pc s.instructions × (s.pc < u32_mod)

-- A round moves on and keeps the order.
abbrev pub Advances : Scan → Scan → Type 0
Advances s s' = (s.pc < s'.pc) × IsOrdered s'

safe_add_u32-fits : (a b : ℕ) → IfOk (λ n. (n ≡ a + b) × (n < u32_mod)) (safe_add_u32 a b)
unfolding safe_add_u32
safe_add_u32-fits a b = ground arith

add_pos : (a b : ℕ) → 0 < a + b → IfOk (λ n. 0 < n) (safe_add_u32 a b)
add_pos a b h =
    IfOk-map (λ m. (m ≡ a + b) × (m < u32_mod)) (λ m. 0 < m) (safe_add_u32 a b)
      (λ n fits. omega (arith, fits.0)) (safe_add_u32-fits a b)

pub if_ok {ℓ} :
    {A : Type ℓ} (P : A → Type 0) (b : Bool) (x y : Res A)
    → IfOk P x
    → IfOk P y
    → IfOk P (if b then x else y)
if_ok P true x y hx hy = hx
if_ok P false x y hx hy = hy

payload_size-pos :
    (bytes : List ℕ) (insns_off pc ident : ℕ)
    → IfOk (λ size. 0 < size) (payload_size bytes insns_off pc ident)
unfolding payload_size
payload_size-pos bytes insns_off pc ident =
    if_ok _ (ident == 0x01) _ _
      (IfOk-then _ (read_unit bytes insns_off pc 1) _
        λ size. IfOk-then _ (safe_mul_u32 size 2) _ λ n. add_pos n 4 (omega arith))
      (if_ok _ (ident == 0x02) _ _
        (IfOk-then _ (read_unit bytes insns_off pc 1) _
          λ size. IfOk-then _ (safe_mul_u32 size 4) _ λ n. add_pos n 2 (omega arith))
        (if_ok _ (ident == 0x03) _ _
          (IfOk-then _ (read_unit bytes insns_off pc 1) _ λ width.
            IfOk-then _ (payload_base insns_off pc) _ λ base.
              IfOk-then _ (safe_add base 4) _ λ size_off.
                IfOk-then _ (pread_u32 bytes size_off) _ λ size.
                  IfOk-then _ (safe_mul_u32 size width) _
                    λ n. add_pos 4 ((n + 1) / 2) (omega arith))
          tt))

format_size_pos : (fmt : InsnFormat) → 0 < format_size fmt
unfolding format_size
format_size_pos InsnFormat.f10x = omega arith
format_size_pos _ = omega arith

-- Where a decoded instruction stands and what it takes.
abbrev Standing : ℕ → Decoded → Type 0
Standing pc d = (d.0.addr ≡ pc) × (0 < d.0.size)

decode_single-Standing :
    (bytes : List ℕ) (insns_off pc : ℕ) (op : Opcode) (vs : List Violation)
    → IfOk
        (λ (d : Decoded). (d.0.addr ≡ pc) × (0 < d.0.size))
        (decode_single bytes insns_off pc op vs)
unfolding decode_single blank
decode_single-Standing bytes insns_off pc op vs =
    IfOk-then (Standing pc) (read_unit bytes insns_off pc 0) _ λ u0.
      IfOk-map
        (Keeps (blank pc op) (u0 / 2 ^ 8 % 2 ^ 8) (u0 / 2 ^ 8 % 2 ^ 4) (u0 / 2 ^ 12 % 2 ^ 4)
          (read_unit bytes insns_off pc) vs (insn_format op))
        (Standing pc) _
        (λ d k. (k.0, subst (λ (n : ℕ). 0 < n) (sym k.2) (format_size_pos (insn_format op))))
        (decode_operands-Keeps (blank pc op) _ _ _ (read_unit bytes insns_off pc) vs
          (insn_format op))

step_insn-Advances :
    (bytes : List ℕ) (insns_off insns_size : ℕ) (s : Scan) (op : Opcode)
    → IsOrdered s
    → IfOk (Advances s) (step_insn bytes insns_off insns_size s op)
unfolding step_insn
step_insn-Advances bytes insns_off insns_size s op h =
    IfOk-bind _ _ (decode_single bytes insns_off s.pc op s.violations) _
      (decode_single-Standing bytes insns_off s.pc op s.violations)
      λ d k.
        IfOk-bind _ _ (safe_add_u32 s.pc d.0.size) _ (safe_add_u32-fits s.pc d.0.size) λ next fits.
          (
            omega (arith, k.1, fits.0),
            (
              InsnsWithin-snoc 0 s.pc next s.instructions d.0 (omega (arith, k.0))
                  (omega (arith, k.0, k.1, fits.0)) h.0,
              fits.1,
            ),
          )

step_opcode-Advances :
    (bytes : List ℕ) (insns_off insns_size : ℕ) (s : Scan) (byte : ℕ) (op : Option Opcode)
    → IsOrdered s
    → IfOk (Advances s) (step_opcode bytes insns_off insns_size s byte op)
unfolding step_opcode
step_opcode-Advances bytes insns_off insns_size s byte none h =
    IfOk-bind _ _ (safe_add_u32 s.pc 1) _ (safe_add_u32-fits s.pc 1) λ next fits. (
      omega (arith, fits.0),
      (InsnsWithin-weaken 0 s.pc next s.instructions (omega (arith, fits.0)) h.0, fits.1),
    )
step_opcode-Advances bytes insns_off insns_size s byte (some op) h =
    step_insn-Advances bytes insns_off insns_size s op h

skip_payload-Advances :
    (bytes : List ℕ) (insns_off : ℕ) (s : Scan) (ident : ℕ)
    → IsOrdered s
    → IfOk (Advances s) (skip_payload bytes insns_off s ident)
unfolding skip_payload
skip_payload-Advances bytes insns_off s ident h =
    IfOk-bind _ _ (payload_size bytes insns_off s.pc ident) _
      (payload_size-pos bytes insns_off s.pc ident)
      λ size pos.
        IfOk-bind _ _ (safe_add_u32 s.pc size) _ (safe_add_u32-fits s.pc size) λ next fits. (
          omega (arith, pos, fits.0),
          (InsnsWithin-weaken 0 s.pc next s.instructions (omega (arith, fits.0)) h.0, fits.1),
        )

step-Advances :
    (bytes : List ℕ) (insns_off insns_size : ℕ) (s : Scan)
    → IsOrdered s
    → IfOk (Advances s) (step bytes insns_off insns_size s)
unfolding step
step-Advances bytes insns_off insns_size s h =
    IfOk-then _ (read_unit bytes insns_off s.pc 0) _ λ u0.
      if_ok (Advances s) (u0 % 2 ^ 8 == 0x00 && is_payload_ident (u0 / 2 ^ 8)) _ _
        (skip_payload-Advances bytes insns_off s (u0 / 2 ^ 8) h)
        (step_opcode-Advances bytes insns_off insns_size
          (record s { opcode_starts = set_insert s.pc s.opcode_starts }) (u0 % 2 ^ 8)
          (from_u8 (u0 % 2 ^ 8)) h)

-- The loop runs to its end: with as many rounds as code units are left, it stops behind the last.
scan-done :
    (bytes : List ℕ) (insns_off insns_size rounds : ℕ) (s : Scan)
    → insns_size ≤ s.pc + rounds
    → IsOrdered s
    → IfOk
        (λ (e : Scan). (insns_size ≤ e.pc) × IsOrdered e)
        (scan bytes insns_off insns_size rounds s)
unfolding scan
scan-done bytes insns_off insns_size zero s enough h = (omega arith, h)
scan-done bytes insns_off insns_size (suc rounds) s enough h =
    elim (Bool-cases (ltb s.pc insns_size)) [
      | inl more ↦
          rw (more, scan)
            (IfOk-bind (Advances s) _ (step bytes insns_off insns_size s) _
              (step-Advances bytes insns_off insns_size s h)
              λ s' k. scan-done bytes insns_off insns_size rounds s' (omega (arith, k.0)) k.1)
      | inr over ↦ rw (over, scan) (ground (arith, over), h)
    ]

scan-over :
    (bytes : List ℕ) (insns_off insns_size rounds : ℕ) (s : Scan)
    → ltb s.pc insns_size ≡ false
    → scan bytes insns_off insns_size rounds s ≡ ok s
unfolding scan
scan-over bytes insns_off insns_size zero s over = refl
scan-over bytes insns_off insns_size (suc rounds) s over = rw over

scan-more :
    (bytes : List ℕ) (insns_off insns_size more rounds : ℕ) (s : Scan)
    → rounds ≤ more
    → insns_size ≤ s.pc + rounds
    → IsOrdered s
    → scan bytes insns_off insns_size more s ≡ scan bytes insns_off insns_size rounds s
unfolding scan
scan-more bytes insns_off insns_size more zero s le enough h =
    scan-over bytes insns_off insns_size more s (ground arith)
scan-more bytes insns_off insns_size zero (suc rounds) s le enough h = absurd (omega arith)
scan-more bytes insns_off insns_size (suc more) (suc rounds) s le enough h =
    elim (Bool-cases (ltb s.pc insns_size)) [
      | inl left ↦ rw left (
          bind-cong (step bytes insns_off insns_size s) _ _ (
            IfOk-map (Advances s) _ _
              (λ s' k.
                scan-more bytes insns_off insns_size more rounds s' (omega arith)
                  (omega (arith, k.0)) k.1)
              (step-Advances bytes insns_off insns_size s h)))
      | inr over ↦ rw over
    ]

ok_or_err {ℓ} :
    {A : Type 0} (P : A → Type ℓ) (r : Res A)
    → IfOk P r
    → ((a : A) × (r ≡ ok a) × P a) ⊎ ((e : DexError) × (r ≡ err e))
ok_or_err P (ok a) h = inl (a, refl, h)
ok_or_err P (err e) h = inr (e, refl)

-- The loop of `decode_insns` ends within `insns_size` rounds, whatever the bytes are: after that many
-- it has either failed or come to an address that is no longer below `insns_size`, where its
-- condition is false. To allow more rounds changes nothing, neither in the result nor in the errors.
pub scan-enough :
    (bytes : List ℕ) (insns_off insns_size more : ℕ)
    → insns_size ≤ more
    → (((e : Scan) × (scan bytes insns_off insns_size insns_size start ≡ ok e)
          × (insns_size ≤ e.pc))
        ⊎ ((e : DexError) × (scan bytes insns_off insns_size insns_size start ≡ err e)))
      × (scan bytes insns_off insns_size more start
          ≡ scan bytes insns_off insns_size insns_size start)
unfolding start
scan-enough bytes insns_off insns_size more le = (
  ok_or_err (λ (e : Scan). insns_size ≤ e.pc) _
      (IfOk-map (λ (e : Scan). (insns_size ≤ e.pc) × IsOrdered e) _ _ (λ e done. done.0)
        (scan-done bytes insns_off insns_size insns_size start (omega arith)
          (omega arith, omega arith))),
  scan-more bytes insns_off insns_size more insns_size start le (omega arith)
      (omega arith, omega arith),
)

-- The instructions that `decode_insns` returns stand at ascending addresses, each below 2 ^ 32 - 1.
pub decode_insns-InsnsFrom :
    (bound_count : BoundCount) (bytes : List ℕ) (insns_off insns_size : ℕ) (r : Stream)
    → decode_insns bound_count bytes insns_off insns_size ≡ ok r
    → InsnsFrom 0 r.instructions
unfolding decode_insns start
decode_insns-InsnsFrom bound_count bytes insns_off insns_size r e =
    IfOk-eq (λ (x : Stream). InsnsFrom 0 x.instructions)
      (decode_insns bound_count bytes insns_off insns_size)
      (IfOk-bind _ _ (scan bytes insns_off insns_size insns_size start) _
        (scan-done bytes insns_off insns_size insns_size start (omega arith)
          (omega arith, omega arith))
        λ s k.
          IfOk-then _ (resolve bound_count bytes insns_off insns_size s.pending _) _
            λ resolved. InsnsFrom-Within 0 s.pc s.instructions k.1.1 k.1.0)
      e
