-- ===== src/Emit/Tables/SparseSwitch.antt =====
-- The round trip of a sparse switch.
use mathlib.Core.List.{append_assoc, append-nil}
use droidsaw_dex.Prelude.{
  ℕ, suc, ◌+◌, ◌*◌, ◌/◌, ◌%◌, ◌^◌, ◌<◌, ◌≡◌, refl, sym, ap, ◌∙◌, subst, arith, List, [], ◌∷◌, ◌++◌,
  All, length, length-append, ◌==◌,
}
use droidsaw_dex.Prelude.Int.{ℤ, ◌≤ℤ◌}
use droidsaw_dex.Prelude.Errors.{ok, guard, IfOk, IfOk-bind, IfOk-map, IfOk-eq}
use droidsaw_dex.Prelude.Words.{low_bits, as_signed, u16_mod, u32_mod, usize_mod, i32_min, i32_max}
use droidsaw_dex.Decode.Reader.Bounds.{read_unit-append}
use droidsaw_dex.Decode.Reader.{le_u16, pread_u32, read_unit}
use droidsaw_dex.Decode.Item.{sparse_switch}
use droidsaw_dex.Decode.Payload.{BoundCount, decode_sparse_switch, read_targets, read_ints}
use droidsaw_dex.Emit.Operands.{push_u16, unrepresentable_ir}
use droidsaw_dex.Emit.Payload.{
  le_bytes, push_u32, push_keys, size_below, emit_sparse_switch_payload,
}
use droidsaw_dex.Emit.Tables.{
  pread_u32-le_bytes, safe_mul-four, safe_add-fits, low_bits-lt, push_targets-Writes, TargetBytes,
  Writes,
}
use droidsaw_dex.Emit.Tables.PackedSwitch.{
  PassesCounts, size_below-fits, payload_base-fits, as_signed-low_bits,
}

abbrev key_bytes : List ℤ → List ℕ
key_bytes [] = []
key_bytes (k ∷ ks) = le_bytes (low_bits 32 k) ++ key_bytes ks

length-key_bytes : (ks : List ℤ) → length (key_bytes ks) ≡ 4 * length ks
length-key_bytes [] = refl
length-key_bytes (k ∷ ks) = omega (arith, length-key_bytes ks)

push_keys-append : (out : List ℕ) (ks : List ℤ) → push_keys out ks ≡ out ++ key_bytes ks
unfolding push_keys push_u32
push_keys-append out [] = sym (append-nil out)
push_keys-append out (k ∷ ks) =
    push_keys-append (out ++ le_bytes (low_bits 32 k)) ks
    ∙ append_assoc out (le_bytes (low_bits 32 k)) (key_bytes ks)

-- Every key is an i32.
abbrev pub AreI32 : List ℤ → Type 0
AreI32 ks = All (λ (k : ℤ). (i32_min ≤ℤ k) × (k ≤ℤ i32_max)) ks

read_ints-step :
    (bytes : List ℕ) (base n i : ℕ) (k : ℤ) (ks : List ℤ)
    → base + i * 4 < usize_mod
    → pread_u32 bytes (base + i * 4) ≡ ok (low_bits 32 k)
    → as_signed 32 (low_bits 32 k) ≡ k
    → read_ints bytes base n (i + 1) ≡ ok ks
    → read_ints bytes base (suc n) i ≡ ok (k ∷ ks)
unfolding read_ints
read_ints-step bytes base n i k ks lt read signed rest = rw (
  safe_mul-four i (base + i * 4) (omega arith) lt,
  safe_add-fits base (i * 4) lt,
  read,
  rest,
  signed,
)

key_bytes-reads :
    (ks : List ℤ) (pre rest : List ℕ) (base i : ℕ)
    → AreI32 ks
    → base + i * 4 ≡ length pre
    → length pre + length (key_bytes ks) < usize_mod
    → read_ints (pre ++ (key_bytes ks ++ rest)) base (length ks) i ≡ ok ks
unfolding read_ints
key_bytes-reads [] pre rest base i h at fits = refl
key_bytes-reads (k ∷ ks) pre rest base i h at fits =
    let v = low_bits 32 k in
    let next =
      key_bytes-reads ks (pre ++ le_bytes v) rest base (i + 1) h.1
        (omega (arith, length-append pre (le_bytes v)))
        (omega (arith, length-append pre (le_bytes v))) in
    read_ints-step (pre ++ (le_bytes v ++ (key_bytes ks ++ rest))) base (length ks) i k ks
      (omega arith)
      (pread_u32-le_bytes pre (key_bytes ks ++ rest) (base + i * 4) v at (low_bits-lt k))
      (as_signed-low_bits k h.0.0 h.0.1)
      (subst (λ bytes. read_ints bytes base (length ks) (i + 1) ≡ ok ks)
        (append_assoc pre (le_bytes v) (key_bytes ks ++ rest)) next)

guard-same : (a b : ℕ) → IfOk (λ u. a ≡ b) (guard (a == b) unrepresentable_ir)
guard-same a b = ground arith

abbrev sparse_mark : ℕ → List ℕ
sparse_mark size = 0x00 ∷ 0x02 ∷ size % 2 ^ 8 ∷ size / 2 ^ 8 ∷ []

module _ (bound_count : BoundCount) (passes : PassesCounts bound_count) (pre rest : List ℕ)
    (insns_off payload_pc switch_pc : ℕ) (placed : length pre ≡ insns_off + payload_pc * 2)
    (pc_fits : payload_pc + 1 < u32_mod) (switch_fits : switch_pc < u32_mod) where
  sparse_switch-reads :
      (ks : List ℤ) (ts tail : List ℕ)
      → AreI32 ks
      → length ks ≡ length ts
      → length ks < u16_mod
      → length tail ≡ 4 * length ts
      → length pre + 4 + length (key_bytes ks) + length tail < usize_mod
      → TargetBytes switch_pc ts tail
      → decode_sparse_switch bound_count
          (pre ++ (((sparse_mark (length ks) ++ key_bytes ks) ++ tail) ++ rest))
          insns_off
          payload_pc
          switch_pc
        ≡ ok (sparse_switch ks ts)
  unfolding decode_sparse_switch
  sparse_switch-reads ks ts tail range same small len fits reads =
      let mark = sparse_mark (length ks) in
      let kt = key_bytes ks in
      let n4 = length-key_bytes ks in
      let bytes = pre ++ (((mark ++ kt) ++ tail) ++ rest) in
      let layout : (pre ++ mark) ++ (kt ++ (tail ++ rest)) ≡ bytes =
        append_assoc pre mark (kt ++ (tail ++ rest))
        ∙ ap (λ x. pre ++ (mark ++ x)) (sym (append_assoc kt tail rest)) in
      let base4 = insns_off + payload_pc * 2 + 4 in
      let size_read : read_unit bytes insns_off payload_pc 1 ≡ ok (length ks) =
        read_unit-append pre (((mark ++ kt) ++ tail) ++ rest) insns_off payload_pc 1 placed pc_fits
          (omega arith)
        ∙ (unfold le_u16 in ap ok (omega arith)) in
      let counted : bound_count (length ks) 8 (length bytes) ≡ ok (length ks) =
        passes (length ks) 8 (length bytes) (
          omega (
            arith,
            length-append pre (((mark ++ kt) ++ tail) ++ rest),
            length-append (kt ++ tail) rest,
            length-append kt tail,
            len,
            n4,
            same,
          )) in
      let keys_read : read_ints bytes base4 (length ks) 0 ≡ ok ks =
        subst (λ b. read_ints b base4 (length ks) 0 ≡ ok ks) layout
          (key_bytes-reads ks (pre ++ mark) (tail ++ rest) base4 0 range
            (omega (arith, length-append pre mark)) (omega (arith, length-append pre mark))) in
      let targets_read : read_targets bytes (base4 + length ks * 4) switch_pc (length ks) 0
          ≡ ok ts =
        subst (λ (n : ℕ). read_targets bytes (base4 + length ks * 4) switch_pc n 0 ≡ ok ts)
          (sym same)
          (subst (λ b. read_targets b (base4 + length ks * 4) switch_pc (length ts) 0 ≡ ok ts)
            (append_assoc (pre ++ mark) kt (tail ++ rest) ∙ layout)
            (reads ((pre ++ mark) ++ kt) rest (base4 + length ks * 4) 0
              (omega (arith, length-append (pre ++ mark) kt, length-append pre mark, n4))
              (omega (arith, length-append (pre ++ mark) kt, length-append pre mark)))) in
      rw (
        size_read,
        counted,
        payload_base-fits insns_off payload_pc (omega arith),
        safe_add-fits (insns_off + payload_pc * 2) 4 (omega arith),
        keys_read,
        safe_mul-four (length ks) (length ks * 4) (omega arith) (omega (arith, n4)),
        safe_add-fits base4 (length ks * 4) (omega (arith, n4)),
        targets_read,
      )

  sparse_switch-written :
      (ks : List ℤ) (ts : List ℕ)
      → AreI32 ks
      → All (λ (t : ℕ). t < u32_mod) ts
      → IfOk
          (λ emitted.
            length pre + length emitted < usize_mod
            → decode_sparse_switch bound_count
                (pre ++ (emitted ++ rest))
                insns_off
                payload_pc
                switch_pc
              ≡ ok (sparse_switch ks ts))
          (emit_sparse_switch_payload [] ks ts switch_pc)
  unfolding emit_sparse_switch_payload push_u16
  sparse_switch-written ks ts range targets =
      IfOk-bind (λ u. length ks ≡ length ts) _ (guard (length ks == length ts) unrepresentable_ir) _
        (guard-same (length ks) (length ts))
        λ u same.
          IfOk-bind _ _ (size_below u16_mod (length ks)) _ (size_below-fits u16_mod (length ks))
            λ size below.
              let head = push_keys (sparse_mark size) ks in
              IfOk-map (Writes head switch_pc ts) _ _
                (λ emitted w fits.
                  let placed_at : emitted ≡ (sparse_mark (length ks) ++ key_bytes ks) ++ w.0 =
                    w.1
                    ∙ ap (λ xs. xs ++ w.0)
                        (push_keys-append (sparse_mark size) ks
                          ∙ ap (λ n. sparse_mark n ++ key_bytes ks) below.0) in
                  subst
                    (λ e.
                      decode_sparse_switch bound_count (pre ++ (e ++ rest)) insns_off payload_pc
                        switch_pc
                      ≡ ok (sparse_switch ks ts))
                    (sym placed_at)
                    (sparse_switch-reads ks ts w.0 range same below.1 w.2
                      (let total : length pre
                              + length ((sparse_mark (length ks) ++ key_bytes ks) ++ w.0)
                            < usize_mod =
                          subst (λ e. length pre + length e < usize_mod) placed_at fits in
                        omega (arith, total, length-append (key_bytes ks) w.0))
                      w.3))
                (push_targets-Writes head switch_pc ts switch_fits targets)

  -- A sparse switch that is emitted decodes, where it is put and in front of anything, to the keys
  -- and the targets that were emitted. This is for keys that are i32, addresses that are u32 and
  -- offsets that fit in a usize, and for a `bound_count` that passes every count that fits.
  pub decode_sparse_switch-emit_sparse_switch_payload :
      (ks : List ℤ) (ts emitted : List ℕ)
      → AreI32 ks
      → All (λ (t : ℕ). t < u32_mod) ts
      → emit_sparse_switch_payload [] ks ts switch_pc ≡ ok emitted
      → length pre + length emitted < usize_mod
      → decode_sparse_switch bound_count (pre ++ (emitted ++ rest)) insns_off payload_pc switch_pc
        ≡ ok (sparse_switch ks ts)
  decode_sparse_switch-emit_sparse_switch_payload ks ts emitted range targets e fits =
      IfOk-eq _ _ (sparse_switch-written ks ts range targets) e fits
