-- ===== src/Emit/Tables/PackedSwitch.antt =====
-- The round trip of a packed switch.
use mathlib.Core.List.{append_assoc}
use droidsaw_dex.Prelude.{
  ℕ, ◌+◌, ◌*◌, ◌/◌, ◌%◌, ◌^◌, ◌<◌, ◌≤◌, ◌≡◌, sym, ap, ◌∙◌, subst, arith, List, [], ◌∷◌, ◌++◌, All,
  length, length-append,
}
use droidsaw_dex.Prelude.Int.{ℤ, pos, negsuc, ◌≤ℤ◌}
use droidsaw_dex.Prelude.Errors.{ok, IfOk, IfOk-bind, IfOk-map, IfOk-eq}
use droidsaw_dex.Prelude.Words.{low_bits, as_signed, u16_mod, u32_mod, usize_mod, i32_min, i32_max}
use droidsaw_dex.Decode.Reader.Bounds.{read_unit-append}
use droidsaw_dex.Decode.Reader.{le_u16, pread_u32, read_unit, safe_mul, safe_add}
use droidsaw_dex.Decode.Item.{packed_switch}
use droidsaw_dex.Decode.Payload.{BoundCount, payload_base, decode_packed_switch, read_targets}
use droidsaw_dex.Emit.Operands.{push_u16}
use droidsaw_dex.Emit.Payload.{size_below, emit_packed_switch_payload, le_bytes, push_u32}
use droidsaw_dex.Emit.Tables.{
  pread_u32-le_bytes, safe_add-fits, low_bits-lt, push_targets-Writes, TargetBytes, Writes,
}

-- The documented behaviour of `bound_count`: a count whose items fit in the input passes unchanged.
abbrev pub PassesCounts : BoundCount → Type 0
PassesCounts bound_count =
    (got stride data_len : ℕ) → got * stride ≤ data_len → bound_count got stride data_len ≡ ok got

abbrev switch_head : ℕ → ℕ → List ℕ
switch_head size key = 0x00 ∷ 0x01 ∷ size % 2 ^ 8 ∷ size / 2 ^ 8 ∷ le_bytes key

pub size_below-fits : (bound n : ℕ) → IfOk (λ size. (size ≡ n) × (n < bound)) (size_below bound n)
unfolding size_below
size_below-fits bound n = ground arith

pub as_signed-low_bits : (z : ℤ) → i32_min ≤ℤ z → z ≤ℤ i32_max → as_signed 32 (low_bits 32 z) ≡ z
as_signed-low_bits (pos n) low high = ground arith
as_signed-low_bits (negsuc n) low high = ground arith

pub payload_base-fits :
    (insns_off payload_pc : ℕ)
    → insns_off + payload_pc * 2 < usize_mod
    → payload_base insns_off payload_pc ≡ ok (insns_off + payload_pc * 2)
unfolding payload_base safe_mul safe_add
payload_base-fits insns_off payload_pc h = ground arith

module _ (bound_count : BoundCount) (passes : PassesCounts bound_count) (pre rest : List ℕ)
    (insns_off payload_pc switch_pc : ℕ) (placed : length pre ≡ insns_off + payload_pc * 2)
    (pc_fits : payload_pc + 1 < u32_mod) (switch_fits : switch_pc < u32_mod) where
  packed_switch-reads :
      (key : ℤ) (ts tail : List ℕ)
      → as_signed 32 (low_bits 32 key) ≡ key
      → length ts < u16_mod
      → length tail ≡ 4 * length ts
      → length pre + 8 + length tail < usize_mod
      → TargetBytes switch_pc ts tail
      → decode_packed_switch bound_count
          (pre ++ ((switch_head (length ts) (low_bits 32 key) ++ tail) ++ rest))
          insns_off
          payload_pc
          switch_pc
        ≡ ok (packed_switch key ts)
  unfolding decode_packed_switch
  packed_switch-reads key ts tail signed small len fits reads =
      let bytes = pre ++ ((switch_head (length ts) (low_bits 32 key) ++ tail) ++ rest) in
      let head = switch_head (length ts) (low_bits 32 key) in
      let mark = 0x00 ∷ 0x01 ∷ length ts % 2 ^ 8 ∷ length ts / 2 ^ 8 ∷ [] in
      let size_read : read_unit bytes insns_off payload_pc 1 ≡ ok (length ts) =
        read_unit-append pre ((head ++ tail) ++ rest) insns_off payload_pc 1 placed pc_fits
          (omega arith)
        ∙ (unfold le_u16 in ap ok (omega arith)) in
      let counted : bound_count (length ts) 4 (length bytes) ≡ ok (length ts) =
        passes (length ts) 4 (length bytes) (
          omega
            (arith, length-append pre ((head ++ tail) ++ rest), length-append tail rest, len)) in
      let key_read : pread_u32 bytes (insns_off + payload_pc * 2 + 4) ≡ ok (low_bits 32 key) =
        subst (λ b. pread_u32 b (insns_off + payload_pc * 2 + 4) ≡ ok (low_bits 32 key))
          (append_assoc pre mark (le_bytes (low_bits 32 key) ++ (tail ++ rest)))
          (pread_u32-le_bytes (pre ++ mark) (tail ++ rest) (insns_off + payload_pc * 2 + 4)
            (low_bits 32 key) (omega (arith, length-append pre mark)) (low_bits-lt key)) in
      let targets_read : read_targets bytes (insns_off + payload_pc * 2 + 8) switch_pc (length ts) 0
          ≡ ok ts =
        subst (λ b. read_targets b (insns_off + payload_pc * 2 + 8) switch_pc (length ts) 0 ≡ ok ts)
          (append_assoc pre head (tail ++ rest))
          (reads (pre ++ head) rest (insns_off + payload_pc * 2 + 8) 0
            (omega (arith, length-append pre head)) (omega (arith, length-append pre head))) in
      rw (
        size_read,
        counted,
        payload_base-fits insns_off payload_pc (omega arith),
        safe_add-fits (insns_off + payload_pc * 2) 4 (omega arith),
        key_read,
        safe_add-fits (insns_off + payload_pc * 2) 8 (omega arith),
        targets_read,
        signed,
      )

  packed_switch-written :
      (key : ℤ) (ts : List ℕ)
      → as_signed 32 (low_bits 32 key) ≡ key
      → All (λ (t : ℕ). t < u32_mod) ts
      → IfOk
          (λ emitted.
            length pre + length emitted < usize_mod
            → decode_packed_switch bound_count
                (pre ++ (emitted ++ rest))
                insns_off
                payload_pc
                switch_pc
              ≡ ok (packed_switch key ts))
          (emit_packed_switch_payload [] key ts switch_pc)
  unfolding emit_packed_switch_payload push_u16 push_u32
  packed_switch-written key ts signed targets =
      IfOk-bind _ _ (size_below u16_mod (length ts)) _ (size_below-fits u16_mod (length ts))
        λ size below.
          let head = switch_head (length ts) (low_bits 32 key) in
          IfOk-map (Writes (switch_head size (low_bits 32 key)) switch_pc ts) _ _
            (λ emitted w fits.
              let placed_at : emitted ≡ head ++ w.0 =
                w.1 ∙ ap (λ n. switch_head n (low_bits 32 key) ++ w.0) below.0 in
              subst
                (λ e.
                  decode_packed_switch bound_count (pre ++ (e ++ rest)) insns_off payload_pc
                    switch_pc
                  ≡ ok (packed_switch key ts))
                (sym placed_at)
                (packed_switch-reads key ts w.0 signed below.1 w.2
                  (let total : length pre + length (head ++ w.0) < usize_mod =
                      subst (λ e. length pre + length e < usize_mod) placed_at fits in
                    omega (arith, total))
                  w.3))
            (push_targets-Writes (switch_head size (low_bits 32 key)) switch_pc ts switch_fits
              targets)

  -- A packed switch that is emitted decodes, where it is put and in front of anything, to the first
  -- key and the targets that were emitted. This is for a key that is an i32, addresses that are u32
  -- and offsets that fit in a usize, and for a `bound_count` that passes every count that fits.
  pub decode_packed_switch-emit_packed_switch_payload :
      (key : ℤ) (ts emitted : List ℕ)
      → i32_min ≤ℤ key
      → key ≤ℤ i32_max
      → All (λ (t : ℕ). t < u32_mod) ts
      → emit_packed_switch_payload [] key ts switch_pc ≡ ok emitted
      → length pre + length emitted < usize_mod
      → decode_packed_switch bound_count (pre ++ (emitted ++ rest)) insns_off payload_pc switch_pc
        ≡ ok (packed_switch key ts)
  decode_packed_switch-emit_packed_switch_payload key ts emitted low high targets e fits =
      IfOk-eq _ _ (packed_switch-written key ts (as_signed-low_bits key low high) targets) e fits
