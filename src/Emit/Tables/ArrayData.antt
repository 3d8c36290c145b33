-- ===== src/Emit/Tables/ArrayData.antt =====
-- The round trip of array data.
use native.Mathlib.Nat.{mod-add-div'}
use mathlib.Core.List.{append_assoc, append-nil}
use droidsaw_dex.Prelude.{
  ℕ, zero, suc, ◌+◌, ◌*◌, ◌/◌, ◌%◌, ◌^◌, ◌<◌, ◌≤◌, ◌≡◌, refl, sym, ap, ◌∙◌, subst, arith, Bool,
  true, false, List, [], ◌∷◌, ◌++◌, length, length-append, take, drop, ltb, ◌==◌, if◌then◌else◌,
  Bool-cases, inl, inr,
}
use droidsaw_dex.Prelude.Errors.{ok, guard, IfOk, IfOk-bind, IfOk-eq}
use droidsaw_dex.Prelude.Words.{u16_mod, u32_mod, usize_mod}
use droidsaw_dex.Decode.Reader.Bounds.{read_unit-append, drop-append}
use droidsaw_dex.Decode.Reader.{le_u16, pread_u32, read_unit, safe_mul}
use droidsaw_dex.Decode.Item.{fill_array_data}
use droidsaw_dex.Decode.Payload.{is_width, decode_fill_array_data}
use droidsaw_dex.Emit.Operands.{push_u16, unrepresentable_ir}
use droidsaw_dex.Emit.Payload.{
  le_bytes, push_u32, size_below, pad_unit, emit_fill_array_data_payload,
}
use droidsaw_dex.Emit.Tables.{pread_u32-le_bytes, safe_add-fits}
use droidsaw_dex.Emit.Tables.PackedSwitch.{size_below-fits, payload_base-fits}

abbrev array_head : ℕ → ℕ → List ℕ
array_head width count = 0x00 ∷ 0x03 ∷ width % 2 ^ 8 ∷ width / 2 ^ 8 ∷ le_bytes count

take-length {ℓ} : {A : Type ℓ} (xs ys : List A) (n : ℕ) → n ≡ length xs → take n (xs ++ ys) ≡ xs
take-length [] ys zero e = refl
take-length [] ys (suc n) e = absurd (omega arith)
take-length (x ∷ xs) ys zero e = absurd (omega arith)
take-length (x ∷ xs) ys (suc n) e = ap (λ zs. x ∷ zs) (take-length xs ys n (omega arith))

safe_mul-fits : (a b : ℕ) → a * b < usize_mod → safe_mul a b ≡ ok (a * b)
unfolding safe_mul
safe_mul-fits a b h = ground arith

not_past : (len end : ℕ) → end ≤ len → ltb len end ≡ false
not_past len end h = ground arith

-- The bytes behind the elements: the padding, if there is any.
unfoldable padding : ℕ → List ℕ
padding n = if n % 2 == 0 then [] else 0 ∷ []

pad_unit-padding : (n : ℕ) (out : List ℕ) → pad_unit n out ≡ out ++ padding n
unfolding pad_unit padding
pad_unit-padding n out = elim (Bool-cases (n % 2 == 0)) [
  | inl even ↦ rw (even, pad_unit, padding) (sym (append-nil out))
  | inr odd ↦ rw (odd, pad_unit, padding) refl
]

guard-true : (b : Bool) → IfOk (λ u. b ≡ true) (guard b unrepresentable_ir)
guard-true true = refl
guard-true false = tt

whole_count : (n w : ℕ) → (n % w == 0) ≡ true → n / w * w ≡ n
whole_count n w h =
    let none_left : n % w ≡ 0 = ground (arith, h) in omega (arith, none_left, mod-add-div' n w)

is_width-lt : (w : ℕ) → is_width w ≡ true → w < u16_mod
unfolding is_width
is_width-lt w h = ground arith

module _ (pre rest : List ℕ) (insns_off payload_pc : ℕ)
    (placed : length pre ≡ insns_off + payload_pc * 2) (pc_fits : payload_pc + 1 < u32_mod) where
  array_data-reads :
      (width count : ℕ) (elements pad : List ℕ)
      → is_width width ≡ true
      → count < u32_mod
      → count * width ≡ length elements
      → length pre + 8 + length elements < usize_mod
      → decode_fill_array_data
          (pre ++ (((array_head width count ++ elements) ++ pad) ++ rest))
          insns_off
          payload_pc
        ≡ ok (fill_array_data width elements)
  unfolding decode_fill_array_data
  array_data-reads width count elements pad legal small total fits =
      let head = array_head width count in
      let mark = 0x00 ∷ 0x03 ∷ width % 2 ^ 8 ∷ width / 2 ^ 8 ∷ [] in
      let bytes = pre ++ (((head ++ elements) ++ pad) ++ rest) in
      let base = insns_off + payload_pc * 2 in
      let width_read : read_unit bytes insns_off payload_pc 1 ≡ ok width =
        read_unit-append pre (((head ++ elements) ++ pad) ++ rest) insns_off payload_pc 1 placed
          pc_fits (omega arith)
        ∙ (unfold le_u16 in ap ok (omega arith)) in
      let size_read : pread_u32 bytes (base + 4) ≡ ok count =
        subst (λ b. pread_u32 b (base + 4) ≡ ok count)
          (append_assoc pre mark (le_bytes count ++ ((elements ++ pad) ++ rest)))
          (pread_u32-le_bytes (pre ++ mark) ((elements ++ pad) ++ rest) (base + 4) count
            (omega (arith, length-append pre mark)) small) in
      let inside : ltb (length bytes) (base + 8 + count * width) ≡ false =
        not_past (length bytes) (base + 8 + count * width) (
          omega (
            arith,
            length-append pre (((head ++ elements) ++ pad) ++ rest),
            length-append (elements ++ pad) rest,
            length-append elements pad,
          )) in
      let data_read : take (count * width) (drop (base + 8) bytes) ≡ elements =
        ap (take (count * width)) (
          drop-append pre (((head ++ elements) ++ pad) ++ rest) (base + 8) 8 (omega arith)
          ∙ append_assoc elements pad rest)
        ∙ take-length elements (pad ++ rest) (count * width) total in
      rw (
        width_read,
        legal,
        payload_base-fits insns_off payload_pc (omega arith),
        safe_add-fits base 4 (omega arith),
        size_read,
        safe_add-fits base 8 (omega arith),
        safe_mul-fits count width (omega arith),
        safe_add-fits (base + 8) (count * width) (omega arith),
        inside,
        data_read,
      )

  array_data-written :
      (width : ℕ) (elements : List ℕ)
      → IfOk
          (λ emitted.
            length pre + length emitted < usize_mod
            → decode_fill_array_data (pre ++ (emitted ++ rest)) insns_off payload_pc
              ≡ ok (fill_array_data width elements))
          (emit_fill_array_data_payload [] width elements)
  unfolding emit_fill_array_data_payload push_u16 push_u32
  array_data-written width elements =
      let n = length elements in
      IfOk-bind (λ u. is_width width ≡ true) _ (guard (is_width width) unrepresentable_ir) _
        (guard-true (is_width width))
        λ u legal.
          IfOk-bind (λ u'. (n % width == 0) ≡ true) _ (guard (n % width == 0) unrepresentable_ir) _
            (guard-true (n % width == 0))
            λ u' whole.
              IfOk-bind _ _ (size_below u32_mod (n / width)) _ (size_below-fits u32_mod (n / width))
                λ count below fits.
                  let head = array_head width count in
                  let placed_at : pad_unit n (head ++ elements)
                      ≡ (array_head width (n / width) ++ elements) ++ padding n =
                    pad_unit-padding n (head ++ elements)
                    ∙ ap (λ c. (array_head width c ++ elements) ++ padding n) below.0 in
                  subst
                    (λ e.
                      decode_fill_array_data (pre ++ (e ++ rest)) insns_off payload_pc
                      ≡ ok (fill_array_data width elements))
                    (sym placed_at)
                    (array_data-reads width (n / width) elements (padding n) legal below.1
                      (whole_count n width whole)
                      (let total : length pre
                              + length ((array_head width (n / width) ++ elements) ++ padding n)
                            < usize_mod =
                          subst (λ e. length pre + length e < usize_mod) placed_at fits in
                        omega (arith, total, length-append elements (padding n))))

  -- Array data that are emitted decode, where they are put and in front of anything, to the width and
  -- the bytes that were emitted, without the byte that fills up the last unit. This is for offsets
  -- that fit in a usize.
  pub decode_fill_array_data-emit_fill_array_data_payload :
      (width : ℕ) (elements emitted : List ℕ)
      → emit_fill_array_data_payload [] width elements ≡ ok emitted
      → length pre + length emitted < usize_mod
      → decode_fill_array_data (pre ++ (emitted ++ rest)) insns_off payload_pc
        ≡ ok (fill_array_data width elements)
  decode_fill_array_data-emit_fill_array_data_payload width elements emitted e fits =
      IfOk-eq _ _ (array_data-written width elements) e fits
