-- ===== src/Annotation/Walk/Opening.antt =====
-- The headers of composite values: what opens a frame where they were emitted.
use droidsaw_dex.Prelude.{
  ℕ, suc, ◌+◌, ◌*◌, ◌%◌, ◌≤◌, ◌<◌, ◌≡◌, refl, sym, ap, ap₂, ◌∙◌, arith, none, some, some-eq, ◌≢◌,
  List, [], ◌∷◌, ◌++◌, length, length-append, drop, take,
}
use droidsaw_dex.Prelude.Errors.{ok}
use droidsaw_dex.Prelude.Words.{u32_mod, usize_mod}
use droidsaw_dex.Prelude.Positions.{
  drop-suc, drop-past, drop-fits, take-drop, length-take, drop-within,
}
use droidsaw_dex.Decode.Payload.{BoundCount}
use droidsaw_dex.Leb.{Leb128, IsWriter, next_uleb128, read_uleb128}
use droidsaw_dex.Annotation.Value.{nil, end}
use droidsaw_dex.Annotation.Primitive.{decode_primitive_encoded_value, decode_arm, value_type_of}
use droidsaw_dex.Annotation.Numbers.{safe_add_lem, pread_u8-drop}
use droidsaw_dex.Annotation.ReadBack.{decode_header}
use droidsaw_dex.Annotation.Frames.{
  array_frame, annotation_frame, open_frame, open_kind, open_annotation, composite_of,
}

-- The documented behaviour of `bound_count`: a count whose items fit in the input passes.
pub record IsBoundCount (bound_count : BoundCount) : Type 0 where
  pub bound_count-fits :
      (got stride data_len : ℕ) → got * stride ≤ data_len → bound_count got stride data_len ≡ ok got

module _ (leb128 : Leb128) (writer : IsWriter leb128) where
  not_empty :
      (v other : ℕ) (ws : List ℕ)
      → v < u32_mod
      → other < u32_mod
      → v ≢ other
      → leb128.write_uleb128 v ≡ ws
      → 1 ≤ length ws
  not_empty v other (w ∷ ws) lt lt' differ e = omega arith
  not_empty v other [] lt lt' differ e =
      let behind = leb128.write_uleb128 other ++ [] in
      let own : leb128.uleb128 behind 0 ≡ some (v, 0) =
        rw e at (writer.uleb128-write [] behind v lt) in
      let its : leb128.uleb128 behind 0 ≡ some (other, length (leb128.write_uleb128 other)) =
        writer.uleb128-write [] [] other lt' in
      let same : some (v, 0) ≡ some (other, length (leb128.write_uleb128 other)) = sym own ∙ its in
      absurd (differ (ap (λ p. p.0) (some-eq _ _ same)))

  -- A number is written in at least one byte, for what follows would be read in its place.
  pub write_uleb128-positive : (v : ℕ) → v < u32_mod → 1 ≤ length (leb128.write_uleb128 v)
  write_uleb128-positive v lt =
      not_empty v (suc v % u32_mod) (leb128.write_uleb128 v) lt (omega arith) (λ e. omega arith)
        refl

  module _ (bytes : List ℕ) (short : length bytes < usize_mod) where
    pub next_uleb128-write :
        (at v : ℕ) (rest : List ℕ)
        → v < u32_mod
        → drop at bytes ≡ leb128.write_uleb128 v ++ rest
        → next_uleb128 leb128 bytes at ≡ ok (v, at + length (leb128.write_uleb128 v))
    unfolding next_uleb128 read_uleb128
    next_uleb128-write at v rest lt h =
        let written = leb128.write_uleb128 v in
        let counted = length-append written rest in
        let fits : at + length (written ++ rest) ≡ length bytes =
          drop-fits at bytes (written ++ rest) h
            (omega (arith, counted, write_uleb128-positive v lt)) in
        let before : length (take at bytes) ≡ at = length-take at bytes (omega arith) in
        let whole : take at bytes ++ (written ++ rest) ≡ bytes =
          ap (λ ys. take at bytes ++ ys) (sym h) ∙ take-drop at bytes in
        let read : leb128.uleb128 bytes at ≡ some (v, length written) =
          sym (ap₂ leb128.uleb128 whole before) ∙ writer.uleb128-write (take at bytes) rest v lt in
        rw (read, safe_add_lem at (length written) (omega (arith, counted))) refl

    module _ (bound_count : BoundCount) (bounds : IsBoundCount bound_count) (cur : ℕ) where
      pub decode_array :
          (rest : List ℕ)
          → drop cur bytes ≡ 0x1c ∷ rest
          → decode_primitive_encoded_value bytes cur ≡ ok (none, 0)
      unfolding decode_arm value_type_of
      decode_array rest h =
          decode_header bytes [] short cur 0x1c 1 (omega arith) (omega arith) (omega arith) rest h

      pub decode_annotation :
          (rest : List ℕ)
          → drop cur bytes ≡ 0x1d ∷ rest
          → decode_primitive_encoded_value bytes cur ≡ ok (none, 0)
      unfolding decode_arm value_type_of
      decode_annotation rest h =
          decode_header bytes [] short cur 0x1d 1 (omega arith) (omega arith) (omega arith) rest h

      pub open_frame-array :
          (count : ℕ) (rest : List ℕ)
          → count < u32_mod
          → count ≤ length bytes
          → drop cur bytes ≡ 0x1c ∷ (leb128.write_uleb128 count ++ rest)
          → open_frame leb128 bound_count bytes cur
            ≡ ok (array_frame cur count nil, suc cur + length (leb128.write_uleb128 count))
      unfolding open_frame open_kind composite_of
      open_frame-array count rest lt le h =
          let after : cur + 1 ≡ suc cur = omega arith in
          rw
            (
              pread_u8-drop bytes cur h,
              safe_add_lem cur 1 (omega (arith, drop-within cur bytes h)),
              after,
              next_uleb128-write (suc cur) count rest lt (drop-suc cur bytes h),
              bounds.bound_count-fits count 1 (length bytes) (omega arith),
            )
            refl

      pub open_annotation-write :
          (start at t count : ℕ) (rest : List ℕ)
          → t < u32_mod
          → count < u32_mod
          → count * 2 ≤ length bytes
          → drop at bytes ≡ leb128.write_uleb128 t ++ (leb128.write_uleb128 count ++ rest)
          → open_annotation leb128 bound_count bytes start at
            ≡ ok (
              annotation_frame start count t end none,
              at + length (leb128.write_uleb128 t) + length (leb128.write_uleb128 count),
            )
      unfolding open_annotation
      open_annotation-write start at t count rest t-lt lt le h =
          rw
            (
              next_uleb128-write at t (leb128.write_uleb128 count ++ rest) t-lt h,
              next_uleb128-write (at + length (leb128.write_uleb128 t)) count rest lt
                  (drop-past at bytes (leb128.write_uleb128 t) h),
              bounds.bound_count-fits count 2 (length bytes) le,
            )
            refl

      pub open_frame-annotation :
          (t count : ℕ) (rest : List ℕ)
          → t < u32_mod
          → count < u32_mod
          → count * 2 ≤ length bytes
          → drop cur bytes ≡ 0x1d ∷ (leb128.write_uleb128 t ++ (leb128.write_uleb128 count ++ rest))
          → open_frame leb128 bound_count bytes cur
            ≡ ok (
              annotation_frame cur count t end none,
              suc cur + length (leb128.write_uleb128 t) + length (leb128.write_uleb128 count),
            )
      unfolding open_frame open_kind composite_of
      open_frame-annotation t count rest t-lt lt le h =
          let after : cur + 1 ≡ suc cur = omega arith in
          rw
            (
              pread_u8-drop bytes cur h,
              safe_add_lem cur 1 (omega (arith, drop-within cur bytes h)),
              after,
            )
            (open_annotation-write cur (suc cur) t count rest t-lt lt le (drop-suc cur bytes h))
