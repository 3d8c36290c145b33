-- ===== src/Annotation/Items/Directory.antt =====
-- An annotation set and an annotation directory that are emitted are parsed to what they were emitted
-- from.
use mathlib.Core.List.{append_assoc}
use droidsaw_dex.Prelude.{
  ℕ, ◌+◌, ◌*◌, ◌%◌, ◌≤◌, ◌<◌, ◌≡◌, refl, sym, ap, ◌∙◌, arith, List, [], ◌∷◌, ◌++◌, All, length,
  length-append, drop, false, ◌==◌, map,
}
use droidsaw_dex.Prelude.Errors.{ok, bind-ok, ok-eq}
use droidsaw_dex.Prelude.Words.{u32_mod, usize_mod}
use droidsaw_dex.Prelude.Positions.{drop-past, drop-covers}
use droidsaw_dex.Decode.Payload.{BoundCount}
use droidsaw_dex.Annotation.Walk.Opening.{IsBoundCount}
use droidsaw_dex.Annotation.Items.{
  AnnotationDirectoryItem, parse_directory, parse_annotation_set, within_input,
}
use droidsaw_dex.Annotation.Items.Entries.{
  IsU32Pair, length-entry_bytes, length-offset_bytes, next_u32-le_bytes, read_entries-entry_bytes,
  read_offsets-offset_bytes,
}
use droidsaw_dex.Emit.Payload.{le_bytes, size_below}
use droidsaw_dex.Emit.Value.Refine.{size_below-ok}
use droidsaw_dex.Emit.Annotation.{
  offset_bytes, entry_bytes, with_offsets, emit_annotation_set_bytes,
  emit_annotation_directory_bytes,
}

-- A set that stands anywhere but at the start of the input is read back.
pub parse_annotation_set-emit_annotation_set_bytes :
    (bound_count : BoundCount) (bytes offs rest : List ℕ) (at : ℕ)
    → IsBoundCount bound_count
    → length bytes < usize_mod
    → All (λ off. off < u32_mod) offs
    → length offs < u32_mod
    → 1 ≤ at
    → drop at bytes ≡ emit_annotation_set_bytes offs ++ rest
    → parse_annotation_set bound_count bytes at ≡ ok offs
unfolding parse_annotation_set emit_annotation_set_bytes
parse_annotation_set-emit_annotation_set_bytes bound_count bytes offs rest at bounds fits small few
      one h =
    let elsewhere : (at == 0) ≡ false = ground arith in
    let whole : length offs % u32_mod ≡ length offs = omega arith in
    let parts : drop at bytes ≡ le_bytes (length offs) ++ (offset_bytes offs ++ rest) =
      rw whole at h in
    let covered =
      drop-covers at bytes (le_bytes (length offs) ++ offset_bytes offs) rest parts (omega arith) in
    rw (elsewhere, parse_annotation_set)
      (rw
        (
          next_u32-le_bytes bytes fits at (length offs) (offset_bytes offs ++ rest) few parts,
          bounds.bound_count-fits (length offs) 4 (length bytes)
              (omega (arith, covered, length-offset_bytes offs)),
        )
        (read_offsets-offset_bytes bytes fits offs (at + 4) rest small
          (drop-past at bytes (le_bytes (length offs)) parts)))

length-with_offsets :
    (es : List (ℕ × ℕ)) (offs : List ℕ)
    → length offs ≡ length es
    → length (with_offsets es offs) ≡ length es
unfolding with_offsets
length-with_offsets [] offs e = refl
length-with_offsets ((idx, off) ∷ es) [] e = absurd (omega arith)
length-with_offsets ((idx, off) ∷ es) (abs ∷ offs) e =
    omega (arith, length-with_offsets es offs (omega arith))

with_offsets-u32 :
    (es : List (ℕ × ℕ)) (offs : List ℕ)
    → All IsU32Pair es
    → All (λ off. off < u32_mod) offs
    → All IsU32Pair (with_offsets es offs)
unfolding with_offsets
with_offsets-u32 [] offs h k = tt
with_offsets-u32 (e ∷ es) [] h k = tt
with_offsets-u32 ((idx, off) ∷ es) (abs ∷ offs) h k =
    ((h.0.0, k.0), with_offsets-u32 es offs h.1 k.1)

within_input_lem :
    (combined data_len : ℕ) → combined * 8 ≤ data_len → within_input combined data_len ≡ ok tt
unfolding within_input
within_input_lem combined data_len le = ground arith

-- The fields of a directory, one after the other.
layout : ℕ → List (ℕ × ℕ) → List (ℕ × ℕ) → List (ℕ × ℕ) → List ℕ
layout c fs ms ps =
    le_bytes c
    ++ (le_bytes (length fs)
        ++ (le_bytes (length ms)
            ++ (le_bytes (length ps) ++ (entry_bytes fs ++ (entry_bytes ms ++ entry_bytes ps)))))

module _ (bound_count : BoundCount) (bounds : IsBoundCount bound_count) (bytes : List ℕ)
    (fits : length bytes < usize_mod) where
  parse_directory-layout :
      (at c : ℕ) (fs ms ps : List (ℕ × ℕ)) (rest : List ℕ)
      → c < u32_mod
      → All IsU32Pair fs
      → All IsU32Pair ms
      → All IsU32Pair ps
      → length fs < u32_mod
      → length ms < u32_mod
      → length ps < u32_mod
      → drop at bytes ≡ layout c fs ms ps ++ rest
      → parse_directory bound_count bytes at
        ≡ ok (record { class_annotations_off = c; fields = fs; methods = ms; parameters = ps })
  unfolding parse_directory layout
  parse_directory-layout at c fs ms ps rest c-lt fs-u32 ms-u32 ps-u32 fs-lt ms-lt ps-lt h =
      let fb = entry_bytes fs in
      let mb = entry_bytes ms in
      let pb = entry_bytes ps in
      let at1 = at + 4 in
      let at2 = at1 + 4 in
      let at3 = at2 + 4 in
      let at4 = at3 + 4 in
      let at5 = at4 + length fb in
      let at6 = at5 + length mb in
      let h0 : drop at bytes
          ≡ le_bytes c
            ++ (le_bytes (length fs)
                ++ (le_bytes (length ms)
                    ++ (le_bytes (length ps) ++ (fb ++ (mb ++ (pb ++ rest)))))) =
        h
        ∙ ap
            (λ ys.
              le_bytes c
              ++ (le_bytes (length fs) ++ (le_bytes (length ms) ++ (le_bytes (length ps) ++ ys))))
            (append_assoc fb (mb ++ pb) rest ∙ ap (λ ys. fb ++ ys) (append_assoc mb pb rest)) in
      let h1 = drop-past at bytes (le_bytes c) h0 in
      let h2 = drop-past at1 bytes (le_bytes (length fs)) h1 in
      let h3 = drop-past at2 bytes (le_bytes (length ms)) h2 in
      let h4 : drop at4 bytes ≡ fb ++ (mb ++ (pb ++ rest)) =
        drop-past at3 bytes (le_bytes (length ps)) h3 in
      let h5 : drop at5 bytes ≡ mb ++ (pb ++ rest) = drop-past at4 bytes fb h4 in
      let h6 : drop at6 bytes ≡ pb ++ rest = drop-past at5 bytes mb h5 in
      let covered = drop-covers at bytes (layout c fs ms ps) rest h (omega arith) in
      let counted = length-append fb (mb ++ pb) in
      let counted' = length-append mb pb in
      let room : (length fs + length ms + length ps) * 8 ≤ length bytes = omega (
        arith,
        covered,
        counted,
        counted',
        length-entry_bytes fs,
        length-entry_bytes ms,
        length-entry_bytes ps,
      ) in
      rw
        (
          next_u32-le_bytes bytes fits at c _ c-lt h0,
          next_u32-le_bytes bytes fits at1 (length fs) _ fs-lt h1,
          next_u32-le_bytes bytes fits at2 (length ms) _ ms-lt h2,
          next_u32-le_bytes bytes fits at3 (length ps) _ ps-lt h3,
          within_input_lem (length fs + length ms + length ps) (length bytes) room,
          bounds.bound_count-fits (length fs) 8 (length bytes) (omega arith),
          read_entries-entry_bytes bytes fits fs at4 _ fs-u32 h4,
          bounds.bound_count-fits (length ms) 8 (length bytes) (omega arith),
          read_entries-entry_bytes bytes fits ms at5 _ ms-u32 h5,
          bounds.bound_count-fits (length ps) 8 (length bytes) (omega arith),
          read_entries-entry_bytes bytes fits ps at6 _ ps-u32 h6,
        )
        refl

-- Every number of a directory is a u32, and there are as many new offsets as entries.
abbrev pub AreOffsets : List (ℕ × ℕ) → List ℕ → Type 0
AreOffsets es offs = (length offs ≡ length es) × All IsU32Pair es × All (λ off. off < u32_mod) offs

emit_annotation_directory_bytes-layout :
    (dir : AnnotationDirectoryItem) (c : ℕ) (fs ms ps out : List ℕ)
    → length fs ≡ length dir.fields
    → length ms ≡ length dir.methods
    → length ps ≡ length dir.parameters
    → emit_annotation_directory_bytes dir c fs ms ps ≡ ok out
    → (layout c
          (with_offsets dir.fields fs)
          (with_offsets dir.methods ms)
          (with_offsets dir.parameters ps)
        ≡ out)
      × (length (with_offsets dir.fields fs) < u32_mod)
      × (length (with_offsets dir.methods ms) < u32_mod)
      × (length (with_offsets dir.parameters ps) < u32_mod)
unfolding emit_annotation_directory_bytes layout
emit_annotation_directory_bytes-layout dir c fs ms ps out ef em ep h =
    let (f, sized_f, h1) = bind-ok (size_below u32_mod (length dir.fields)) _ h in
    let (m, sized_m, h2) = bind-ok (size_below u32_mod (length dir.methods)) _ h1 in
    let (p, sized_p, h3) = bind-ok (size_below u32_mod (length dir.parameters)) _ h2 in
    let kf = size_below-ok u32_mod (length dir.fields) f sized_f in
    let km = size_below-ok u32_mod (length dir.methods) m sized_m in
    let kp = size_below-ok u32_mod (length dir.parameters) p sized_p in
    let lf = length-with_offsets dir.fields fs ef in
    let lm = length-with_offsets dir.methods ms em in
    let lp = length-with_offsets dir.parameters ps ep in
    let f-same : length (with_offsets dir.fields fs) ≡ f = lf ∙ sym kf.0 in
    let m-same : length (with_offsets dir.methods ms) ≡ m = lm ∙ sym km.0 in
    let p-same : length (with_offsets dir.parameters ps) ≡ p = lp ∙ sym kp.0 in
    (
      rw (f-same, m-same, p-same) (ok-eq h3),
      omega (arith, kf.1, lf),
      omega (arith, km.1, lm),
      omega (arith, kp.1, lp),
    )

-- The entries `moved` are those of `es` with their indices, in their order, and with the offsets `offs`.
abbrev pub HasMoved : List (ℕ × ℕ) → List ℕ → List (ℕ × ℕ) → Type 0
HasMoved es offs moved =
    (map (λ (e : ℕ × ℕ). e.0) moved ≡ map (λ (e : ℕ × ℕ). e.0) es)
    × (map (λ (e : ℕ × ℕ). e.1) moved ≡ offs)

with_offsets-HasMoved :
    (es : List (ℕ × ℕ)) (offs : List ℕ)
    → length offs ≡ length es
    → HasMoved es offs (with_offsets es offs)
unfolding with_offsets
with_offsets-HasMoved [] [] e = (refl, refl)
with_offsets-HasMoved [] (abs ∷ offs) e = absurd (omega arith)
with_offsets-HasMoved ((idx, off) ∷ es) [] e = absurd (omega arith)
with_offsets-HasMoved ((idx, off) ∷ es) (abs ∷ offs) e =
    let (indices, offsets) = with_offsets-HasMoved es offs (omega arith) in
    (ap (λ is. idx ∷ is) indices, ap (λ os. abs ∷ os) offsets)

-- A directory that is emitted with new offsets, one for each of its entries, is parsed, wherever it
-- stands in an input below the machine's address space, to a directory with the new offset of the
-- class annotations, and with fields, methods and parameters that have the indices of the old ones,
-- in their order, and the new offsets. All numbers are u32.
pub parse_directory-emit_annotation_directory_bytes :
    (bound_count : BoundCount) (dir : AnnotationDirectoryItem) (c at : ℕ)
    (fs ms ps out bytes rest : List ℕ)
    → IsBoundCount bound_count
    → length bytes < usize_mod
    → c < u32_mod
    → AreOffsets dir.fields fs
    → AreOffsets dir.methods ms
    → AreOffsets dir.parameters ps
    → emit_annotation_directory_bytes dir c fs ms ps ≡ ok out
    → drop at bytes ≡ out ++ rest
    → (parsed : AnnotationDirectoryItem) × (parse_directory bound_count bytes at ≡ ok parsed)
      × (parsed.class_annotations_off ≡ c)
      × HasMoved dir.fields fs parsed.fields
      × HasMoved dir.methods ms parsed.methods
      × HasMoved dir.parameters ps parsed.parameters
parse_directory-emit_annotation_directory_bytes bound_count dir c at fs ms ps out bytes rest bounds
      fits c-lt f m p emitted h =
    let (laid, f-lt, m-lt, p-lt) =
      emit_annotation_directory_bytes-layout dir c fs ms ps out f.0 m.0 p.0 emitted in
    (
      _,
      parse_directory-layout bound_count bounds bytes fits at c (with_offsets dir.fields fs)
          (with_offsets dir.methods ms) (with_offsets dir.parameters ps) rest c-lt
          (with_offsets-u32 dir.fields fs f.1 f.2) (with_offsets-u32 dir.methods ms m.1 m.2)
          (with_offsets-u32 dir.parameters ps p.1 p.2) f-lt m-lt p-lt
          (h ∙ ap (λ ys. ys ++ rest) (sym laid)),
      refl,
      with_offsets-HasMoved dir.fields fs f.0,
      with_offsets-HasMoved dir.methods ms m.0,
      with_offsets-HasMoved dir.parameters ps p.0,
    )
