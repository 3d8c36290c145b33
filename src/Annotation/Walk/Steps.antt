-- ===== src/Annotation/Walk/Steps.antt =====
-- One round of the loop over the frames, for each thing that can stand at the position.
use droidsaw_dex.Prelude.{
  ℕ, zero, suc, ◌+◌, ◌≤◌, ◌<◌, ◌≡◌, refl, sym, ◌∙◌, arith, true, false, Option, none, some, List,
  [], ◌∷◌, length, lt→ltb,
}
use droidsaw_dex.Prelude.Errors.{ok, err, ◌>>=◌, IfOk, IfOk-then}
use droidsaw_dex.Prelude.Words.{usize_mod}
use droidsaw_dex.Decode.Reader.{Res}
use droidsaw_dex.Decode.Payload.{BoundCount}
use droidsaw_dex.Leb.{Leb128, next_uleb128}
use droidsaw_dex.Annotation.Value.{EncodedValue}
use droidsaw_dex.Annotation.Primitive.{decode_primitive_encoded_value}
use droidsaw_dex.Annotation.Numbers.{safe_add_lem}
use droidsaw_dex.Annotation.Frames.{
  CollectorFrame, array_frame, annotation_frame, frame_is_complete, assemble_frame, read_name,
  put_child, deliver_to_top, open_frame,
}
use droidsaw_dex.Annotation.Walk.{
  Progress, returned, collecting, unwind, take_value, next_value, round, walk,
  parse_stack_frame_cap,
}

-- The frame takes a value next.
abbrev pub Waits : CollectorFrame → Type 0
Waits (array_frame start remaining children) = 1 ≤ remaining
Waits (annotation_frame start remaining type_idx elements none) = ⊥
Waits (annotation_frame start remaining type_idx elements (some name)) = Unit

Waits-incomplete : (frame : CollectorFrame) → Waits frame → frame_is_complete frame ≡ false
unfolding frame_is_complete
Waits-incomplete (array_frame start remaining children) h = ground arith
Waits-incomplete (annotation_frame start remaining type_idx elements none) h = absurd h
Waits-incomplete (annotation_frame start remaining type_idx elements (some name)) h = refl

module _ (leb128 : Leb128) (bytes : List ℕ) where
  -- No name is to be read.
  abbrev pub Settled : CollectorFrame × ℕ → Type 0
  Settled (frame, cur) = read_name leb128 bytes frame cur ≡ ok (frame, cur)

  Waits-Settled : (frame : CollectorFrame) (cur : ℕ) → Waits frame → Settled (frame, cur)
  unfolding read_name
  Waits-Settled (array_frame start remaining children) cur h = refl
  Waits-Settled (annotation_frame start remaining type_idx elements none) cur h = absurd h
  Waits-Settled (annotation_frame start zero type_idx elements (some name)) cur h = refl
  Waits-Settled (annotation_frame start (suc remaining) type_idx elements (some name)) cur h = refl

  pub read_name-Settled :
      (frame : CollectorFrame) (cur : ℕ) → IfOk Settled (read_name leb128 bytes frame cur)
  unfolding read_name
  read_name-Settled (array_frame start remaining children) cur = refl
  read_name-Settled (annotation_frame start zero type_idx elements none) cur = refl
  read_name-Settled (annotation_frame start (suc remaining) type_idx elements none) cur =
      IfOk-then Settled (next_uleb128 leb128 bytes cur) _ λ r. refl
  read_name-Settled (annotation_frame start zero type_idx elements (some name)) cur = refl
  read_name-Settled (annotation_frame start (suc remaining) type_idx elements (some name)) cur =
      refl

  deliver_to_top-Settled :
      (frame : CollectorFrame) (cur : ℕ) (v : EncodedValue)
      → IfOk Settled (deliver_to_top leb128 bytes frame cur v)
  unfolding deliver_to_top
  deliver_to_top-Settled frame cur v =
      IfOk-then Settled (put_child leb128 bytes frame v) _ λ f. read_name-Settled f cur

  module _ (top : CollectorFrame) (cur : ℕ) where
    pub unwind-delivers :
        (below : CollectorFrame) (stack : List CollectorFrame)
        → frame_is_complete top ≡ true
        → unwind leb128 bytes top (below ∷ stack) cur ≡ (
            deliver_to_top leb128 bytes below cur (assemble_frame top) >>= λ (top', cur').
            unwind leb128 bytes top' stack cur')
    unfolding unwind
    unwind-delivers below stack complete = rw (complete, unwind) refl

    pub unwind-returns :
        frame_is_complete top ≡ true
        → unwind leb128 bytes top [] cur ≡ ok (returned (assemble_frame top) cur)
    unfolding unwind
    unwind-returns complete = rw (complete, unwind) refl

    pub unwind-rests :
        (stack : List CollectorFrame)
        → frame_is_complete top ≡ false
        → unwind leb128 bytes top stack cur ≡ ok (collecting top stack cur)
    unfolding unwind
    unwind-rests [] waits = rw (waits, unwind) refl
    unwind-rests (below ∷ stack) waits = rw (waits, unwind) refl

module _ (leb128 : Leb128) (bound_count : BoundCount) (bytes : List ℕ) where
  abbrev pub walks : ℕ → CollectorFrame → List CollectorFrame → ℕ → Res Progress
  walks rounds top stack cur = walk leb128 bound_count bytes rounds (collecting top stack cur)

  -- What a round does once no name is to be read.
  unwinds : ℕ → CollectorFrame → List CollectorFrame → ℕ → Res Progress
  unwinds rounds top stack cur =
      (unwind leb128 bytes top stack cur >>= next_value leb128 bound_count bytes)
      >>= walk leb128 bound_count bytes rounds

  walks-unwinds :
      (rounds : ℕ) (top : CollectorFrame) (stack : List CollectorFrame) (cur : ℕ)
      → Settled leb128 bytes (top, cur)
      → walks (suc rounds) top stack cur ≡ unwinds rounds top stack cur
  unfolding walk round unwinds
  walks-unwinds rounds top stack cur settled = rw settled refl

  module _ (rounds : ℕ) (stack : List CollectorFrame) where
    after_name :
        (r : Res (CollectorFrame × ℕ))
        → IfOk (Settled leb128 bytes) r
        → ((r >>= λ (top, cur).
              unwind leb128 bytes top stack cur >>= next_value leb128 bound_count bytes)
            >>= walk leb128 bound_count bytes rounds)
          ≡ (r >>= λ (top, cur). walks (suc rounds) top stack cur)
    unfolding unwinds
    after_name (ok (top, cur)) h = sym (walks-unwinds rounds top stack cur h)
    after_name (err e) h = refl

    after_delivery :
        (r : Res (CollectorFrame × ℕ))
        → IfOk (Settled leb128 bytes) r
        → (((r >>= λ (top, cur). unwind leb128 bytes top stack cur)
              >>= next_value leb128 bound_count bytes)
            >>= walk leb128 bound_count bytes rounds)
          ≡ (r >>= λ (top, cur). walks (suc rounds) top stack cur)
    unfolding unwinds
    after_delivery (ok (top, cur)) h = sym (walks-unwinds rounds top stack cur h)
    after_delivery (err e) h = refl

    then_walks :
        (r : Res (CollectorFrame × ℕ))
        → ((r >>= λ (top, cur). ok (collecting top stack cur))
            >>= walk leb128 bound_count bytes rounds)
          ≡ (r >>= λ (top, cur). walks rounds top stack cur)
    then_walks (ok p) = refl
    then_walks (err e) = refl

    pub walks_named :
        (top : CollectorFrame) (cur : ℕ)
        → walks (suc rounds) top stack cur
          ≡ (read_name leb128 bytes top cur >>= λ (top', cur'). walks (suc rounds) top' stack cur')
    unfolding walk round
    walks_named top cur =
        after_name (read_name leb128 bytes top cur) (read_name-Settled leb128 bytes top cur)

  module _ (rounds : ℕ) (top : CollectorFrame) (cur : ℕ) where
    -- A frame that is complete is delivered to the one below.
    pub walks_delivered :
        (below : CollectorFrame) (stack : List CollectorFrame)
        → frame_is_complete top ≡ true
        → Settled leb128 bytes (top, cur)
        → walks (suc rounds) top (below ∷ stack) cur ≡ (
            deliver_to_top leb128 bytes below cur (assemble_frame top) >>= λ (top', cur').
            walks (suc rounds) top' stack cur')
    unfolding unwinds
    walks_delivered below stack complete settled =
        walks-unwinds rounds top (below ∷ stack) cur settled
        ∙ rw (unwind-delivers leb128 bytes top cur below stack complete, unwinds)
            (after_delivery rounds stack
              (deliver_to_top leb128 bytes below cur (assemble_frame top))
              (deliver_to_top-Settled leb128 bytes below cur (assemble_frame top)))

    pub walks_finished :
        frame_is_complete top ≡ true
        → Settled leb128 bytes (top, cur)
        → walks (suc rounds) top [] cur ≡ ok (returned (assemble_frame top) cur)
    unfolding unwinds next_value walk
    walks_finished complete settled =
        walks-unwinds rounds top [] cur settled
        ∙ rw (unwind-returns leb128 bytes top cur complete, unwinds) refl

    -- A frame that waits takes what is decoded.
    pub walks_taken :
        (stack : List CollectorFrame) (decoded : Option EncodedValue × ℕ)
        → Waits top
        → decode_primitive_encoded_value bytes cur ≡ ok decoded
        → walks (suc rounds) top stack cur ≡ (
            take_value leb128 bound_count bytes decoded (collecting top stack cur)
            >>= walk leb128 bound_count bytes rounds)
    unfolding unwinds next_value
    walks_taken stack decoded waits e =
        walks-unwinds rounds top stack cur (Waits-Settled leb128 bytes top cur waits)
        ∙ rw (unwind-rests leb128 bytes top cur stack (Waits-incomplete top waits), unwinds)
            (rw (e, next_value) refl)

    -- A value that holds no others is delivered at once.
    pub walks_value :
        (stack : List CollectorFrame) (v : EncodedValue) (advance : ℕ)
        → Waits top
        → decode_primitive_encoded_value bytes cur ≡ ok (some v, advance)
        → cur + advance < usize_mod
        → walks (suc rounds) top stack cur ≡ (
            deliver_to_top leb128 bytes top (cur + advance) v >>= λ (top', cur').
            walks rounds top' stack cur')
    unfolding take_value
    walks_value stack v advance waits e fits =
        walks_taken stack (some v, advance) waits e
        ∙ rw (safe_add_lem cur advance fits) (then_walks rounds stack _)

    -- For a composite value a frame is pushed.
    pub walks_opened :
        (stack : List CollectorFrame) (frame : CollectorFrame) (body : ℕ)
        → Waits top
        → decode_primitive_encoded_value bytes cur ≡ ok (none, 0)
        → length (top ∷ stack) < parse_stack_frame_cap
        → open_frame leb128 bound_count bytes cur ≡ ok (frame, body)
        → walks (suc rounds) top stack cur ≡ walks rounds frame (top ∷ stack) body
    unfolding take_value
    walks_opened stack frame body waits e room opened =
        walks_taken stack (none, 0) waits e ∙ rw (lt→ltb _ _ room, opened) refl
