-- ===== src/Annotation/Walk/Enough.antt =====
-- The loop over the frames needs one round more than there are bytes, whatever the bytes are.
use droidsaw_dex.Prelude.{
  ℕ, zero, suc, ◌+◌, ◌%◌, ◌^◌, ◌≤◌, ◌<◌, arith, inl, inr, Bool-cases, Option, none, some, List, [],
  ◌∷◌, length, ltb,
}
use droidsaw_dex.Prelude.Errors.{guard, IfOk, IfOk-bind, IfOk-then, IfOk-map}
use droidsaw_dex.Decode.Reader.{safe_add, work_stack_exhausted}
use droidsaw_dex.Decode.Payload.{BoundCount}
use droidsaw_dex.Leb.{Leb128, next_uleb128}
use droidsaw_dex.Debug.Rounds.{next_uleb128-le, safe_add-IfOk}
use droidsaw_dex.Annotation.Value.{EncodedValue}
use droidsaw_dex.Annotation.Primitive.{pread_u8, decode_primitive_encoded_value}
use droidsaw_dex.Annotation.Advances.{Advances, decode-Advances}
use droidsaw_dex.Annotation.Frames.{
  CollectorFrame, array_frame, annotation_frame, frame_is_complete, assemble_frame, read_name,
  put_child, deliver_to_top, Composite, opens_array, opens_annotation, opens_nothing, composite_of,
  open_annotation, open_kind, open_frame,
}
use droidsaw_dex.Annotation.Walk.{
  Progress, returned, collecting, unwind, take_value, next_value, round, walk,
  parse_stack_frame_cap,
}
use droidsaw_dex.Annotation.Walk.Steps.{unwind-delivers, unwind-returns, unwind-rests}

module _ (leb128 : Leb128) (bytes : List ℕ) where
  read_name-le :
      (frame : CollectorFrame) (lo cur : ℕ)
      → lo ≤ cur
      → IfOk (λ p. lo ≤ p.1) (read_name leb128 bytes frame cur)
  unfolding read_name
  read_name-le (array_frame start remaining children) lo cur le = le
  read_name-le (annotation_frame start zero t elements none) lo cur le = le
  read_name-le (annotation_frame start (suc k) t elements none) lo cur le =
      IfOk-bind _ _ (next_uleb128 leb128 bytes cur) _ (next_uleb128-le leb128 bytes lo cur le)
        λ r k. k
  read_name-le (annotation_frame start zero t elements (some name)) lo cur le = le
  read_name-le (annotation_frame start (suc k) t elements (some name)) lo cur le = le

  deliver_to_top-le :
      (frame : CollectorFrame) (lo cur : ℕ) (v : EncodedValue)
      → lo ≤ cur
      → IfOk (λ p. lo ≤ p.1) (deliver_to_top leb128 bytes frame cur v)
  unfolding deliver_to_top
  deliver_to_top-le frame lo cur v le =
      IfOk-then _ (put_child leb128 bytes frame v) _ λ f. read_name-le f lo cur le

  -- The loop is over, or has come at least this far.
  abbrev Past : ℕ → Progress → Type 0
  Past lo (returned v cur) = Unit
  Past lo (collecting top stack cur) = lo ≤ cur

  unwind-Past :
      (top : CollectorFrame) (stack : List CollectorFrame) (lo cur : ℕ)
      → lo ≤ cur
      → IfOk (Past lo) (unwind leb128 bytes top stack cur)
  unwind-Past top [] lo cur le = elim (Bool-cases (frame_is_complete top)) [
    | inl complete ↦ rw (unwind-returns leb128 bytes top cur complete) tt
    | inr waits ↦ rw (unwind-rests leb128 bytes top cur [] waits) le
  ]
  unwind-Past top (below ∷ stack) lo cur le = elim (Bool-cases (frame_is_complete top)) [
    | inl complete ↦ rw (unwind-delivers leb128 bytes top cur below stack complete) (
        IfOk-bind _ _ (deliver_to_top leb128 bytes below cur (assemble_frame top)) _
          (deliver_to_top-le below lo cur (assemble_frame top) le)
          λ p k. unwind-Past p.0 stack lo p.1 k)
    | inr waits ↦ rw (unwind-rests leb128 bytes top cur (below ∷ stack) waits) le
  ]

module _ (leb128 : Leb128) (bound_count : BoundCount) (bytes : List ℕ) where
  open_annotation-le :
      (start lo cur : ℕ)
      → lo ≤ cur
      → IfOk (λ p. lo ≤ p.1) (open_annotation leb128 bound_count bytes start cur)
  unfolding open_annotation
  open_annotation-le start lo cur le =
      IfOk-bind _ _ (next_uleb128 leb128 bytes cur) _ (next_uleb128-le leb128 bytes lo cur le)
        λ a ka.
          IfOk-bind _ _ (next_uleb128 leb128 bytes a.1) _ (next_uleb128-le leb128 bytes lo a.1 ka)
            λ b kb. IfOk-then _ (bound_count b.0 2 (length bytes)) _ λ count. kb

  open_kind-le :
      (kind : Composite) (header start lo cur : ℕ)
      → lo ≤ cur
      → IfOk (λ p. lo ≤ p.1) (open_kind leb128 bound_count bytes kind header start cur)
  unfolding open_kind
  open_kind-le opens_array header start lo cur le =
      IfOk-bind _ _ (next_uleb128 leb128 bytes cur) _ (next_uleb128-le leb128 bytes lo cur le)
        λ a ka. IfOk-then _ (bound_count a.0 1 (length bytes)) _ λ count. ka
  open_kind-le opens_annotation header start lo cur le = open_annotation-le start lo cur le
  open_kind-le opens_nothing header start lo cur le = tt

  open_frame-le : (cur : ℕ) → IfOk (λ p. suc cur ≤ p.1) (open_frame leb128 bound_count bytes cur)
  unfolding open_frame
  open_frame-le cur = IfOk-then _ (pread_u8 bytes cur) _ λ header.
      IfOk-bind _ _ (safe_add cur 1) _ (safe_add-IfOk cur 1) λ after k.
        open_kind-le (composite_of (header % 2 ^ 5)) header cur (suc cur) after (omega arith)

  take_value-Past :
      (decoded : Option EncodedValue × ℕ) (top : CollectorFrame) (stack : List CollectorFrame)
      (cur : ℕ)
      → Advances decoded
      → IfOk
          (Past leb128 bytes (suc cur))
          (take_value leb128 bound_count bytes decoded (collecting top stack cur))
  unfolding take_value
  take_value-Past (some v, advance) top stack cur a =
      IfOk-bind _ _ (safe_add cur advance) _ (safe_add-IfOk cur advance) λ n k.
        IfOk-bind _ _ (deliver_to_top leb128 bytes top n v) _
          (deliver_to_top-le leb128 bytes top (suc cur) n v (omega arith)) λ p j. j
  take_value-Past (none, advance) top stack cur a =
      IfOk-then _ (guard (ltb (length (top ∷ stack)) parse_stack_frame_cap) work_stack_exhausted) _
        λ u. IfOk-bind _ _ (open_frame leb128 bound_count bytes cur) _ (open_frame-le cur) λ p j. j

  -- A round that does not end the loop was at a byte of the input and moves on.
  abbrev Moves : ℕ → Progress → Type 0
  Moves lo (returned v cur) = Unit
  Moves lo (collecting top stack cur) = (lo < length bytes) × (lo < cur)

  next_value-Moves :
      (lo : ℕ) (p : Progress)
      → Past leb128 bytes lo p
      → IfOk (Moves lo) (next_value leb128 bound_count bytes p)
  unfolding next_value
  next_value-Moves lo (returned v cur) h = tt
  next_value-Moves lo (collecting top stack cur) h =
      IfOk-bind _ _ (decode_primitive_encoded_value bytes cur) _ (decode-Advances bytes cur) λ d k.
        IfOk-map (Past leb128 bytes (suc cur)) _ _ (moved lo cur h k.0)
          (take_value-Past d top stack cur k.1)
    where
      moved :
          (lo cur : ℕ)
          → lo ≤ cur
          → cur < length bytes
          → (p : Progress) → Past leb128 bytes (suc cur) p
          → Moves lo p
      moved lo cur le lt (returned v at) k = tt
      moved lo cur le lt (collecting top stack at) k = (omega arith, omega arith)

  round-Moves :
      (top : CollectorFrame) (stack : List CollectorFrame) (cur : ℕ)
      → IfOk (Moves cur) (round leb128 bound_count bytes top stack cur)
  unfolding round
  round-Moves top stack cur =
      IfOk-bind _ _ (read_name leb128 bytes top cur) _
        (read_name-le leb128 bytes top cur cur (omega arith))
        λ a ka.
          IfOk-bind _ _ (unwind leb128 bytes a.0 stack a.1) _
            (unwind-Past leb128 bytes a.0 stack cur a.1 ka) λ p kp. next_value-Moves cur p kp

  abbrev pub HasReturned : Progress → Type 0
  HasReturned (returned v cur) = Unit
  HasReturned (collecting top stack cur) = ⊥

  walk_from :
      (rounds lo : ℕ) (p : Progress)
      → length bytes ≤ lo + rounds
      → Moves lo p
      → IfOk HasReturned (walk leb128 bound_count bytes rounds p)
  unfolding walk
  walk_from zero lo (returned v cur) enough h = tt
  walk_from (suc rounds) lo (returned v cur) enough h = tt
  walk_from zero lo (collecting top stack cur) enough h = absurd (omega arith)
  walk_from (suc rounds) lo (collecting top stack cur) enough h =
      IfOk-bind _ _ (round leb128 bound_count bytes top stack cur) _ (round-Moves top stack cur)
        λ p k. walk_from rounds cur p (omega arith) k

  -- One round more than there are bytes is enough for the loop to return a value or to fail, whatever
  -- the bytes, the stack and the position are.
  pub walk-HasReturned :
      (top : CollectorFrame) (stack : List CollectorFrame) (cur : ℕ)
      → IfOk HasReturned
          (walk leb128 bound_count bytes (suc (length bytes)) (collecting top stack cur))
  unfolding walk
  walk-HasReturned top stack cur =
      IfOk-bind _ _ (round leb128 bound_count bytes top stack cur) _ (round-Moves top stack cur)
        λ p k. walk_from (length bytes) cur p (omega arith) k
