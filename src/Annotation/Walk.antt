-- ===== src/Annotation/Walk.antt =====
-- src/annotation.rs: the loop over the stack of frames, and the parsers that start it.
-- The stack is its top and the frames below, the nearest first.
pub mod Steps
pub mod Opening
pub mod Spec
pub mod Sizes
pub mod Headers
pub mod Enough
pub mod Children
pub mod Whole
use droidsaw_dex.Prelude.{
  ℕ, zero, suc, ◌+◌, ◌-◌, Bool, true, false, Option, none, some, List, [], ◌∷◌, length, ltb,
}
use droidsaw_dex.Prelude.Errors.{ok, err, ◌>>=◌, ◌>>◌, guard}
use droidsaw_dex.Decode.Reader.{Res, safe_add, work_stack_exhausted}
use droidsaw_dex.Decode.Payload.{BoundCount}
use droidsaw_dex.Leb.{Leb128}
use droidsaw_dex.Annotation.Value.{EncodedValue, Elements, array, annotation}
use droidsaw_dex.Annotation.Primitive.{decode_primitive_encoded_value}
use droidsaw_dex.Annotation.Frames.{
  CollectorFrame, frame_start_pos, frame_is_complete, assemble_frame, read_name, deliver_to_top,
  open_frame, open_annotation,
}

abbrev pub parse_stack_frame_cap : ℕ
parse_stack_frame_cap = 65536

-- The value that the loop returns with the position, or the stack and the position at the end of a
-- round.
pub data Progress : Type 0 where
  returned : EncodedValue → ℕ → Progress
  collecting : CollectorFrame → List CollectorFrame → ℕ → Progress

module _ (leb128 : Leb128) (bytes : List ℕ) where
  -- `while frame_is_complete(stack.last())`
  unfoldable pub unwind : CollectorFrame → List CollectorFrame → ℕ → Res Progress
  unwind top [] cur = elim (frame_is_complete top) [
    | true ↦ ok (returned (assemble_frame top) cur)
    | false ↦ ok (collecting top [] cur)
  ]
  unwind top (below ∷ stack) cur = elim (frame_is_complete top) [
    | true ↦ do
      (below', cur') ← deliver_to_top leb128 bytes below cur (assemble_frame top)
      unwind below' stack cur'
    | false ↦ ok (collecting top (below ∷ stack) cur)
  ]

module _ (leb128 : Leb128) (bound_count : BoundCount) (bytes : List ℕ) where
  -- A value at `cur`: delivered if it holds no others, else the top of the stack.
  unfoldable pub take_value : Option EncodedValue × ℕ → Progress → Res Progress
  take_value decoded (returned v cur) = ok (returned v cur)
  take_value (some v, advance) (collecting top stack cur) = do
    cur' ← safe_add cur advance
    (top', cur'') ← deliver_to_top leb128 bytes top cur' v
    ok (collecting top' stack cur'')
  take_value (none, advance) (collecting top stack cur) = do
    guard (ltb (length (top ∷ stack)) parse_stack_frame_cap) work_stack_exhausted
    (frame, body) ← open_frame leb128 bound_count bytes cur
    ok (collecting frame (top ∷ stack) body)

  unfoldable pub next_value : Progress → Res Progress
  next_value (returned v cur) = ok (returned v cur)
  next_value (collecting top stack cur) = do
    decoded ← decode_primitive_encoded_value bytes cur
    take_value decoded (collecting top stack cur)

  -- One round of the loop.
  unfoldable pub round : CollectorFrame → List CollectorFrame → ℕ → Res Progress
  round top stack cur = do
    (top', cur') ← read_name leb128 bytes top cur
    p ← unwind leb128 bytes top' stack cur'
    next_value p

  unfoldable pub walk : ℕ → Progress → Res Progress
  walk rounds (returned v cur) = ok (returned v cur)
  walk zero (collecting top stack cur) = ok (collecting top stack cur)
  walk (suc rounds) (collecting top stack cur) = do p ← round top stack cur; walk rounds p

  -- The value and the count of its bytes from `root_start`. A walk that is still collecting has not
  -- been given enough rounds.
  unfoldable pub finish_walk : ℕ → Progress → Res (EncodedValue × ℕ)
  finish_walk root_start (returned v cur) = ok (v, cur - root_start)
  finish_walk root_start (collecting top stack cur) = err work_stack_exhausted

  unfoldable pub drive_collector_stack : ℕ → CollectorFrame → Res (EncodedValue × ℕ)
  drive_collector_stack body_start root = do
    p ← walk (suc (length bytes)) (collecting root [] body_start)
    finish_walk (frame_start_pos root) p

  unfoldable pub parse_encoded_value_composite : ℕ → Res (EncodedValue × ℕ)
  parse_encoded_value_composite pos = do
    (root, body) ← open_frame leb128 bound_count bytes pos
    drive_collector_stack body root

  unfoldable pub or_composite : ℕ → Option EncodedValue × ℕ → Res (EncodedValue × ℕ)
  or_composite pos (some v, consumed) = ok (v, consumed)
  or_composite pos (none, consumed) = parse_encoded_value_composite pos

  unfoldable pub parse_encoded_value : ℕ → Res (EncodedValue × ℕ)
  parse_encoded_value pos = do
    decoded ← decode_primitive_encoded_value bytes pos
    or_composite pos decoded

  unfoldable pub as_annotation : EncodedValue × ℕ → Res ((ℕ × Elements) × ℕ)
  as_annotation (annotation type_idx elements, consumed) = ok ((type_idx, elements), consumed)
  as_annotation (v, consumed) = err work_stack_exhausted

  unfoldable pub parse_encoded_annotation : ℕ → Res ((ℕ × Elements) × ℕ)
  parse_encoded_annotation pos = do
    (root, body) ← open_annotation leb128 bound_count bytes pos pos
    r ← drive_collector_stack body root
    as_annotation r
