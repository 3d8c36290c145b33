-- ===== src/Annotation/Frames.antt =====
-- src/annotation.rs: the frames of the stack on which composite values are collected.
use droidsaw_dex.Prelude.{
  ℕ, suc, ◌-◌, ◌%◌, ◌^◌, Bool, false, Option, none, some, List, length, ◌==◌, if◌then◌else◌,
}
use droidsaw_dex.Prelude.Errors.{ok, err, ◌>>=◌}
use droidsaw_dex.Prelude.Words.{u32_mod}
use droidsaw_dex.Decode.Reader.{Res, safe_add, work_stack_exhausted, unknown_opcode}
use droidsaw_dex.Decode.Payload.{BoundCount}
use droidsaw_dex.Leb.{Leb128, next_uleb128}
use droidsaw_dex.Annotation.Value.{
  EncodedValue, Values, nil, Elements, end, array, annotation, push_value, insert_element,
}
use droidsaw_dex.Annotation.Primitive.{pread_u8}

-- `start_pos` and `remaining` come first. The last field of an annotation is `pending_name`.
pub data CollectorFrame : Type 0 where
  array_frame : ℕ → ℕ → Values → CollectorFrame
  annotation_frame : ℕ → ℕ → ℕ → Elements → Option ℕ → CollectorFrame

unfoldable pub frame_start_pos : CollectorFrame → ℕ
frame_start_pos (array_frame start remaining children) = start
frame_start_pos (annotation_frame start remaining type_idx elements pending) = start

unfoldable pub frame_is_complete : CollectorFrame → Bool
frame_is_complete (array_frame start remaining children) = remaining == 0
frame_is_complete (annotation_frame start remaining type_idx elements none) = remaining == 0
frame_is_complete (annotation_frame start remaining type_idx elements (some name)) = false

unfoldable pub assemble_frame : CollectorFrame → EncodedValue
assemble_frame (array_frame start remaining children) = array children
assemble_frame (annotation_frame start remaining type_idx elements pending) =
    annotation type_idx elements

module _ (leb128 : Leb128) (bytes : List ℕ) where
  -- The name of the next element, where the frame is an annotation that waits for one.
  unfoldable pub read_name : CollectorFrame → ℕ → Res (CollectorFrame × ℕ)
  read_name (annotation_frame start (suc remaining) type_idx elements none) cur = do
    (name, cur') ← next_uleb128 leb128 bytes cur
    ok (annotation_frame start (suc remaining) type_idx elements (some name), cur')
  read_name frame cur = ok (frame, cur)

  unfoldable pub put_child : CollectorFrame → EncodedValue → Res CollectorFrame
  put_child (array_frame start remaining children) v =
      ok (array_frame start (remaining - 1) (push_value children v))
  put_child (annotation_frame start remaining type_idx elements (some name)) v =
      ok (annotation_frame start (remaining - 1) type_idx (insert_element name v elements) none)
  put_child (annotation_frame start remaining type_idx elements none) v = err work_stack_exhausted

  -- The stack is not empty where a value is delivered: this is its top.
  unfoldable pub deliver_to_top : CollectorFrame → ℕ → EncodedValue → Res (CollectorFrame × ℕ)
  deliver_to_top frame cur v = do frame' ← put_child frame v; read_name frame' cur

-- The two kinds of header that open a frame, by the five low bits.
pub data Composite : Type 0 where
  opens_array opens_annotation opens_nothing : Composite

unfoldable pub composite_of : ℕ → Composite
composite_of t =
    if t == 0x1c then opens_array else if t == 0x1d then opens_annotation else opens_nothing

module _ (leb128 : Leb128) (bound_count : BoundCount) (bytes : List ℕ) where
  -- `type_idx` and the elements, from the first of these bytes
  unfoldable pub open_annotation : ℕ → ℕ → Res (CollectorFrame × ℕ)
  open_annotation start cur = do
    (type_idx, p2) ← next_uleb128 leb128 bytes cur
    (size, body) ← next_uleb128 leb128 bytes p2
    count ← bound_count size 2 (length bytes)
    ok (annotation_frame start count type_idx end none, body)

  unfoldable pub open_kind : Composite → ℕ → ℕ → ℕ → Res (CollectorFrame × ℕ)
  open_kind opens_array header start after = do
    (size, body) ← next_uleb128 leb128 bytes after
    count ← bound_count size 1 (length bytes)
    ok (array_frame start count nil, body)
  open_kind opens_annotation header start after = open_annotation start after
  open_kind opens_nothing header start after =
      err (unknown_opcode (header % 2 ^ 5) (start % u32_mod))

  -- The frame of the composite value whose header is at `cur`, and where its children begin.
  unfoldable pub open_frame : ℕ → Res (CollectorFrame × ℕ)
  open_frame cur = do
    header ← pread_u8 bytes cur
    after ← safe_add cur 1
    open_kind (composite_of (header % 2 ^ 5)) header cur after
