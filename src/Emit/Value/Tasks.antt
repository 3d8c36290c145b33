-- ===== src/Emit/Value/Tasks.antt =====
-- src/emit_dex.rs: `emit_encoded_value` and `emit_encoded_annotation`, which keep a stack of tasks.
-- The head of the list is the top of the stack, the last of the `Vec`.
use droidsaw_dex.Prelude.{ℕ, zero, suc, ◌+◌, List, [], ◌∷◌, ◌++◌, length, ltb, leb}
use droidsaw_dex.Prelude.Errors.{ok, ◌>>=◌, ◌>>◌, guard}
use droidsaw_dex.Prelude.Words.{u32_mod}
use droidsaw_dex.Leb.{Leb128}
use droidsaw_dex.Annotation.Value.{
  EncodedValue, Values, nil, cons, Elements, end, element, array, annotation, count_values,
  count_elements,
}
use droidsaw_dex.Emit.Operands.{Emitted, unrepresentable_ir}
use droidsaw_dex.Emit.Payload.{size_below}
use droidsaw_dex.Emit.Value.{primitive_bytes}

abbrev pub emit_stack_cap : ℕ
emit_stack_cap = 65536

pub data EmitTask : Type 0 where
  value_task : EncodedValue → EmitTask
  ann_body : ℕ → Elements → EmitTask
  uleb128_task : ℕ → EmitTask

-- The loop over `items.iter().rev()`
unfoldable pub push_values : Values → List EmitTask → Emitted (List EmitTask)
push_values nil stack = ok stack
push_values (cons v vs) stack = do
  pushed ← push_values vs stack
  guard (ltb (length pushed) emit_stack_cap) unrepresentable_ir
  ok (value_task v ∷ pushed)

-- The loop over `ann.elements.iter().rev()`
unfoldable pub push_elements : Elements → List EmitTask → Emitted (List EmitTask)
push_elements end stack = ok stack
push_elements (element name v es) stack = do
  pushed ← push_elements es stack
  guard (leb (length pushed + 2) emit_stack_cap) unrepresentable_ir
  ok (uleb128_task name ∷ value_task v ∷ pushed)

-- The bytes and the stack after a task that was popped.
unfoldable pub emit_value :
    Leb128 → EncodedValue → List ℕ → List EmitTask → Emitted (List ℕ × List EmitTask)
emit_value leb128 (array vs) out stack = do
  size ← size_below u32_mod (count_values vs)
  pushed ← push_values vs stack
  ok ((out ++ 0x1c ∷ []) ++ leb128.write_uleb128 size, pushed)
emit_value leb128 (annotation t es) out stack = do
  guard (ltb (length stack) emit_stack_cap) unrepresentable_ir
  ok (out ++ 0x1d ∷ [], ann_body t es ∷ stack)
emit_value leb128 v out stack = ok (out ++ primitive_bytes v, stack)

unfoldable pub emit_task :
    Leb128 → EmitTask → List ℕ → List EmitTask → Emitted (List ℕ × List EmitTask)
emit_task leb128 (uleb128_task n) out stack = ok (out ++ leb128.write_uleb128 n, stack)
emit_task leb128 (ann_body t es) out stack = do
  size ← size_below u32_mod (count_elements es)
  pushed ← push_elements es stack
  ok ((out ++ leb128.write_uleb128 t) ++ leb128.write_uleb128 size, pushed)
emit_task leb128 (value_task v) out stack = emit_value leb128 v out stack

-- `while let Some(task) = stack.pop()`, for a number of rounds.
unfoldable pub emit_loop : Leb128 → ℕ → List ℕ → List EmitTask → Emitted (List ℕ × List EmitTask)
emit_loop leb128 zero out stack = ok (out, stack)
emit_loop leb128 (suc rounds) out [] = ok (out, [])
emit_loop leb128 (suc rounds) out (task ∷ stack) = do
  (out', stack') ← emit_task leb128 task out stack
  emit_loop leb128 rounds out' stack'

-- The tasks that come of a value, which bound the rounds.
unfoldable mutual
  pub value_tasks : EncodedValue → ℕ
  value_tasks (array vs) = suc (values_tasks vs)
  value_tasks (annotation t es) = suc (suc (elements_tasks es))
  value_tasks v = 1

  pub values_tasks : Values → ℕ
  values_tasks nil = 0
  values_tasks (cons v vs) = value_tasks v + values_tasks vs

  pub elements_tasks : Elements → ℕ
  elements_tasks end = 0
  elements_tasks (element name v es) = suc (value_tasks v + elements_tasks es)

unfoldable pub emit_encoded_value : Leb128 → List ℕ → EncodedValue → Emitted (List ℕ)
emit_encoded_value leb128 out v = do
  (out', left) ← emit_loop leb128 (value_tasks v) out (value_task v ∷ [])
  ok out'
