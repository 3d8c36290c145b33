-- ===== src/Emit/Value/Room.antt =====
-- A value with no more tasks than the stack may hold is emitted.
use droidsaw_dex.Prelude.{
  ℕ, zero, suc, ◌+◌, ◌≤◌, ◌<◌, ◌≡◌, refl, sym, arith, List, [], ◌∷◌, ◌++◌, length, ltb, leb, lt→ltb,
  le→leb, ltb→lt, Bool-cases, inl, inr, false, true,
}
use droidsaw_dex.Prelude.Errors.{ok, err}
use droidsaw_dex.Prelude.Words.{u32_mod}
use droidsaw_dex.Leb.{Leb128}
use droidsaw_dex.Annotation.Value.{
  EncodedValue, Values, nil, cons, Elements, end, element, array, annotation, count_values,
  count_elements,
}
use droidsaw_dex.Emit.Operands.{unrepresentable_ir}
use droidsaw_dex.Emit.Payload.{size_below}
use droidsaw_dex.Emit.Value.Spec.{encode}
use droidsaw_dex.Emit.Value.Refine.{emit_loop-encode}
use droidsaw_dex.Emit.Value.Tasks.{
  EmitTask, value_task, ann_body, uleb128_task, push_values, push_elements, emit_value, emit_task,
  emit_loop, value_tasks, values_tasks, elements_tasks, emit_encoded_value, emit_stack_cap,
}

-- The rounds that a task takes, and those of a stack.
abbrev task_tasks : EmitTask → ℕ
task_tasks (value_task v) = value_tasks v
task_tasks (ann_body t es) = suc (elements_tasks es)
task_tasks (uleb128_task n) = 1

abbrev stack_tasks : List EmitTask → ℕ
stack_tasks [] = 0
stack_tasks (task ∷ stack) = task_tasks task + stack_tasks stack

task_tasks-positive : (task : EmitTask) → 1 ≤ task_tasks task
unfolding value_tasks
task_tasks-positive (value_task (array vs)) = omega arith
task_tasks-positive (value_task (annotation t es)) = omega arith
task_tasks-positive (value_task v) = omega arith
task_tasks-positive (ann_body t es) = omega arith
task_tasks-positive (uleb128_task n) = omega arith

length-stack_tasks : (stack : List EmitTask) → length stack ≤ stack_tasks stack
length-stack_tasks [] = omega arith
length-stack_tasks (task ∷ stack) =
    omega (arith, task_tasks-positive task, length-stack_tasks stack)

-- The two loops that push have room, where the tasks fit below the cap.
push_values-ok :
    (vs : Values) (stack : List EmitTask)
    → values_tasks vs + stack_tasks stack ≤ emit_stack_cap
    → (pushed : List EmitTask) × (push_values vs stack ≡ ok pushed)
      × (stack_tasks pushed ≡ values_tasks vs + stack_tasks stack)
      × (count_values vs ≤ values_tasks vs)
unfolding push_values value_tasks count_values
push_values-ok nil stack room = (stack, refl, omega arith, omega arith)
push_values-ok (cons v vs) stack room =
    let (pushed, push, tasks, count) = push_values-ok vs stack (omega arith) in
    let free : ltb (length pushed) emit_stack_cap ≡ true =
      lt→ltb _ _ (omega (arith, length-stack_tasks pushed, task_tasks-positive (value_task v))) in
    (
      value_task v ∷ pushed,
      rw (push, free) refl,
      omega arith,
      omega (arith, task_tasks-positive (value_task v)),
    )

push_elements-ok :
    (es : Elements) (stack : List EmitTask)
    → elements_tasks es + stack_tasks stack ≤ emit_stack_cap
    → (pushed : List EmitTask) × (push_elements es stack ≡ ok pushed)
      × (stack_tasks pushed ≡ elements_tasks es + stack_tasks stack)
      × (count_elements es ≤ elements_tasks es)
unfolding push_elements value_tasks count_elements
push_elements-ok end stack room = (stack, refl, omega arith, omega arith)
push_elements-ok (element name v es) stack room =
    let (pushed, push, tasks, count) = push_elements-ok es stack (omega arith) in
    let free : leb (length pushed + 2) emit_stack_cap ≡ true =
      le→leb _ _ (omega (arith, length-stack_tasks pushed, task_tasks-positive (value_task v))) in
    (uleb128_task name ∷ value_task v ∷ pushed, rw (push, free) refl, omega arith, omega arith)

size_below-u32 : (n : ℕ) → n ≤ emit_stack_cap → size_below u32_mod n ≡ ok n
unfolding size_below
size_below-u32 n le = ground arith

-- A task leaves a stack with fewer tasks.
Shrinks : Leb128 → EmitTask → List ℕ → List EmitTask → Type 0
Shrinks leb128 task out stack =
    (p : List ℕ × List EmitTask) × (emit_task leb128 task out stack ≡ ok p)
    × (suc (stack_tasks p.1) ≤ task_tasks task + stack_tasks stack)

module _ (leb128 : Leb128) where
  emit_task-Shrinks :
      (task : EmitTask) (out : List ℕ) (stack : List EmitTask)
      → task_tasks task + stack_tasks stack ≤ emit_stack_cap
      → Shrinks leb128 task out stack
  unfolding Shrinks emit_task emit_value value_tasks
  emit_task-Shrinks (value_task (array vs)) out stack room =
      let (pushed, push, tasks, count) = push_values-ok vs stack (omega arith) in
      (
        ((out ++ 0x1c ∷ []) ++ leb128.write_uleb128 (count_values vs), pushed),
        rw (size_below-u32 (count_values vs) (omega arith), push) refl,
        omega arith,
      )
  emit_task-Shrinks (value_task (annotation t es)) out stack room =
      let free : ltb (length stack) emit_stack_cap ≡ true =
        lt→ltb _ _ (omega (arith, length-stack_tasks stack)) in
      ((out ++ 0x1d ∷ [], ann_body t es ∷ stack), rw free refl, omega arith)
  emit_task-Shrinks (value_task v) out stack room = (_, refl, omega arith)
  emit_task-Shrinks (ann_body t es) out stack room =
      let (pushed, push, tasks, count) = push_elements-ok es stack (omega arith) in
      (
        ((out ++ leb128.write_uleb128 t) ++ leb128.write_uleb128 (count_elements es), pushed),
        rw (size_below-u32 (count_elements es) (omega arith), push) refl,
        omega arith,
      )
  emit_task-Shrinks (uleb128_task n) out stack room = (_, refl, omega arith)

  emit_loop-ok :
      (rounds : ℕ) (out : List ℕ) (stack : List EmitTask)
      → stack_tasks stack ≤ emit_stack_cap
      → (r : List ℕ × List EmitTask) × (emit_loop leb128 rounds out stack ≡ ok r)
  unfolding emit_loop Shrinks
  emit_loop-ok zero out stack room = (_, refl)
  emit_loop-ok (suc rounds) out [] room = (_, refl)
  emit_loop-ok (suc rounds) out (task ∷ stack) room =
      let (p, done, fewer) = emit_task-Shrinks task out stack room in
      let (r, rest) = emit_loop-ok rounds p.0 p.1 (omega arith) in (r, rw done rest)

  -- A value with no more tasks than the cap of the stack is emitted: its encoding by recursion on
  -- the value is appended.
  pub emit_encoded_value-encode :
      (v : EncodedValue) (out : List ℕ)
      → value_tasks v ≤ emit_stack_cap
      → emit_encoded_value leb128 out v ≡ ok (out ++ encode leb128 v)
  unfolding emit_encoded_value
  emit_encoded_value-encode v out room =
      let (r, ran) = emit_loop-ok (value_tasks v) out (value_task v ∷ []) (omega arith) in
      rw (ran, sym (emit_loop-encode leb128 v out ran)) refl

push_values-length :
    (vs : Values) (stack : List EmitTask)
    → count_values vs + length stack ≤ emit_stack_cap
    → (pushed : List EmitTask) × (push_values vs stack ≡ ok pushed)
      × (length pushed ≡ count_values vs + length stack)
unfolding push_values count_values
push_values-length nil stack room = (stack, refl, omega arith)
push_values-length (cons v vs) stack room =
    let (pushed, push, size) = push_values-length vs stack (omega arith) in
    let free : ltb (length pushed) emit_stack_cap ≡ true = lt→ltb _ _ (omega arith) in
    (value_task v ∷ pushed, rw (push, free) refl, omega arith)

size_below_lem : (bound n : ℕ) → n < bound → size_below bound n ≡ ok n
unfolding size_below
size_below_lem bound n lt = ground arith

-- So many items that the stack is full before the last of them is pushed.
push_values-full :
    (vs : Values) (stack : List EmitTask)
    → length stack ≤ emit_stack_cap
    → emit_stack_cap < count_values vs + length stack
    → push_values vs stack ≡ err unrepresentable_ir
unfolding push_values count_values
push_values-full nil stack le more = absurd (omega arith)
push_values-full (cons v vs) stack le more =
    elim (Bool-cases (ltb emit_stack_cap (count_values vs + length stack))) [
      | inl still ↦ rw (push_values-full vs stack le (ltb→lt _ _ still)) refl
      | inr last ↦
          let (pushed, push, size) = push_values-length vs stack (ground arith) in
          let full : ltb (length pushed) emit_stack_cap ≡ false = ground arith in
          rw (push, full) refl
    ]

-- An array of more values than the stack may hold is refused, although its count is a u32.
pub emit_encoded_value-full :
    (leb128 : Leb128) (vs : Values) (out : List ℕ)
    → emit_stack_cap < count_values vs
    → count_values vs < u32_mod
    → emit_encoded_value leb128 out (array vs) ≡ err unrepresentable_ir
unfolding emit_encoded_value emit_loop emit_task emit_value value_tasks
emit_encoded_value-full leb128 vs out more lt =
    rw
      (
        size_below_lem u32_mod (count_values vs) lt,
        push_values-full vs [] (omega arith) (omega arith),
      )
      refl
