-- ===== src/Emit/Value/Refine.antt =====
-- The stack of tasks writes the bytes that the recursion over the value gives.
use mathlib.Core.List.{append_assoc, append-nil}
use droidsaw_dex.Prelude.{
  ℕ, suc, ◌+◌, ◌<◌, ◌≡◌, refl, sym, ap, ◌∙◌, subst, arith, List, [], ◌∷◌, ◌++◌, length, ltb, leb,
}
use droidsaw_dex.Prelude.Errors.{ok, guard, bind-ok, ok-eq}
use droidsaw_dex.Prelude.Words.{u32_mod}
use droidsaw_dex.Leb.{Leb128}
use droidsaw_dex.Annotation.Value.{
  EncodedValue, Values, nil, cons, Elements, end, element, array, annotation, count_values,
  count_elements,
}
use droidsaw_dex.Emit.Operands.{unrepresentable_ir}
use droidsaw_dex.Emit.Payload.{size_below}
use droidsaw_dex.Emit.Value.Spec.{encode, encode_values, encode_elements}
use droidsaw_dex.Emit.Value.Tasks.{
  EmitTask, value_task, ann_body, uleb128_task, push_values, push_elements, emit_value, emit_task,
  emit_loop, value_tasks, values_tasks, elements_tasks, emit_encoded_value, emit_stack_cap,
}

pub size_below-ok : (bound n s : ℕ) → size_below bound n ≡ ok s → (s ≡ n) × (n < bound)
unfolding size_below
size_below-ok bound n s h = ground arith

pushed_value :
    (v : EncodedValue) (vs : Values) (stack stack' : List EmitTask)
    → push_values (cons v vs) stack ≡ ok stack'
    → (pushed : List EmitTask) × (push_values vs stack ≡ ok pushed)
      × (value_task v ∷ pushed ≡ stack')
unfolding push_values
pushed_value v vs stack stack' h =
    let (pushed, push, rest) = bind-ok (push_values vs stack) _ h in
    let (u, room, result) =
      bind-ok (guard (ltb (length pushed) emit_stack_cap) unrepresentable_ir) _ rest in
    (pushed, push, ok-eq result)

pushed_element :
    (name : ℕ) (v : EncodedValue) (es : Elements) (stack stack' : List EmitTask)
    → push_elements (element name v es) stack ≡ ok stack'
    → (pushed : List EmitTask) × (push_elements es stack ≡ ok pushed)
      × (uleb128_task name ∷ value_task v ∷ pushed ≡ stack')
unfolding push_elements
pushed_element name v es stack stack' h =
    let (pushed, push, rest) = bind-ok (push_elements es stack) _ h in
    let (u, room, result) =
      bind-ok (guard (leb (length pushed + 2) emit_stack_cap) unrepresentable_ir) _ rest in
    (pushed, push, ok-eq result)

-- What the loop returns, from these bytes and this stack.
abbrev Returns : Leb128 → List ℕ × List EmitTask → ℕ → List ℕ → List EmitTask → Type 0
Returns leb128 r rounds out stack = emit_loop leb128 rounds out stack ≡ ok r

module _ (leb128 : Leb128) {r : List ℕ × List EmitTask} where
  one_round :
      (rounds more : ℕ) (out : List ℕ) (task : EmitTask) (stack : List EmitTask)
      → more ≡ suc rounds
      → Returns leb128 r more out (task ∷ stack)
      → (p : List ℕ × List EmitTask) × (emit_task leb128 task out stack ≡ ok p)
        × Returns leb128 r rounds p.0 p.1
  unfolding emit_loop
  one_round rounds more out task stack e h =
      bind-ok (emit_task leb128 task out stack) _
        (subst (λ k. Returns leb128 r k out (task ∷ stack)) e h)

  -- A round whose task is known to write `bytes` and to leave `stack'`.
  writes :
      (rounds more : ℕ) (out out' : List ℕ) (task : EmitTask) (stack stack' : List EmitTask)
      → more ≡ suc rounds
      → emit_task leb128 task out stack ≡ ok (out', stack')
      → Returns leb128 r more out (task ∷ stack)
      → Returns leb128 r rounds out' stack'
  unfolding emit_loop
  writes rounds more out out' task stack stack' e w h =
      let opened : Returns leb128 r (suc rounds) out (task ∷ stack) =
        subst (λ k. Returns leb128 r k out (task ∷ stack)) e h in
      rw w at opened

  array_round :
      (vs : Values) (rounds more : ℕ) (out : List ℕ) (stack : List EmitTask)
      → more ≡ suc rounds
      → Returns leb128 r more out (value_task (array vs) ∷ stack)
      → (pushed : List EmitTask) × (push_values vs stack ≡ ok pushed)
        × Returns leb128 r rounds
            ((out ++ 0x1c ∷ []) ++ leb128.write_uleb128 (count_values vs))
            pushed
  unfolding emit_task emit_value
  array_round vs rounds more out stack e h =
      let (p, done, returns) = one_round rounds more out (value_task (array vs)) stack e h in
      let (size, sized, rest) = bind-ok (size_below u32_mod (count_values vs)) _ done in
      let (pushed, push, result) = bind-ok (push_values vs stack) _ rest in
      let same = (size_below-ok u32_mod (count_values vs) size sized).0 in
      (
        pushed,
        push,
        subst (λ n. Returns leb128 r rounds ((out ++ 0x1c ∷ []) ++ leb128.write_uleb128 n) pushed)
            same (subst (λ q. Returns leb128 r rounds q.0 q.1) (sym (ok-eq result)) returns),
      )

  body_round :
      (t : ℕ) (es : Elements) (rounds more : ℕ) (out : List ℕ) (stack : List EmitTask)
      → more ≡ suc rounds
      → Returns leb128 r more out (ann_body t es ∷ stack)
      → (pushed : List EmitTask) × (push_elements es stack ≡ ok pushed)
        × Returns leb128 r rounds
            ((out ++ leb128.write_uleb128 t) ++ leb128.write_uleb128 (count_elements es))
            pushed
  unfolding emit_task
  body_round t es rounds more out stack e h =
      let (p, done, returns) = one_round rounds more out (ann_body t es) stack e h in
      let (size, sized, rest) = bind-ok (size_below u32_mod (count_elements es)) _ done in
      let (pushed, push, result) = bind-ok (push_elements es stack) _ rest in
      let same = (size_below-ok u32_mod (count_elements es) size sized).0 in
      (
        pushed,
        push,
        subst
            (λ n.
              Returns leb128 r rounds ((out ++ leb128.write_uleb128 t) ++ leb128.write_uleb128 n)
                pushed)
            same (subst (λ q. Returns leb128 r rounds q.0 q.1) (sym (ok-eq result)) returns),
      )

  header_round :
      (t : ℕ) (es : Elements) (rounds more : ℕ) (out : List ℕ) (stack : List EmitTask)
      → more ≡ suc rounds
      → Returns leb128 r more out (value_task (annotation t es) ∷ stack)
      → Returns leb128 r rounds (out ++ 0x1d ∷ []) (ann_body t es ∷ stack)
  unfolding emit_task emit_value
  header_round t es rounds more out stack e h =
      let (p, done, returns) = one_round rounds more out (value_task (annotation t es)) stack e h in
      let (u, room, result) =
        bind-ok (guard (ltb (length stack) emit_stack_cap) unrepresentable_ir) _ done in
      subst (λ q. Returns leb128 r rounds q.0 q.1) (sym (ok-eq result)) returns

  -- The same result, where the bytes are put together in another order.
  reordered :
      (rounds : ℕ) (out out' : List ℕ) (stack : List EmitTask)
      → out ≡ out'
      → Returns leb128 r rounds out stack
      → Returns leb128 r rounds out' stack
  reordered rounds out out' stack e h = subst (λ o. Returns leb128 r rounds o stack) e h

  restacked :
      (rounds rounds' : ℕ) (out : List ℕ) (stack stack' : List EmitTask)
      → rounds ≡ rounds'
      → stack ≡ stack'
      → Returns leb128 r rounds' out stack'
      → Returns leb128 r rounds out stack
  restacked rounds rounds' out stack stack' e f h = rw (e, f) h

  mutual
    unfolding emit_task emit_value encode value_tasks push_values push_elements

    value-Returns :
        (v : EncodedValue) (rounds : ℕ) (out : List ℕ) (stack : List EmitTask)
        → Returns leb128 r (value_tasks v + rounds) out (value_task v ∷ stack)
        → Returns leb128 r rounds (out ++ encode leb128 v) stack
    value-Returns (array vs) rounds out stack h =
        let (pushed, push, returns) =
          array_round vs (values_tasks vs + rounds) _ out stack (omega arith) h in
        reordered rounds _ _ stack (simp append_assoc)
          (values-Returns vs rounds _ stack pushed push returns)
    value-Returns (annotation t es) rounds out stack h =
        let headed =
          header_round t es (suc (elements_tasks es) + rounds) _ out stack (omega arith) h in
        let (pushed, push, returns) =
          body_round t es (elements_tasks es + rounds) _ _ stack (omega arith) headed in
        reordered rounds _ _ stack (simp append_assoc)
          (elements-Returns es rounds _ stack pushed push returns)
    value-Returns v rounds out stack h =
        writes rounds _ out _ (value_task v) stack stack (omega arith) refl h

    values-Returns :
        (vs : Values) (rounds : ℕ) (out : List ℕ) (stack stack' : List EmitTask)
        → push_values vs stack ≡ ok stack'
        → Returns leb128 r (values_tasks vs + rounds) out stack'
        → Returns leb128 r rounds (out ++ encode_values leb128 vs) stack
    values-Returns nil rounds out stack stack' pushed h =
        reordered rounds _ _ stack (sym (append-nil out))
          (restacked _ _ out _ _ (omega arith) (ok-eq pushed) h)
    values-Returns (cons v vs) rounds out stack stack' pushed h =
        let (below, push, e) = pushed_value v vs stack stack' pushed in
        reordered rounds _ _ stack (simp append_assoc) (
          values-Returns vs rounds _ stack below push (
            value-Returns v (values_tasks vs + rounds) out below
              (restacked _ _ out _ _ (omega arith) e h)))

    elements-Returns :
        (es : Elements) (rounds : ℕ) (out : List ℕ) (stack stack' : List EmitTask)
        → push_elements es stack ≡ ok stack'
        → Returns leb128 r (elements_tasks es + rounds) out stack'
        → Returns leb128 r rounds (out ++ encode_elements leb128 es) stack
    elements-Returns end rounds out stack stack' pushed h =
        reordered rounds _ _ stack (sym (append-nil out))
          (restacked _ _ out _ _ (omega arith) (ok-eq pushed) h)
    elements-Returns (element name v es) rounds out stack stack' pushed h =
        let (below, push, e) = pushed_element name v es stack stack' pushed in
        reordered rounds _ _ stack (simp append_assoc) (
          elements-Returns es rounds _ stack below push (
            value-Returns v (elements_tasks es + rounds) _ below (
              writes (value_tasks v + (elements_tasks es + rounds))
                (elements_tasks (element name v es) + rounds) out _ (uleb128_task name)
                (value_task v ∷ below) (value_task v ∷ below) (omega arith) refl
                (restacked _ _ out _ _ refl e h))))

-- However the emission ends, it ends with an empty stack after as many rounds as the value has tasks;
-- what it appends, where it does not fail, is the encoding by recursion on the value.
pub emit_loop-encode :
    (leb128 : Leb128) (v : EncodedValue) (out : List ℕ) {r : List ℕ × List EmitTask}
    → emit_loop leb128 (value_tasks v) out (value_task v ∷ []) ≡ ok r
    → (out ++ encode leb128 v, []) ≡ r
unfolding emit_loop
emit_loop-encode leb128 v out {r} h =
    let same : value_tasks v + 0 ≡ value_tasks v = omega arith in
    let given : Returns leb128 r (value_tasks v + 0) out (value_task v ∷ []) = rw same h in
    ok-eq (value-Returns leb128 v 0 out [] given)

pub emit_encoded_value-ok :
    (leb128 : Leb128) (v : EncodedValue) (out out' : List ℕ)
    → emit_encoded_value leb128 out v ≡ ok out'
    → out ++ encode leb128 v ≡ out'
unfolding emit_encoded_value
emit_encoded_value-ok leb128 v out out' h =
    let (r, ran, result) = bind-ok (emit_loop leb128 (value_tasks v) out (value_task v ∷ [])) _ h in
    ap (λ p. p.0) (emit_loop-encode leb128 v out ran) ∙ ok-eq result
