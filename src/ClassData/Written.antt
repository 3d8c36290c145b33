-- ===== src/ClassData/Written.antt =====
-- src/emit_dex.rs: the lists of fields and methods are written as differences of ascending indices.
use mathlib.Core.List.{append_assoc, append-nil}
use droidsaw_dex.Prelude.{
  ℕ, ◌+◌, ◌-◌, ◌≤◌, ◌<◌, ◌≡◌, sym, ap, ◌∙◌, arith, Option, none, some, List, [], ◌∷◌, ◌++◌,
}
use droidsaw_dex.Prelude.Errors.{ok, bind-ok, ok-eq}
use droidsaw_dex.Prelude.Words.{u32_mod}
use droidsaw_dex.Leb.{Leb128}
use droidsaw_dex.ClassData.{field, method, validate, EncodedField, EncodedMethod, next_idx}
use droidsaw_dex.Emit.ClassData.{idx_diff, emit_encoded_field_list, emit_encoded_method_list}

-- The numbers of an item are u32, and its flags are valid in their scope.
abbrev pub IsField : EncodedField → Type 0
IsField f =
    (f.field_idx < u32_mod)
    × (f.access_flags < u32_mod)
    × (validate f.access_flags field ≡ ok f.access_flags)

abbrev pub IsMethod : EncodedMethod → Type 0
IsMethod m =
    (m.method_idx < u32_mod)
    × (m.access_flags < u32_mod)
    × (m.code_off < u32_mod)
    × (validate m.access_flags method ≡ ok m.access_flags)

abbrev pub AreFields : List EncodedField → Type 0
AreFields [] = Unit
AreFields (f ∷ fs) = IsField f × AreFields fs

abbrev pub AreMethods : List EncodedMethod → Type 0
AreMethods [] = Unit
AreMethods (m ∷ ms) = IsMethod m × AreMethods ms

-- The indices do not descend from the one before the list.
abbrev pub FieldsFrom : ℕ → List EncodedField → Type 0
FieldsFrom acc [] = Unit
FieldsFrom acc (f ∷ fs) = (acc ≤ f.field_idx) × FieldsFrom f.field_idx fs

abbrev pub MethodsFrom : ℕ → List EncodedMethod → Type 0
MethodsFrom acc [] = Unit
MethodsFrom acc (m ∷ ms) = (acc ≤ m.method_idx) × MethodsFrom m.method_idx ms

abbrev pub before : Option ℕ → ℕ
before none = 0
before (some p) = p

idx_diff-ok :
    (prev : Option ℕ) (idx diff : ℕ)
    → idx_diff prev idx ≡ ok diff
    → (diff ≡ idx - before prev) × (before prev ≤ idx)
unfolding idx_diff
idx_diff-ok none idx diff h = let same = ok-eq h in (omega (arith, same), omega arith)
idx_diff-ok (some p) idx diff h = ground arith

pub next_idx_lem :
    (off acc idx : ℕ) → acc ≤ idx → idx < u32_mod → next_idx off acc (idx - acc) ≡ ok idx
unfolding next_idx
next_idx_lem off acc idx le lt =
    let whole : acc + (idx - acc) ≡ idx = omega arith in rw whole (ground arith)

regroup : (o a b c : List ℕ) → o ++ (a ++ (b ++ c)) ≡ ((o ++ a) ++ b) ++ c
regroup o a b c = sym (append_assoc o a (b ++ c)) ∙ sym (append_assoc (o ++ a) b c)

module _ (leb128 : Leb128) where
  -- The bytes of a list, from the index before it.
  unfoldable pub field_bytes : ℕ → List EncodedField → List ℕ
  field_bytes acc [] = []
  field_bytes acc (f ∷ fs) =
      leb128.write_uleb128 (f.field_idx - acc)
      ++ (leb128.write_uleb128 f.access_flags ++ field_bytes f.field_idx fs)

  unfoldable pub method_bytes : ℕ → List EncodedMethod → List ℕ
  method_bytes acc [] = []
  method_bytes acc (m ∷ ms) =
      leb128.write_uleb128 (m.method_idx - acc)
      ++ (leb128.write_uleb128 m.access_flags
          ++ (leb128.write_uleb128 m.code_off ++ method_bytes m.method_idx ms))

  pub emit_encoded_field_list-ok :
      (fs : List EncodedField) (prev : Option ℕ) (out out' : List ℕ)
      → emit_encoded_field_list leb128 out prev fs ≡ ok out'
      → (out ++ field_bytes (before prev) fs ≡ out') × FieldsFrom (before prev) fs
  unfolding emit_encoded_field_list field_bytes
  emit_encoded_field_list-ok [] prev out out' h = (append-nil out ∙ ok-eq h, tt)
  emit_encoded_field_list-ok (f ∷ fs) prev out out' h =
      let (diff, found, rest) = bind-ok (idx_diff prev f.field_idx) _ h in
      let (same, le) = idx_diff-ok prev f.field_idx diff found in
      let (laid, from) = emit_encoded_field_list-ok fs (some f.field_idx) _ out' rest in
      (
        ap
              (λ k.
                out
                ++ (leb128.write_uleb128 k
                    ++ (leb128.write_uleb128 f.access_flags ++ field_bytes f.field_idx fs)))
              (sym same)
            ∙ regroup out _ _ _
            ∙ laid,
        (le, from),
      )

  pub emit_encoded_method_list-ok :
      (ms : List EncodedMethod) (prev : Option ℕ) (out out' : List ℕ)
      → emit_encoded_method_list leb128 out prev ms ≡ ok out'
      → (out ++ method_bytes (before prev) ms ≡ out') × MethodsFrom (before prev) ms
  unfolding emit_encoded_method_list method_bytes
  emit_encoded_method_list-ok [] prev out out' h = (append-nil out ∙ ok-eq h, tt)
  emit_encoded_method_list-ok (m ∷ ms) prev out out' h =
      let (diff, found, rest) = bind-ok (idx_diff prev m.method_idx) _ h in
      let (same, le) = idx_diff-ok prev m.method_idx diff found in
      let (laid, from) = emit_encoded_method_list-ok ms (some m.method_idx) _ out' rest in
      (
        ap
              (λ k.
                out
                ++ (leb128.write_uleb128 k
                    ++ (leb128.write_uleb128 m.access_flags
                        ++ (leb128.write_uleb128 m.code_off ++ method_bytes m.method_idx ms))))
              (sym same)
            ∙ regroup out _ _ _
            ∙ sym (append_assoc _ (leb128.write_uleb128 m.code_off) (method_bytes m.method_idx ms))
            ∙ laid,
        (le, from),
      )
