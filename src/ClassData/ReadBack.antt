-- ===== src/ClassData/ReadBack.antt =====
-- src/decode.rs: the lists of fields and methods are read back where they were written.
use mathlib.Core.List.{append_assoc}
use droidsaw_dex.Prelude.{
  ℕ, ◌+◌, ◌-◌, ◌*◌, ◌≤◌, ◌<◌, ◌≡◌, ap, ◌∙◌, arith, List, [], ◌∷◌, ◌++◌, length, length-append, drop,
}
use droidsaw_dex.Prelude.Errors.{ok}
use droidsaw_dex.Prelude.Words.{usize_mod}
use droidsaw_dex.Prelude.Positions.{drop-past}
use droidsaw_dex.Leb.{Leb128, IsWriter}
use droidsaw_dex.Annotation.Walk.Opening.{next_uleb128-write, write_uleb128-positive}
use droidsaw_dex.ClassData.{EncodedField, EncodedMethod, read_fields, read_methods}
use droidsaw_dex.ClassData.Written.{
  AreFields, AreMethods, FieldsFrom, MethodsFrom, next_idx_lem, field_bytes, method_bytes,
}

module _ (leb128 : Leb128) (writer : IsWriter leb128) where
  pub length-field_bytes :
      (fs : List EncodedField) (acc : ℕ)
      → AreFields fs
      → length fs * 2 ≤ length (field_bytes leb128 acc fs)
  unfolding field_bytes
  length-field_bytes [] acc h = omega arith
  length-field_bytes (f ∷ fs) acc h =
      let w = leb128.write_uleb128 (f.field_idx - acc) in
      let flags = leb128.write_uleb128 f.access_flags in
      omega (
        arith,
        length-append w (flags ++ field_bytes leb128 f.field_idx fs),
        length-append flags (field_bytes leb128 f.field_idx fs),
        write_uleb128-positive leb128 writer (f.field_idx - acc) (omega arith),
        write_uleb128-positive leb128 writer f.access_flags h.0.1,
        length-field_bytes fs f.field_idx h.1,
      )

  pub length-method_bytes :
      (ms : List EncodedMethod) (acc : ℕ)
      → AreMethods ms
      → length ms * 3 ≤ length (method_bytes leb128 acc ms)
  unfolding method_bytes
  length-method_bytes [] acc h = omega arith
  length-method_bytes (m ∷ ms) acc h =
      let w = leb128.write_uleb128 (m.method_idx - acc) in
      let flags = leb128.write_uleb128 m.access_flags in
      let code = leb128.write_uleb128 m.code_off in
      omega (
        arith,
        length-append w (flags ++ (code ++ method_bytes leb128 m.method_idx ms)),
        length-append flags (code ++ method_bytes leb128 m.method_idx ms),
        length-append code (method_bytes leb128 m.method_idx ms),
        write_uleb128-positive leb128 writer (m.method_idx - acc) (omega arith),
        write_uleb128-positive leb128 writer m.access_flags h.0.1,
        write_uleb128-positive leb128 writer m.code_off h.0.2,
        length-method_bytes ms m.method_idx h.1,
      )

  module _ (bytes : List ℕ) (fits : length bytes < usize_mod) (off : ℕ) where
    pub read_fields-field_bytes :
        (fs : List EncodedField) (acc at : ℕ) (rest : List ℕ)
        → AreFields fs
        → FieldsFrom acc fs
        → drop at bytes ≡ field_bytes leb128 acc fs ++ rest
        → read_fields leb128 bytes off (length fs) acc at
          ≡ ok (fs, at + length (field_bytes leb128 acc fs))
    unfolding read_fields field_bytes
    read_fields-field_bytes [] acc at rest h from p = ap (λ n. ok ([], n)) (omega arith)
    read_fields-field_bytes (f ∷ fs) acc at rest h from p =
        let w = leb128.write_uleb128 (f.field_idx - acc) in
        let flags = leb128.write_uleb128 f.access_flags in
        let more = field_bytes leb128 f.field_idx fs in
        let p0 : drop at bytes ≡ w ++ (flags ++ (more ++ rest)) =
          p
          ∙ append_assoc w (flags ++ more) rest
          ∙ ap (λ ys. w ++ ys) (append_assoc flags more rest) in
        let p1 : drop (at + length w) bytes ≡ flags ++ (more ++ rest) = drop-past at bytes w p0 in
        let p2 : drop (at + length w + length flags) bytes ≡ more ++ rest =
          drop-past (at + length w) bytes flags p1 in
        rw
          (
            next_uleb128-write leb128 writer bytes fits at (f.field_idx - acc) _ (omega arith) p0,
            next_idx_lem off acc f.field_idx from.0 h.0.0,
            next_uleb128-write leb128 writer bytes fits (at + length w) f.access_flags _ h.0.1 p1,
            h.0.2,
            read_fields-field_bytes fs f.field_idx (at + length w + length flags) rest h.1 from.1
                p2,
          )
          (ap (λ n. ok (f ∷ fs, n))
            (omega (arith, length-append w (flags ++ more), length-append flags more)))

    pub read_methods-method_bytes :
        (ms : List EncodedMethod) (acc at : ℕ) (rest : List ℕ)
        → AreMethods ms
        → MethodsFrom acc ms
        → drop at bytes ≡ method_bytes leb128 acc ms ++ rest
        → read_methods leb128 bytes off (length ms) acc at
          ≡ ok (ms, at + length (method_bytes leb128 acc ms))
    unfolding read_methods method_bytes
    read_methods-method_bytes [] acc at rest h from p = ap (λ n. ok ([], n)) (omega arith)
    read_methods-method_bytes (m ∷ ms) acc at rest h from p =
        let w = leb128.write_uleb128 (m.method_idx - acc) in
        let flags = leb128.write_uleb128 m.access_flags in
        let code = leb128.write_uleb128 m.code_off in
        let more = method_bytes leb128 m.method_idx ms in
        let p0 : drop at bytes ≡ w ++ (flags ++ (code ++ (more ++ rest))) =
          p
          ∙ append_assoc w (flags ++ (code ++ more)) rest
          ∙ ap (λ ys. w ++ ys)
              (append_assoc flags (code ++ more) rest
                ∙ ap (λ ys. flags ++ ys) (append_assoc code more rest)) in
        let p1 : drop (at + length w) bytes ≡ flags ++ (code ++ (more ++ rest)) =
          drop-past at bytes w p0 in
        let p2 : drop (at + length w + length flags) bytes ≡ code ++ (more ++ rest) =
          drop-past (at + length w) bytes flags p1 in
        let p3 : drop (at + length w + length flags + length code) bytes ≡ more ++ rest =
          drop-past (at + length w + length flags) bytes code p2 in
        rw
          (
            next_uleb128-write leb128 writer bytes fits at (m.method_idx - acc) _ (omega arith) p0,
            next_idx_lem off acc m.method_idx from.0 h.0.0,
            next_uleb128-write leb128 writer bytes fits (at + length w) m.access_flags _ h.0.1 p1,
            h.0.3,
            next_uleb128-write leb128 writer bytes fits (at + length w + length flags) m.code_off _
                h.0.2 p2,
            read_methods-method_bytes ms m.method_idx (at + length w + length flags + length code)
                rest h.1 from.1 p3,
          )
          (ap (λ n. ok (m ∷ ms, n))
            (omega (
              arith,
              length-append w (flags ++ (code ++ more)),
              length-append flags (code ++ more),
              length-append code more,
            )))
