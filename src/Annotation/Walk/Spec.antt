-- ===== src/Annotation/Walk/Spec.antt =====
-- The values that the emitter and the parser share: contents in range, names in ascending order, and
-- what the frames make of the children.
use droidsaw_dex.Prelude.{ℕ, suc, ◌+◌, ◌<◌, ◌≡◌, refl, sym, ap, ◌∙◌, arith, subst, false, ltb, ◌==◌}
use Prim.Native.Nat.{max}
use droidsaw_dex.Prelude.Words.{u32_mod}
use droidsaw_dex.Annotation.Value.{
  EncodedValue, Values, nil, cons, Elements, end, element, array, annotation, count_values,
  count_elements, push_value, insert_element,
}
use droidsaw_dex.Annotation.RoundTrip.{IsPrimitive}

-- The names ascend, as the keys of a `BTreeMap` do.
abbrev pub IsBelow : ℕ → Elements → Type 0
IsBelow name end = Unit
IsBelow name (element other v es) = name < other

abbrev pub IsAscending : Elements → Type 0
IsAscending end = Unit
IsAscending (element name v es) = IsBelow name es × IsAscending es

unfoldable mutual
  pub IsInRange : EncodedValue → Type 0
  IsInRange (array vs) = (count_values vs < u32_mod) × AreInRange vs
  IsInRange (annotation t es) =
      (t < u32_mod) × (count_elements es < u32_mod) × IsAscending es × ElementsAreInRange es
  IsInRange v = IsPrimitive v

  pub AreInRange : Values → Type 0
  AreInRange nil = Unit
  AreInRange (cons v vs) = IsInRange v × AreInRange vs

  pub ElementsAreInRange : Elements → Type 0
  ElementsAreInRange end = Unit
  ElementsAreInRange (element name v es) = (name < u32_mod) × IsInRange v × ElementsAreInRange es

-- How deep composite values stand in one another, which is the height of the stack of frames.
unfoldable mutual
  pub nesting : EncodedValue → ℕ
  nesting (array vs) = suc (values_nesting vs)
  nesting (annotation t es) = suc (elements_nesting es)
  nesting v = 0

  pub values_nesting : Values → ℕ
  values_nesting nil = 0
  values_nesting (cons v vs) = max (nesting v) (values_nesting vs)

  pub elements_nesting : Elements → ℕ
  elements_nesting end = 0
  elements_nesting (element name v es) = max (nesting v) (elements_nesting es)

-- The rounds of the loop that a value takes.
unfoldable mutual
  pub value_rounds : EncodedValue → ℕ
  value_rounds (array vs) = suc (values_rounds vs)
  value_rounds (annotation t es) = suc (elements_rounds es)
  value_rounds v = 1

  pub values_rounds : Values → ℕ
  values_rounds nil = 0
  values_rounds (cons v vs) = value_rounds v + values_rounds vs

  pub elements_rounds : Elements → ℕ
  elements_rounds end = 0
  elements_rounds (element name v es) = value_rounds v + elements_rounds es

-- What a frame holds once the children are delivered one after the other.
abbrev pub push_all : Values → Values → Values
push_all children nil = children
push_all children (cons v vs) = push_all (push_value children v) vs

abbrev pub insert_all : Elements → Elements → Elements
insert_all elements end = elements
insert_all elements (element name v es) = insert_all (insert_element name v elements) es

abbrev append_values : Values → Values → Values
append_values nil ws = ws
append_values (cons v vs) ws = cons v (append_values vs ws)

gt→ltb : (a b : ℕ) → b < a → ltb a b ≡ false
gt→ltb a b h = ground arith

gt→== : (a b : ℕ) → b < a → (a == b) ≡ false
gt→== a b h = ground arith

push_all-append : (children vs : Values) → push_all children vs ≡ append_values children vs
unfolding push_value
push_all-append children nil = unit children
  where
    unit : (children : Values) → children ≡ append_values children nil
    unit nil = refl
    unit (cons v vs) = ap (cons v) (unit vs)
push_all-append children (cons v vs) =
    push_all-append (push_value children v) vs ∙ moved children v vs
  where
    moved :
        (children : Values) (v : EncodedValue) (vs : Values)
        → append_values (push_value children v) vs ≡ append_values children (cons v vs)
    moved nil v vs = refl
    moved (cons w ws) v vs = ap (cons w) (moved ws v vs)

-- A frame that starts empty holds the children in order.
pub push_all-nil : (vs : Values) → push_all nil vs ≡ vs
push_all-nil vs = push_all-append nil vs

abbrev append_elements : Elements → Elements → Elements
append_elements end fs = fs
append_elements (element name v es) fs = element name v (append_elements es fs)

append_elements-end : (es : Elements) → append_elements es end ≡ es
append_elements-end end = refl
append_elements-end (element name v es) = ap (element name v) (append_elements-end es)

append_elements_assoc :
    (es fs gs : Elements)
    → append_elements (append_elements es fs) gs ≡ append_elements es (append_elements fs gs)
append_elements_assoc end fs gs = refl
append_elements_assoc (element name v es) fs gs =
    ap (element name v) (append_elements_assoc es fs gs)

before_last :
    (m n : ℕ) (w v : EncodedValue) (es fs : Elements)
    → IsAscending (element m w (append_elements es (element n v fs)))
    → m < n
before_last m n w v end fs h = h.0
before_last m n w v (element k u es) fs h = omega (arith, h.0, before_last k n u v es fs h.1)

insert_element-last :
    (n : ℕ) (v : EncodedValue) (es fs : Elements)
    → IsAscending (append_elements es (element n v fs))
    → insert_element n v es ≡ append_elements es (element n v end)
unfolding insert_element
insert_element-last n v end fs h = refl
insert_element-last n v (element m w es) fs h =
    let above = before_last m n w v es fs h in
    let rest = insert_element-last n v es fs h.1 in
    rw (gt→ltb n m above, gt→== n m above, rest) refl

insert_all-append :
    (es fs : Elements)
    → IsAscending (append_elements es fs)
    → insert_all es fs ≡ append_elements es fs
insert_all-append es end h = sym (append_elements-end es)
insert_all-append es (element n v fs) h =
    let moved = append_elements_assoc es (element n v end) fs in
    let ascending : IsAscending (append_elements (append_elements es (element n v end)) fs) =
      subst IsAscending (sym moved) h in
    rw (insert_element-last n v es fs h) (insert_all-append _ fs ascending ∙ moved)

pub insert_all-end : (es : Elements) → IsAscending es → insert_all end es ≡ es
insert_all-end es h = insert_all-append end es h
