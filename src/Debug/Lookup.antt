-- ===== src/Debug/Lookup.antt =====
-- src/debug.rs: the names of locals and parameters.
use droidsaw_dex.Prelude.{
  ℕ, suc, ◌+◌, ◌-◌, ◌%◌, Bool, true, Option, none, some, List, [], ◌∷◌, leb, ltb, ◌==◌, ◌&&◌, not,
  if◌then◌else◌,
}
use droidsaw_dex.Prelude.Sets.{map_insert}
use droidsaw_dex.Prelude.Words.{u16_mod}
use droidsaw_dex.Header.{slice_eq}
use droidsaw_dex.Debug.Machine.{Text, LocalVar}
use droidsaw_dex.Debug.Parse.{DebugInfo}

-- `"this"`
abbrev this_text : Text
this_text = 0x74 ∷ 0x68 ∷ 0x69 ∷ 0x73 ∷ []

unfoldable pub is_this : Text → Bool
unfolding slice_eq
is_this name = slice_eq name this_text

-- `end.is_none_or(|end| pc < end)`
unfoldable pub ends_after : ℕ → Option ℕ → Bool
ends_after pc none = true
ends_after pc (some end) = ltb pc end

-- `name != Some("this")`
unfoldable pub not_this : Option Text → Bool
unfolding is_this
not_this none = true
not_this (some name) = not (is_this name)

-- The local is in scope in the register at the address.
unfoldable pub in_scope : ℕ → ℕ → LocalVar → Bool
unfolding ends_after
in_scope register pc l =
    (l.register == register) && (leb l.start_addr pc && ends_after pc l.end_addr)

-- `locals.iter().rev().find(..)`
unfoldable pub last_where : (LocalVar → Bool) → List LocalVar → Option LocalVar
last_where test [] = none
last_where test (l ∷ ls) = elim (last_where test ls) [
  | some found ↦ some found
  | none ↦ if test l then some l else none
]

unfoldable pub local_name_at : DebugInfo → ℕ → ℕ → Option Text
unfolding last_where
local_name_at debug register pc =
    elim (last_where (λ l. in_scope register pc l && not_this l.name) debug.locals) [
      | none ↦ none
      | some l ↦ l.name
    ]

-- `a.checked_add(b)` of two u16
unfoldable pub checked_add_u16 : ℕ → ℕ → Option ℕ
checked_add_u16 a b = if ltb (a + b) u16_mod then some (a + b) else none

-- One round of the loop over the parameter names, for the name at index `i`.
unfoldable pub name_parameter : ℕ → ℕ → ℕ → Option Text → List (ℕ × Text) → List (ℕ × Text)
unfolding checked_add_u16 map_insert
name_parameter first_param_reg param_reg_offset i none names = names
name_parameter first_param_reg param_reg_offset i (some n) names =
    elim (checked_add_u16 first_param_reg param_reg_offset) [
      | none ↦ names
      | some offset_reg ↦ elim (checked_add_u16 offset_reg (i % u16_mod)) [
        | none ↦ names
        | some reg ↦ map_insert reg n names
      ]
    ]

unfoldable pub name_parameters : ℕ → ℕ → ℕ → List (Option Text) → List (ℕ × Text) → List (ℕ × Text)
unfolding name_parameter
name_parameters first_param_reg param_reg_offset i [] names = names
name_parameters first_param_reg param_reg_offset i (n ∷ ns) names =
    name_parameters first_param_reg param_reg_offset (suc i) ns
      (name_parameter first_param_reg param_reg_offset i n names)

unfoldable pub name_local : LocalVar → List (ℕ × Text) → List (ℕ × Text)
unfolding map_insert is_this
name_local l names = elim l.name [
  | none ↦ names
  | some name ↦ if is_this name then names else map_insert l.register name names
]

unfoldable pub name_locals : List LocalVar → List (ℕ × Text) → List (ℕ × Text)
unfolding name_local
name_locals [] names = names
name_locals (l ∷ ls) names = name_locals ls (name_local l names)

unfoldable pub build_name_map : DebugInfo → ℕ → ℕ → Bool → List (ℕ × Text)
unfolding name_parameters name_locals
build_name_map debug registers_size ins_size is_static = name_locals debug.locals (
    name_parameters (registers_size - ins_size) (if is_static then 0 else 1) 0 debug.parameter_names
      [])
