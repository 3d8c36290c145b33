-- ===== src/Prelude/Sets.antt =====
-- `BTreeSet<u32>` as an ascending list, `BTreeMap` as an association list.
use droidsaw_dex.Prelude.{
  ℕ, ◌<◌, ◌≡◌, arith, Option, none, some, List, [], ◌∷◌, ltb, ◌==◌, if◌then◌else◌, ◌⊎◌,
}

-- `set.insert(x)`
unfoldable pub set_insert : ℕ → List ℕ → List ℕ
set_insert x [] = x ∷ []
set_insert x (y ∷ ys) =
    if ltb x y then x ∷ y ∷ ys else if x == y then y ∷ ys else y ∷ set_insert x ys

unfoldable pub map_get {ℓ} : {V : Type ℓ} → ℕ → List (ℕ × V) → Option V
map_get k [] = none
map_get k ((j, v) ∷ m) = if k == j then some v else map_get k m

-- `map.insert(k, v)`, which replaces the value of a key that is there
unfoldable pub map_insert {ℓ} : {V : Type ℓ} → ℕ → V → List (ℕ × V) → List (ℕ × V)
map_insert k v [] = (k, v) ∷ []
map_insert k v ((j, w) ∷ m) =
    let rest = map_insert k v m in
    if ltb k j then (k, v) ∷ (j, w) ∷ m else if k == j then (k, v) ∷ m else (j, w) ∷ rest

-- `map.remove(k)`, without the value that it returns
unfoldable pub map_remove {ℓ} : {V : Type ℓ} → ℕ → List (ℕ × V) → List (ℕ × V)
map_remove k [] = []
map_remove k ((j, v) ∷ m) = let rest = map_remove k m in if k == j then m else (j, v) ∷ rest

-- Membership as a proposition by recursion.
abbrev pub In : ℕ → List ℕ → Type 0
In x [] = ⊥
In x (y ∷ ys) = (x ≡ y) ⊎ In x ys

-- Strictly ascending, above `lo`.
abbrev pub AscendingAbove : ℕ → List ℕ → Type 0
AscendingAbove lo [] = Unit
AscendingAbove lo (x ∷ xs) = (lo < x) × AscendingAbove x xs

abbrev pub IsAscending : List ℕ → Type 0
IsAscending [] = Unit
IsAscending (x ∷ xs) = AscendingAbove x xs

AscendingAbove-set_insert :
    (lo x : ℕ) (ys : List ℕ) → lo < x → AscendingAbove lo ys → AscendingAbove lo (set_insert x ys)
unfolding set_insert
AscendingAbove-set_insert lo x [] h a = (h, tt)
AscendingAbove-set_insert lo x (y ∷ ys) h a = ground (arith, AscendingAbove-set_insert y x ys)

pub IsAscending-set_insert : (x : ℕ) (ys : List ℕ) → IsAscending ys → IsAscending (set_insert x ys)
unfolding set_insert
IsAscending-set_insert x [] a = tt
IsAscending-set_insert x (y ∷ ys) a = ground (arith, AscendingAbove-set_insert y x ys)

pub In-set_insert_self : (x : ℕ) (ys : List ℕ) → In x (set_insert x ys)
unfolding set_insert
In-set_insert_self x [] = ground arith
In-set_insert_self x (y ∷ ys) = ground (arith, In-set_insert_self x ys)

pub In-set_insert : (z x : ℕ) (ys : List ℕ) → In z ys → In z (set_insert x ys)
unfolding set_insert
In-set_insert z x [] h = absurd h
In-set_insert z x (y ∷ ys) h = ground (arith, In-set_insert z x ys)

-- An insertion adds nothing but the element.
pub In-of-set_insert : (z x : ℕ) (ys : List ℕ) → In z (set_insert x ys) → (z ≡ x) ⊎ In z ys
unfolding set_insert
In-of-set_insert z x [] h = ground arith
In-of-set_insert z x (y ∷ ys) h = ground (arith, In-of-set_insert z x ys)
