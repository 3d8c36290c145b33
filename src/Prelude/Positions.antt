-- ===== src/Prelude/Positions.antt =====
-- What stands at a position of a list: `drop n xs ≡ ys` for what begins at `n`.
use Prim.Native.Nat.{ℕ, zero, suc, ◌+◌, ◌≤◌}
use mathlib.Core.Path.{◌≡◌, ap, refl}
use mathlib.Core.List.{List, [], ◌∷◌, ◌++◌}
use native.Mathlib.Omega.{arith}
use droidsaw_dex.Prelude.Lists.{length, drop, take, length-append}

module _ {ℓ} {A : Type ℓ} where
  pub drop-suc :
      (n : ℕ) (xs : List A) {x : A} {ys : List A} → drop n xs ≡ x ∷ ys → drop (suc n) xs ≡ ys
  drop-suc zero [] h = cc
  drop-suc zero (y ∷ xs) h = cc
  drop-suc (suc n) [] h = cc
  drop-suc (suc n) (y ∷ xs) h = drop-suc n xs h

  -- Behind what is read stands the rest.
  pub drop-past :
      (n : ℕ) (xs ys : List A) {zs : List A} → drop n xs ≡ ys ++ zs → drop (n + length ys) xs ≡ zs
  drop-past n xs [] h = let same : n + 0 ≡ n = omega arith in rw same h
  drop-past n xs (y ∷ ys) h =
      let next : n + suc (length ys) ≡ suc n + length ys = omega arith in
      rw next (drop-past (suc n) xs ys (drop-suc n xs h))

  pub drop-within :
      (n : ℕ) (xs : List A) {x : A} {ys : List A}
      → drop n xs ≡ x ∷ ys
      → n + suc (length ys) ≡ length xs
  drop-within zero xs h = omega (arith, ap length h)
  drop-within (suc n) [] h = cc
  drop-within (suc n) (y ∷ xs) h = omega (arith, drop-within n xs h)

  -- The list is what stands before the position and what stands there.
  pub take-drop : (n : ℕ) (xs : List A) → take n xs ++ drop n xs ≡ xs
  take-drop zero xs = refl
  take-drop (suc n) [] = refl
  take-drop (suc n) (x ∷ xs) = ap (λ zs. x ∷ zs) (take-drop n xs)

  pub length-take : (n : ℕ) (xs : List A) → n ≤ length xs → length (take n xs) ≡ n
  length-take zero xs le = refl
  length-take (suc n) [] le = absurd (omega arith)
  length-take (suc n) (x ∷ xs) le = omega (arith, length-take n xs (omega arith))

  pub drop-fits :
      (n : ℕ) (xs ys : List A) → drop n xs ≡ ys → 1 ≤ length ys → n + length ys ≡ length xs
  drop-fits n xs [] h one = absurd (omega arith)
  drop-fits n xs (y ∷ ys) h one = drop-within n xs h

  pub drop-covers :
      (n : ℕ) (xs ys zs : List A) → drop n xs ≡ ys ++ zs → 1 ≤ length ys → n + length ys ≤ length xs
  drop-covers n xs ys zs h one =
      omega (
        arith,
        length-append ys zs,
        drop-fits n xs (ys ++ zs) h (omega (arith, length-append ys zs)),
      )

  length-drop : (n : ℕ) (xs : List A) → length (drop n xs) ≤ length xs
  length-drop zero xs = omega arith
  length-drop (suc n) [] = omega arith
  length-drop (suc n) (x ∷ xs) = omega (arith, length-drop n xs)

  pub drop-length : (n : ℕ) (xs ys zs : List A) → drop n xs ≡ ys ++ zs → length ys ≤ length xs
  drop-length n xs ys zs h = omega (arith, length-drop n xs, ap length h, length-append ys zs)
