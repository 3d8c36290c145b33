-- ===== src/Debug/Scopes/Active.antt =====
-- The map of active locals: its keys ascend, and what holds of all entries is kept.
use droidsaw_dex.Prelude.{
  ℕ, suc, ◌≤◌, ◌<◌, ◌≡◌, ◌≢◌, sym, subst, arith, inl, inr, Bool-cases, some, some-eq, List, [], ◌∷◌,
  All, ltb, ◌==◌, ==_iff,
}
use droidsaw_dex.Prelude.Sets.{map_get, map_insert, map_remove}

-- The keys ascend strictly, from `lo` on.
abbrev pub KeysFrom {ℓ} : {V : Type ℓ} → ℕ → List (ℕ × V) → Type 0
KeysFrom lo [] = Unit
KeysFrom lo (e ∷ m) = (lo ≤ e.0) × KeysFrom (suc e.0) m

KeysFrom-weaken {ℓ} :
    {V : Type ℓ} (lo lo' : ℕ) (m : List (ℕ × V)) → lo' ≤ lo → KeysFrom lo m → KeysFrom lo' m
KeysFrom-weaken lo lo' [] le h = tt
KeysFrom-weaken lo lo' (e ∷ m) le h = (omega arith, h.1)

pub map_insert-KeysFrom {ℓ} :
    {V : Type ℓ} (lo k : ℕ) (v : V) (m : List (ℕ × V))
    → lo ≤ k
    → KeysFrom lo m
    → KeysFrom lo (map_insert k v m)
unfolding map_insert
map_insert-KeysFrom lo k v [] le h = (le, tt)
map_insert-KeysFrom lo k v (e ∷ m) le h = elim (Bool-cases (ltb k e.0)) [
  | inl less ↦ rw (less, map_insert) (le, (ground arith, h.1))
  | inr not_less ↦ elim (Bool-cases (k == e.0)) [
    | inl same ↦
        rw (not_less, same, map_insert) (le, KeysFrom-weaken (suc e.0) (suc k) m (ground arith) h.1)
    | inr other ↦
        rw (not_less, other, map_insert)
          (h.0, map_insert-KeysFrom (suc e.0) k v m (ground arith) h.1)
  ]
]

pub map_remove-KeysFrom {ℓ} :
    {V : Type ℓ} (lo k : ℕ) (m : List (ℕ × V)) → KeysFrom lo m → KeysFrom lo (map_remove k m)
unfolding map_remove
map_remove-KeysFrom lo k [] h = tt
map_remove-KeysFrom lo k (e ∷ m) h = elim (Bool-cases (k == e.0)) [
  | inl same ↦ rw (same, map_remove) (KeysFrom-weaken (suc e.0) lo m (omega arith) h.1)
  | inr other ↦ rw (other, map_remove) (h.0, map_remove-KeysFrom (suc e.0) k m h.1)
]

KeysFrom-ne {ℓ} :
    {V : Type ℓ} (lo k : ℕ) (m : List (ℕ × V))
    → k < lo
    → KeysFrom lo m
    → All (λ (e : ℕ × V). e.0 ≢ k) m
KeysFrom-ne lo k [] lt h = tt
KeysFrom-ne lo k (e ∷ m) lt h =
    (λ same. omega (arith, same), KeysFrom-ne (suc e.0) k m (omega arith) h.1)

-- What is removed is not there any more.
pub map_remove-ne {ℓ} :
    {V : Type ℓ} (lo k : ℕ) (m : List (ℕ × V))
    → KeysFrom lo m
    → All (λ (e : ℕ × V). e.0 ≢ k) (map_remove k m)
unfolding map_remove
map_remove-ne lo k [] h = tt
map_remove-ne lo k (e ∷ m) h = elim (Bool-cases (k == e.0)) [
  | inl same ↦ rw (same, map_remove) (KeysFrom-ne (suc e.0) k m (ground arith) h.1)
  | inr other ↦
      rw (other, map_remove)
        (λ same. cc (other, (==_iff k e.0).1 (sym same)), map_remove-ne (suc e.0) k m h.1)
]

pub map_insert-All {ℓ κ} :
    {V : Type ℓ} (P : ℕ × V → Type κ) (k : ℕ) (v : V) (m : List (ℕ × V))
    → P (k, v)
    → All P m
    → All P (map_insert k v m)
unfolding map_insert
map_insert-All P k v [] p h = (p, tt)
map_insert-All P k v (e ∷ m) p h = elim (Bool-cases (ltb k e.0)) [
  | inl less ↦ rw (less, map_insert) (p, h)
  | inr not_less ↦ elim (Bool-cases (k == e.0)) [
    | inl same ↦ rw (not_less, same, map_insert) (p, h.1)
    | inr other ↦ rw (not_less, other, map_insert) (h.0, map_insert-All P k v m p h.1)
  ]
]

pub map_remove-All {ℓ κ} :
    {V : Type ℓ} (P : ℕ × V → Type κ) (k : ℕ) (m : List (ℕ × V)) → All P m → All P (map_remove k m)
unfolding map_remove
map_remove-All P k [] h = tt
map_remove-All P k (e ∷ m) h = elim (Bool-cases (k == e.0)) [
  | inl same ↦ rw (same, map_remove) h.1
  | inr other ↦ rw (other, map_remove) (h.0, map_remove-All P k m h.1)
]

-- What is found has the property, under the key that was asked for.
pub map_get-All {ℓ κ} :
    {V : Type ℓ} (P : ℕ × V → Type κ) (k : ℕ) (v : V) (m : List (ℕ × V))
    → All P m
    → map_get k m ≡ some v
    → P (k, v)
unfolding map_get
map_get-All P k v [] h e = absurd (cc e)
map_get-All P k v (entry ∷ m) h e = elim (Bool-cases (k == entry.0)) [
  | inl same ↦
      subst (λ x. P (x, v)) (sym ((==_iff k entry.0).0 same))
        (subst (λ x. P (entry.0, x)) (some-eq entry.1 v (rw (same, map_get) at e)) h.0)
  | inr other ↦ map_get-All P k v m h.1 (rw (other, map_get) at e)
]
