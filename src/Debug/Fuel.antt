-- ===== src/Debug/Fuel.antt =====
-- Every round of the machine moves the position on.
use droidsaw_dex.Prelude.{ℕ, ◌≤◌, ◌≡◌, refl, inl, inr, Option-cases, List}
use droidsaw_dex.Prelude.Int.{ℤ, pos, negsuc}
use droidsaw_dex.Prelude.Sets.{map_get}
use droidsaw_dex.Debug.Machine.{FileView, Machine, Flow, push_entry, end_active}
use droidsaw_dex.Debug.Rounds.{left}

pub push_entry-at : (z : ℤ) (m : Machine) → (push_entry z m).at ≡ m.at
unfolding push_entry
push_entry-at (pos n) m = refl
push_entry-at (negsuc n) m = refl

pub end_active-at : (register : ℕ) (m : Machine) → (end_active register m).at ≡ m.at
unfolding end_active
end_active-at register m = elim (Option-cases (map_get register m.active)) [
  | inl gone ↦ rw (gone, end_active)
  | inr (l, e) ↦ rw (e, end_active)
]

module _ (file : FileView) (bytes : List ℕ) (registers_size lo : ℕ) (m : Machine)
    (h : lo ≤ m.at) where
  abbrev Past : Flow → Type 0
  Past f = lo ≤ (left f).at
