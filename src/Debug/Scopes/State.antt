-- ===== src/Debug/Scopes/State.antt =====
-- The state in which the scopes of one register are apart, and what keeps it.
use droidsaw_dex.Prelude.{
  ℕ, ◌≤◌, ◌<◌, ◌≡◌, refl, sym, ◌∙◌, subst, arith, inl, inr, Option, none, some, Option-cases, List,
  [], ◌∷◌, ◌++◌, All, All-map, All-both, All-append,
}
use droidsaw_dex.Prelude.Sets.{map_get, map_remove}
use droidsaw_dex.Debug.Machine.{Text, LocalVar, Machine, end_active, insert_active}
use droidsaw_dex.Debug.Scopes.Active.{
  KeysFrom, map_insert-KeysFrom, map_remove-KeysFrom, map_remove-ne, map_insert-All, map_remove-All,
  map_get-All,
}

-- A scope ends at `end`, between `start` and `hi`.
abbrev pub EndsWithin : ℕ → ℕ → Option ℕ → Type 0
EndsWithin start hi none = ⊥
EndsWithin start hi (some end) = (start ≤ end) × (end ≤ hi)

abbrev pub EndsBy : Option ℕ → ℕ → Type 0
EndsBy none start = ⊥
EndsBy (some end) start = end ≤ start

-- In one register, the first scope ends before the second one starts.
abbrev pub Before : LocalVar → LocalVar → Type 0
Before p q = p.register ≡ q.register → EndsBy p.end_addr q.start_addr

abbrev pub Apart : List LocalVar → Type 0
Apart [] = Unit
Apart (p ∷ ps) = All (Before p) ps × Apart ps

abbrev pub IsClosed : ℕ → ℕ → LocalVar → Type 0
IsClosed registers_size address l =
    (l.register < registers_size) × EndsWithin l.start_addr address l.end_addr

abbrev pub IsActive : ℕ → ℕ → List LocalVar → ℕ × LocalVar → Type 0
IsActive registers_size address locals e =
    (e.1.register ≡ e.0)
    × (e.0 < registers_size)
    × (e.1.start_addr ≤ address)
    × All (λ c. Before c e.1) locals

pub record IsScoped (registers_size : ℕ) (m : Machine) : Type 0 where
  pub closed : All (IsClosed registers_size m.address) m.locals
  pub apart : Apart m.locals
  pub keyed : KeysFrom 0 m.active
  pub live : All (IsActive registers_size m.address m.locals) m.active

EndsWithin-later :
    (start hi hi' : ℕ) (end : Option ℕ)
    → hi ≤ hi'
    → EndsWithin start hi end
    → EndsWithin start hi' end
EndsWithin-later start hi hi' none le h = h
EndsWithin-later start hi hi' (some end) le h = (h.0, omega arith)

EndsWithin-EndsBy : (start hi : ℕ) (end : Option ℕ) → EndsWithin start hi end → EndsBy end hi
EndsWithin-EndsBy start hi none h = h
EndsWithin-EndsBy start hi (some end) h = h.1

-- A round that touches neither map nor list, and does not move back.
pub later :
    (rs : ℕ) (m m' : Machine)
    → m'.locals ≡ m.locals
    → m'.active ≡ m.active
    → m.address ≤ m'.address
    → IsScoped rs m
    → IsScoped rs m'
later rs m m' el ea le h = record {
  closed = subst (All (IsClosed rs m'.address)) (sym el) (
      All-map m.locals
        (λ l c. (c.0, EndsWithin-later l.start_addr m.address m'.address l.end_addr le c.1))
        h.closed);
  apart = subst Apart (sym el) h.apart;
  keyed = subst (KeysFrom 0) (sym ea) h.keyed;
  live = subst (All (IsActive rs m'.address m'.locals)) (sym ea) (
      subst (λ ls. All (IsActive rs m'.address ls) m.active) (sym el)
        (All-map m.active (λ e a. (a.0, a.1, omega (arith, a.2), a.3)) h.live));
}

Apart-snoc :
    (ls : List LocalVar) (l : LocalVar) → Apart ls → All (λ c. Before c l) ls → Apart (ls ++ l ∷ [])
Apart-snoc [] l a b = (tt, tt)
Apart-snoc (c ∷ ls) l a b =
    (All-append (Before c) ls (l ∷ []) a.0 (b.0, tt), Apart-snoc ls l a.1 b.1)

-- An active local is closed: it is put behind the others, and no longer active.
close_one :
    (rs register : ℕ) (m : Machine) (prev : LocalVar)
    → map_get register m.active ≡ some prev
    → IsScoped rs m
    → IsScoped rs (record m {
      active = map_remove register m.active;
      locals = m.locals ++ record prev { end_addr = some m.address } ∷ [];
    })
close_one rs register m prev found h =
    let (same, small, started, before) =
      map_get-All (IsActive rs m.address m.locals) register prev m.active h.live found in
    record {
      closed =
          All-append (IsClosed rs m.address) m.locals _ h.closed
            ((subst (λ r. r < rs) (sym same) small, (started, omega arith)), tt);
      apart = Apart-snoc m.locals (record prev { end_addr = some m.address }) h.apart before;
      keyed = map_remove-KeysFrom 0 register m.active h.keyed;
      live =
          All-both (map_remove register m.active)
            (λ e a ne. (
              a.0,
              a.1,
              a.2,
              All-append (λ c. Before c e.1) m.locals _ a.3
                  ((λ regs. absurd (ne (sym a.0 ∙ (sym regs ∙ same)))), tt),
            ))
            (map_remove-All (IsActive rs m.address m.locals) register m.active h.live)
            (map_remove-ne 0 register m.active h.keyed);
    }

pub end_active-IsScoped :
    (rs register : ℕ) (m : Machine) → IsScoped rs m → IsScoped rs (end_active register m)
unfolding end_active
end_active-IsScoped rs register m h = elim (Option-cases (map_get register m.active)) [
  | inl gone ↦ rw (gone, end_active) h
  | inr (prev, found) ↦ rw (found, end_active) (close_one rs register m prev found h)
]

-- A local that starts now comes after all that are closed.
pub insert_active-IsScoped :
    (rs register : ℕ) (name type_desc : Option Text) (m : Machine)
    → register < rs
    → IsScoped rs m
    → IsScoped rs (insert_active register name type_desc m)
unfolding insert_active
insert_active-IsScoped rs register name type_desc m small h = record {
  closed = h.closed;
  apart = h.apart;
  keyed = map_insert-KeysFrom 0 register _ m.active (omega arith) h.keyed;
  live =
      map_insert-All (IsActive rs m.address m.locals) register _ m.active
        (
          refl,
          small,
          omega arith,
          All-map m.locals (λ l c regs. EndsWithin-EndsBy l.start_addr m.address l.end_addr c.1)
              h.closed,
        )
        h.live;
}
