-- ===== src/Debug/Scopes/Lookup.antt =====
-- At every address at most one local is in scope in a register, and `local_name_at` finds it.
use droidsaw_dex.Prelude.{
  ℕ, zero, suc, ◌≤◌, ◌≡◌, refl, sym, ap, ◌∙◌, subst, arith, inl, inr, Bool, true, false, Bool-cases,
  Option, none, some, some-eq, List, [], ◌∷◌, ◌++◌, All, All-map, All-both, All-append, get_elem?,
  ◌&&◌,
}
use droidsaw_dex.Prelude.Errors.{ok, IfOk-eq}
use droidsaw_dex.Debug.Machine.{FileView, LocalVar, Machine}
use droidsaw_dex.Debug.Parse.{DebugInfo, close_active, parse_debug_info}
use droidsaw_dex.Debug.Lookup.{ends_after, not_this, in_scope, last_where, local_name_at}
use droidsaw_dex.Debug.Rounds.{Ends, parse_debug_info-inv}
use droidsaw_dex.Debug.Scopes.Active.{KeysFrom}
use droidsaw_dex.Debug.Scopes.State.{EndsBy, Before, Apart, IsActive, IsScoped, later}
use droidsaw_dex.Debug.Scopes.Machine.{run_op-IsScoped}

in_scope-parts :
    (register pc : ℕ) (l : LocalVar)
    → in_scope register pc l ≡ true
    → (l.register ≡ register) × (l.start_addr ≤ pc) × (ends_after pc l.end_addr ≡ true)
unfolding in_scope
in_scope-parts register pc l h = ground arith

ended :
    (pc start : ℕ) (end : Option ℕ) → EndsBy end start → ends_after pc end ≡ true → start ≤ pc → ⊥
unfolding ends_after
ended pc start none by after le = by
ended pc start (some end) by after le = ground arith

-- Two scopes of one register that are apart do not share an address.
not_both :
    (register pc : ℕ) (p q : LocalVar)
    → Before p q
    → in_scope register pc p ≡ true
    → in_scope register pc q ≡ true
    → ⊥
not_both register pc p q before hp hq =
    let (rp, sp, ep) = in_scope-parts register pc p hp in
    let (rq, sq, eq) = in_scope-parts register pc q hq in
    ended pc q.start_addr p.end_addr (before (rp ∙ sym rq)) ep sq

All-get {ℓ κ} :
    {A : Type ℓ} (P : A → Type κ) (xs : List A) (i : ℕ) (x : A)
    → All P xs
    → get_elem? xs i ≡ some x
    → P x
All-get P [] i x h e = absurd (cc e)
All-get P (y ∷ xs) zero x h e = subst P (some-eq y x e) h.0
All-get P (y ∷ xs) (suc i) x h e = All-get P xs i x h.1 e

-- The test holds for one index only.
Apart-one :
    (register pc : ℕ) (ls : List LocalVar) (i j : ℕ) (p q : LocalVar)
    → Apart ls
    → get_elem? ls i ≡ some p
    → get_elem? ls j ≡ some q
    → in_scope register pc p ≡ true
    → in_scope register pc q ≡ true
    → i ≡ j
Apart-one register pc [] i j p q a ei ej hp hq = absurd (cc ei)
Apart-one register pc (l ∷ ls) zero zero p q a ei ej hp hq = refl
Apart-one register pc (l ∷ ls) zero (suc j) p q a ei ej hp hq = absurd (
    not_both register pc p q
      (subst (λ x. Before x q) (some-eq l p ei) (All-get (Before l) ls j q a.0 ej)) hp hq)
Apart-one register pc (l ∷ ls) (suc i) zero p q a ei ej hp hq = absurd (
    not_both register pc q p
      (subst (λ x. Before x p) (some-eq l q ej) (All-get (Before l) ls i p a.0 ei)) hq hp)
Apart-one register pc (l ∷ ls) (suc i) (suc j) p q a ei ej hp hq =
    ap suc (Apart-one register pc ls i j p q a.1 ei ej hp hq)

-- The locals that are closed at the end: one for each register that is left.
close_active-from :
    (rs address lo : ℕ) (locals : List LocalVar) (live : List (ℕ × LocalVar))
    → KeysFrom lo live
    → All (IsActive rs address locals) live
    → All (λ (l : LocalVar). lo ≤ l.register) (close_active live)
unfolding close_active
close_active-from rs address lo locals [] k h = tt
close_active-from rs address lo locals (e ∷ live) k h = (
  omega (arith, h.0.0),
  All-map (close_active live) (λ l le. omega arith)
      (close_active-from rs address (suc e.0) locals live k.1 h.1),
)

close_active-Apart :
    (rs address lo : ℕ) (locals : List LocalVar) (live : List (ℕ × LocalVar))
    → KeysFrom lo live
    → All (IsActive rs address locals) live
    → Apart (close_active live)
unfolding close_active
close_active-Apart rs address lo locals [] k h = tt
close_active-Apart rs address lo locals (e ∷ live) k h = (
  All-map (close_active live) (λ l le same. absurd (omega (arith, h.0.0, same)))
      (close_active-from rs address (suc e.0) locals live k.1 h.1),
  close_active-Apart rs address (suc e.0) locals live k.1 h.1,
)

All-trivial {ℓ} : {A : Type ℓ} (xs : List A) → All (λ (x : A). Unit {0}) xs
All-trivial [] = tt
All-trivial (x ∷ xs) = (tt, All-trivial xs)

-- Every closed local comes before every active one.
close_active-after :
    (rs address : ℕ) (locals : List LocalVar) (live : List (ℕ × LocalVar))
    → All (IsActive rs address locals) live
    → All (λ c. All (Before c) (close_active live)) locals
unfolding close_active
close_active-after rs address locals [] h = All-trivial locals
close_active-after rs address locals (e ∷ live) h =
    All-both locals (λ c now rest. (now, rest)) h.0.3
      (close_active-after rs address locals live h.1)

Apart-append :
    (xs ys : List LocalVar)
    → Apart xs
    → Apart ys
    → All (λ c. All (Before c) ys) xs
    → Apart (xs ++ ys)
Apart-append [] ys a b h = b
Apart-append (x ∷ xs) ys a b h = (All-append (Before x) xs ys a.0 h.0, Apart-append xs ys a.1 b h.1)

parse_debug_info-Apart :
    (file : FileView) (bytes : List ℕ) (offset rs : ℕ) (d : DebugInfo)
    → parse_debug_info file bytes offset rs ≡ ok d
    → Apart d.locals
parse_debug_info-Apart file bytes offset rs d e =
    let P = λ (n : ℕ) (m : Machine). IsScoped rs m in
    let ends =
      IfOk-eq (Ends P) (parse_debug_info file bytes offset rs)
        (parse_debug_info-inv P file bytes offset rs
          (λ n m at h. later rs m (record m { at = at }) refl refl (omega arith) h)
          (λ n op m h. run_op-IsScoped rs file bytes m h op)
          (λ n at. record { closed = tt; apart = tt; keyed = tt; live = tt }))
        e in
    let m = ends.0 in
    let scoped = ends.1 in
    subst Apart (sym ends.2) (
      Apart-append m.locals (close_active m.active) scoped.apart
        (close_active-Apart rs m.address 0 m.locals m.active scoped.keyed scoped.live)
        (close_active-after rs m.address m.locals m.active scoped.live))

last_where-none :
    (test : LocalVar → Bool) (ls : List LocalVar)
    → ((j : ℕ) (q : LocalVar) → get_elem? ls j ≡ some q → test q ≡ true → ⊥)
    → last_where test ls ≡ none
unfolding last_where
last_where-none test [] none_there = refl
last_where-none test (l ∷ ls) none_there =
    let rest = last_where-none test ls (λ j q e t. none_there (suc j) q e t) in
    elim (Bool-cases (test l)) [
      | inl there ↦ absurd (none_there 0 l refl there)
      | inr not_there ↦ rw (rest, not_there, last_where)
    ]

-- What passes the test at one index only is found.
last_where-one :
    (test : LocalVar → Bool) (ls : List LocalVar) (i : ℕ) (l : LocalVar)
    → get_elem? ls i ≡ some l
    → test l ≡ true
    → ((j : ℕ) (q : LocalVar) → get_elem? ls j ≡ some q → test q ≡ true → j ≡ i)
    → last_where test ls ≡ some l
unfolding last_where
last_where-one test [] i l e t one = absurd (cc e)
last_where-one test (x ∷ xs) zero l e t one =
    let rest = last_where-none test xs (λ j q ej tq. absurd (omega (arith, one (suc j) q ej tq))) in
    let same = some-eq x l e in
    subst (λ y. last_where test (y ∷ xs) ≡ some l) (sym same) (rw (rest, t, last_where))
last_where-one test (x ∷ xs) (suc i) l e t one =
    let rest = last_where-one test xs i l e t (λ j q ej tq. omega (arith, one (suc j) q ej tq)) in
    rw (rest, last_where)

both : (a b : Bool) → (a && b) ≡ true → (a ≡ true) × (b ≡ true)
both true b h = (refl, h)
both false b h = absurd (cc h)

-- In a debug info that was parsed, two entries of the list of locals that are in scope in one register
-- at one address are the same entry, and `local_name_at` answers with its name there. This is for an
-- entry whose name is not "this".
pub parse_debug_info-local_name_at :
    (file : FileView) (bytes : List ℕ) (offset registers_size register pc : ℕ) (d : DebugInfo)
    (i j : ℕ) (l q : LocalVar)
    → parse_debug_info file bytes offset registers_size ≡ ok d
    → get_elem? d.locals i ≡ some l
    → get_elem? d.locals j ≡ some q
    → in_scope register pc l ≡ true
    → in_scope register pc q ≡ true
    → not_this l.name ≡ true
    → (j ≡ i) × (local_name_at d register pc ≡ l.name)
unfolding local_name_at
parse_debug_info-local_name_at file bytes offset registers_size register pc d i j l q e there
      there_too scope scope_too named =
    let apart = parse_debug_info-Apart file bytes offset registers_size d e in
    let test = λ (x : LocalVar). in_scope register pc x && not_this x.name in
    let found : last_where test d.locals ≡ some l =
      last_where-one test d.locals i l there (rw (scope, named)) (λ k p ek tp.
        Apart-one register pc d.locals k i p l apart ek there
          (both (in_scope register pc p) (not_this p.name) tp).0 scope) in
    (
      Apart-one register pc d.locals j i q l apart there_too there scope_too scope,
      rw (found, local_name_at) refl,
    )
