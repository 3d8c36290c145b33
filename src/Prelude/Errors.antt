-- ===== src/Prelude/Errors.antt =====
-- `Result<A, E>` and the `?` operator, and the checked arithmetic of error.rs.
use droidsaw_dex.Prelude.{◌≡◌, refl, subst, Bool, true, false}
use droidsaw_dex.Prelude.{Option, none, some}

pub data Result {ℓ} (E : Type 0) (A : Type ℓ) : Type ℓ where
  ok : A → Result E A
  err : E → Result E A

infixl 1 ◌>>=◌ ◌>>◌
abbrev pub ◌>>=◌ {ℓ κ} :
    {E : Type 0} {A : Type ℓ} {B : Type κ} → Result E A → (A → Result E B) → Result E B
ok a >>= f = f a
err e >>= f = err e

abbrev pub ◌>>◌ {ℓ} : {E : Type 0} {B : Type ℓ} → Result E (Unit {0}) → Result E B → Result E B
m >> k = m >>= λ _. k

abbrev pub guard : {E : Type 0} → Bool → E → Result E (Unit {0})
guard true e = ok tt
guard false e = err e

abbrev pub ok_or {ℓ} : {E : Type 0} {A : Type ℓ} → Option A → E → Result E A
ok_or none e = err e
ok_or (some a) e = ok a

-- `P` of the value, if there is one.
abbrev pub IfOk {ℓ κ} : {E : Type 0} {A : Type ℓ} → (A → Type κ) → Result E A → Type κ
IfOk P (ok a) = P a
IfOk P (err e) = Unit

pub IfOk-bind {ℓ κ μ ν} :
    {E : Type 0} {A : Type ℓ} {B : Type κ} (Q : A → Type μ) (P : B → Type ν) (r : Result E A)
    (f : A → Result E B)
    → IfOk Q r
    → ((a : A) → Q a → IfOk P (f a))
    → IfOk P (r >>= f)
IfOk-bind Q P (ok a) f h k = k a h
IfOk-bind Q P (err e) f h k = tt

-- A bind, where what the first part returns does not matter.
pub IfOk-then {ℓ κ μ} :
    {E : Type 0} {A : Type ℓ} {B : Type κ} (P : B → Type μ) (r : Result E A) (f : A → Result E B)
    → ((a : A) → IfOk P (f a))
    → IfOk P (r >>= f)
IfOk-then P (ok a) f k = k a
IfOk-then P (err e) f k = tt

pub IfOk-map {ℓ κ μ} :
    {E : Type 0} {A : Type ℓ} (P : A → Type κ) (Q : A → Type μ) (r : Result E A)
    → ((a : A) → P a → Q a)
    → IfOk P r
    → IfOk Q r
IfOk-map P Q (ok a) k h = k a h
IfOk-map P Q (err e) k h = tt

pub IfOk-eq {ℓ κ} :
    {E : Type 0} {A : Type ℓ} (P : A → Type κ) (r : Result E A) {a : A} → IfOk P r → r ≡ ok a → P a
IfOk-eq P r h e = subst (IfOk P) e h

-- Two continuations that agree on the value.
pub bind-cong {ℓ κ} :
    {E : Type 0} {A : Type ℓ} {B : Type κ} (r : Result E A) (f g : A → Result E B)
    → IfOk (λ a. f a ≡ g a) r
    → (r >>= f) ≡ (r >>= g)
bind-cong (ok a) f g h = h
bind-cong (err e) f g h = refl

-- A bind, where what follows may use that the first part returned this value.
pub IfOk-seq {ℓ κ μ} :
    {E : Type 0} {A : Type ℓ} {B : Type κ} (P : B → Type μ) (r : Result E A) (f : A → Result E B)
    → ((a : A) → r ≡ ok a → IfOk P (f a))
    → IfOk P (r >>= f)
IfOk-seq P (ok a) f k = k a refl
IfOk-seq P (err e) f k = tt

pub IfOk-intro {ℓ κ} :
    {E : Type 0} {A : Type ℓ} (P : A → Type κ) (r : Result E A)
    → ((a : A) → r ≡ ok a → P a)
    → IfOk P r
IfOk-intro P (ok a) k = k a refl
IfOk-intro P (err e) k = tt

pub bind-ok {ℓ κ} :
    {E : Type 0} {A : Type ℓ} {B : Type κ} (r : Result E A) (f : A → Result E B) {b : B}
    → (r >>= f) ≡ ok b
    → (a : A) × (r ≡ ok a) × (f a ≡ ok b)
bind-ok (ok a) f h = (a, refl, h)
bind-ok (err e) f h = cc

pub guard-ok : {E : Type 0} (c : Bool) (e : E) {u : Unit {0}} → guard c e ≡ ok u → c ≡ true
guard-ok true e h = refl
guard-ok false e h = cc

pub ok-eq {ℓ} : {E : Type 0} {A : Type ℓ} {a b : A} → ◌≡◌ {A = Result E A} (ok a) (ok b) → a ≡ b
ok-eq h = cc
