-- ===== src/Prelude/Errors.antt =====
-- A value or an error: Go's `(T, error)` where one of the two is nil.
use mathlib.Core.Path.{◌≡◌, refl}
use mathlib.Core.Logic.{◌↔◌}
use mathlib.Core.Bool.{Bool, true, false}
use forgeiq.Prelude.Tests.{if◌then◌else◌}

pub data Result {ℓ κ} (E : Type ℓ) (A : Type κ) : Type (ℓ ⊔ κ) where
  ok : A → Result E A
  err : E → Result E A

infixl 5 ◌>>=◌ ◌>>◌
abbrev pub ◌>>=◌ {ℓ κ μ} :
    {E : Type ℓ} {A : Type κ} {B : Type μ} → Result E A → (A → Result E B) → Result E B
ok a >>= f = f a
err e >>= f = err e

-- `P` of the value, if there is one.
abbrev pub Ensures {ℓ κ μ} : {E : Type ℓ} {A : Type κ} → (A → Type μ) → Result E A → Type μ
Ensures P (ok a) = P a
Ensures P (err e) = Unit

pub Ensures-ok {ℓ κ μ} :
    {E : Type ℓ} {A : Type κ} (P : A → Type μ) (r : Result E A) (a : A)
    → Ensures P r
    → r ≡ ok a
    → P a
Ensures-ok P r a h e = rw e at h

pub Ensures-if {ℓ κ μ} :
    {E : Type ℓ} {A : Type κ} (P : A → Type μ) (t : Bool) (x y : Result E A)
    → Ensures P x
    → Ensures P y
    → Ensures P (if t then x else y)
Ensures-if P true x y hx hy = hx
Ensures-if P false x y hx hy = hy

-- `if !b { return e }`
abbrev pub guard {ℓ} : {E : Type ℓ} → Bool → E → Result E (Unit {0})
guard true e = ok tt
guard false e = err e

abbrev pub ◌>>◌ {ℓ κ} : {E : Type ℓ} {B : Type κ} → Result E (Unit {0}) → Result E B → Result E B
m >> k = m >>= λ _. k

pub Ensures-map {ℓ κ μ ν} :
    {E : Type ℓ} {A : Type κ} (P : A → Type μ) (Q : A → Type ν) (r : Result E A)
    → ((a : A) → P a → Q a)
    → Ensures P r
    → Ensures Q r
Ensures-map P Q (ok a) f h = f a h
Ensures-map P Q (err e) f h = tt

-- Two checks pass exactly when each does.
pub then_iff {ℓ} :
    {E : Type ℓ} (m k : Result E (Unit {0})) → ((m >> k) ≡ ok tt) ↔ ((m ≡ ok tt) × (k ≡ ok tt))
then_iff (ok tt) k = (λ h. (refl, h), λ h. h.1)
then_iff (err e) k = (λ h. absurd (cc), λ h. absurd (cc))
