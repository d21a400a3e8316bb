-- ===== src/Prelude/Result.antt =====
-- The outcome of a call that may raise: a value or the error raised.
use mathlib.Core.Bool.{Bool, true, false}
use mathlib.Core.Path.{◌≡◌, refl, subst, ap}
use native.Mathlib.Omega.{arith}

pub data Result {ℓ} (E A : Type ℓ) : Type ℓ where
  ok : A → Result E A
  err : E → Result E A

infixl 5 ◌>>=◌ ◌>>◌
abbrev pub ◌>>=◌ {ℓ} : {E A B : Type ℓ} → Result E A → (A → Result E B) → Result E B
ok a >>= f = f a
err e >>= f = err e

abbrev pub ◌>>◌ {ℓ} : {E B : Type ℓ} → Result E (Unit {ℓ}) → Result E B → Result E B
m >> k = m >>= λ _. k

-- `if not test: raise e`
abbrev pub guard {ℓ} : {E : Type ℓ} → Bool → E → Result E (Unit {ℓ})
guard true e = ok tt
guard false e = err e

abbrev pub ok_or {ℓ} : {E A : Type ℓ} → A → Result E A → A
ok_or d (ok a) = a
ok_or d (err e) = d

-- A property of the value that a call returned.
pub of_ok {ℓ κ} :
    {E A : Type ℓ} (P : A → Type κ) (a b : A) → ◌≡◌ {A = Result E A} (ok a) (ok b) → P a → P b
of_ok P a b h = subst P (ap (ok_or a) h)

-- A chain that succeeds does so at each of its links.
pub bind_ok {ℓ} :
    {E A B : Type ℓ} (m : Result E A) (f : A → Result E B) (b : B)
    → (m >>= f) ≡ ok b
    → (a : A) × (m ≡ ok a) × (f a ≡ ok b)
bind_ok (ok a) f b h = (a, refl, h)
bind_ok (err e) f b h = ground arith
