-- ===== src/Prelude/Raise.antt =====
-- A computation that returns or raises: an exception of PL/pgSQL or of Python.
use mathlib.Core.Path.{◌≡◌, refl}
use mathlib.Core.Logic.{◌⊎◌, inl, inr}

pub data Result {ℓ} (A : Type ℓ) : Type ℓ where
  ok : A → Result A
  err : Result A

infixl 5 ◌>>=◌
abbrev pub ◌>>=◌ {ℓ κ} : {A : Type ℓ} {B : Type κ} → Result A → (A → Result B) → Result B
ok a >>= f = f a
err >>= f = err

pub Result-cases {ℓ} : {A : Type ℓ} (r : Result A) → (r ≡ err) ⊎ ((a : A) × (r ≡ ok a))
Result-cases (ok a) = inr (a, refl)
Result-cases err = inl refl

pub ok_injective {ℓ} : {A : Type ℓ} (a b : A) → ok a ≡ ok b → a ≡ b
ok_injective a b h = cc

pub err_absurd {ℓ κ} : {A : Type ℓ} (a : A) → err ≡ ok a → {B : Type κ} → B
err_absurd a h = cc

pub ok_of_bind {ℓ κ} :
    {A : Type ℓ} {B : Type κ}
    → (r : Result A) (f : A → Result B) (b : B) → (r >>= f) ≡ ok b
    → (a : A) × (r ≡ ok a) × (f a ≡ ok b)
ok_of_bind (ok a) f b h = (a, refl, h)
ok_of_bind err f b h = err_absurd b h
