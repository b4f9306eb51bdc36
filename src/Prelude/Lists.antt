-- ===== src/Prelude/Lists.antt =====
-- Lists measured by native numbers, under the library's names, and Boolean searches in them.
use Prim.Native.Nat.{ℕ, suc, ◌+◌}
use Prim.Native.String.{String}
use mathlib.Core.Path.{◌≡◌, refl}
use mathlib.Core.Bool.{Bool, false, ◌||◌, ◌&&◌}
use mathlib.Core.List.{List, [], ◌∷◌, ◌++◌}
use native.Mathlib.Omega.{arith}
use text.Mathlib.Text.{◌==◌ as eq_text}
use stateful_abac_policy_eng.Prelude.Tests.{◌==◌, if◌then◌else◌, or_assoc}

module _ {ℓ} {A : Type ℓ} where
  abbrev pub length : List A → ℕ
  length [] = 0
  length (x ∷ xs) = suc (length xs)

  pub length-append : (xs ys : List A) → length (xs ++ ys) ≡ length xs + length ys
  length-append [] ys = omega arith
  length-append (x ∷ xs) ys = omega (arith, length-append xs ys)

  -- `EXISTS (SELECT ... WHERE test)`, and Python's `any`
  abbrev pub any : (A → Bool) → List A → Bool
  any test [] = false
  any test (x ∷ xs) = test x || any test xs

  -- `SELECT ... WHERE test`, and a filtering comprehension
  abbrev pub where_true : (A → Bool) → List A → List A
  where_true test [] = []
  where_true test (x ∷ xs) = if test x then x ∷ where_true test xs else where_true test xs

  pub any-append :
      (test : A → Bool) (xs ys : List A) → any test (xs ++ ys) ≡ (any test xs || any test ys)
  any-append test [] ys = refl
  any-append test (x ∷ xs) ys =
      ground (arith, any-append test xs ys, or_assoc (test x) (any test xs) (any test ys))

  pub any-where_true :
      (p q : A → Bool) (xs : List A) → any p (where_true q xs) ≡ any (λ x. q x && p x) xs
  any-where_true p q [] = refl
  any-where_true p q (x ∷ xs) = ground (arith, any-where_true p q xs)

pub any-never {ℓ} :
    {A : Type ℓ}
    → (test : A → Bool) (xs : List A) → ((x : A) → test x ≡ false)
    → any test xs ≡ false
any-never test [] h = refl
any-never test (x ∷ xs) h = rw (h x) (any-never test xs h)

pub any-or {ℓ} :
    {A : Type ℓ}
    → (p q both : A → Bool) (xs : List A) → ((x : A) → (p x || q x) ≡ both x)
    → (any p xs || any q xs) ≡ any both xs
any-or p q both [] h = refl
any-or p q both (x ∷ xs) h = ground (arith, h x, any-or p q both xs h)

pub any-same {ℓ} :
    {A : Type ℓ} → (p q : A → Bool) (xs : List A) → ((x : A) → p x ≡ q x) → any p xs ≡ any q xs
any-same p q [] h = refl
any-same p q (x ∷ xs) h = rw (h x) (rw (any-same p q xs h) refl)

-- `x = ANY(xs)`, and Python's `in`, for numbers and for texts
abbrev pub mem_id : ℕ → List ℕ → Bool
mem_id n [] = false
mem_id n (m ∷ ms) = m == n || mem_id n ms

abbrev pub mem_text : String → List String → Bool
mem_text s [] = false
mem_text s (t ∷ ts) = eq_text t s || mem_text s ts

pub mem_id-append : (n : ℕ) (xs ys : List ℕ) → mem_id n (xs ++ ys) ≡ (mem_id n xs || mem_id n ys)
mem_id-append n [] ys = refl
mem_id-append n (x ∷ xs) ys = ground (arith, mem_id-append n xs ys)

pub mem_text-append :
    (s : String) (xs ys : List String) → mem_text s (xs ++ ys) ≡ (mem_text s xs || mem_text s ys)
mem_text-append s [] ys = refl
mem_text-append s (x ∷ xs) ys = ground (arith, mem_text-append s xs ys)

pub cons_head {ℓ} : {A : Type ℓ} (x y : A) (xs ys : List A) → x ∷ xs ≡ y ∷ ys → x ≡ y
cons_head x y xs ys h = cc

-- A search that finds nothing, and a test that fails everywhere.
pub any-none {ℓ} :
    {A : Type ℓ} (p : A → Bool) (xs : List A) → where_true p xs ≡ [] → any p xs ≡ false
any-none p [] h = refl
any-none p (x ∷ xs) h = ground (arith, any-none p xs)

pub cons_tail {ℓ} : {A : Type ℓ} (x y : A) (xs ys : List A) → x ∷ xs ≡ y ∷ ys → xs ≡ ys
cons_tail x y xs ys h = cc

-- every element has the property
abbrev pub Every {ℓ κ} : {A : Type ℓ} → (A → Type κ) → List A → Type κ
Every P [] = Unit
Every P (x ∷ xs) = P x × Every P xs

pub Every-append {ℓ κ} :
    {A : Type ℓ} (P : A → Type κ) (xs ys : List A) → Every P (xs ++ ys) → Every P xs × Every P ys
Every-append P [] ys all = (tt, all)
Every-append P (x ∷ xs) ys (p, all) =
    let (left, right) = Every-append P xs ys all in ((p, left), right)
