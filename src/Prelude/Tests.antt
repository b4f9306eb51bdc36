-- ===== src/Prelude/Tests.antt =====
-- Boolean tests on numbers and options, and the conditional.
use Prim.Native.Nat.{ℕ, compare, Ordering}
use mathlib.Core.Path.{◌≡◌, refl}
use mathlib.Core.Logic.{◌↔◌, ◌⊎◌, inl, inr}
use mathlib.Core.Bool.{Bool, true, false, ◌&&◌, ◌||◌}
use mathlib.Core.Option.{Option, none, some}
use native.Mathlib.Omega.{arith}

abbrev pub ltb : ℕ → ℕ → Bool
ltb a b = elim (compare a b) [ Ordering.lt ↦ true | _ ↦ false ]

abbrev pub leb : ℕ → ℕ → Bool
leb a b = elim (compare a b) [ Ordering.gt ↦ false | _ ↦ true ]

infix 50 ◌==◌
abbrev pub ◌==◌ : ℕ → ℕ → Bool
a == b = elim (compare a b) [ Ordering.eq ↦ true | _ ↦ false ]

infix 1 if◌then◌else◌
abbrev pub if◌then◌else◌ {ℓ} : {A : Type ℓ} → Bool → A → A → A
if true then x else y = x
if false then x else y = y

pub ==_iff : (a b : ℕ) → ((a == b) ≡ true) ↔ (a ≡ b)
==_iff a b = ground arith

-- To split on a computed value and keep the equation.
pub Bool-cases : (b : Bool) → (b ≡ true) ⊎ (b ≡ false)
Bool-cases true = inl refl
Bool-cases false = inr refl

pub Option-cases {ℓ} : {A : Type ℓ} (o : Option A) → (o ≡ none) ⊎ ((a : A) × (o ≡ some a))
Option-cases none = inl refl
Option-cases (some a) = inr (a, refl)

abbrev pub is_none {ℓ} : {A : Type ℓ} → Option A → Bool
is_none none = true
is_none (some a) = false

-- `column = value`, where a NULL column never matches.
abbrev pub is_id : Option ℕ → ℕ → Bool
is_id none n = false
is_id (some m) n = m == n

-- The laws of the Boolean connectives that `simp` needs.
pub or_assoc : (a b c : Bool) → ((a || b) || c) ≡ (a || (b || c))
or_assoc true b c = refl
or_assoc false b c = refl

pub or_comm : (a b : Bool) → (a || b) ≡ (b || a)
or_comm a b = ground arith

pub or-false : (a : Bool) → (a || false) ≡ a
or-false a = ground arith

pub and_parts : (a b : Bool) → (a && b) ≡ true → (a ≡ true) × (b ≡ true)
and_parts a b h = ground arith

pub or-true : (a : Bool) → (a || true) ≡ true
or-true a = ground arith

pub or_parts : (a b : Bool) → (a || b) ≡ false → (a ≡ false) × (b ≡ false)
or_parts a b h = ground arith

-- A test that is true and false.
pub true_false {ℓ} : {B : Type ℓ} (a : Bool) → a ≡ true → a ≡ false → B
true_false a h k = cc

pub ==_flip : (m n : ℕ) → (m == n) ≡ (n == m)
==_flip m n = ground arith

pub ==_self : (n : ℕ) → (n == n) ≡ true
==_self n = ground arith

pub some_injective {ℓ} : {A : Type ℓ} (a b : A) → some a ≡ some b → a ≡ b
some_injective a b h = cc
