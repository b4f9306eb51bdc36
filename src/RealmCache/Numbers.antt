-- ===== src/RealmCache/Numbers.antt =====
-- The ids in a realm map are read back as the numbers that were printed.
use Prim.Native.Char.{Char}
use stateful_abac_policy_eng.Prelude.{
  ℕ, zero, suc, ◌+◌, ◌*◌, ◌/◌, ◌%◌, ◌-◌, ◌<◌, String, true, false, some, ◌≡◌, refl, ap, ◌∙◌, arith,
  ltb, leb, Bool-cases, inl, inr, digit, digits, str_of, code-digit, ok, eq_text, eq_iff,
}
use stateful_abac_policy_eng.Auth.{read_digits, int_of}

one_digit :
    (acc n : ℕ) (rest : String)
    → n < 10
    → read_digits acc (String.◌∷◌ (digit n) rest) ≡ read_digits ((acc * 10) + n) rest
unfolding read_digits
one_digit acc n rest h =
    let value = code-digit n h in
    let low : leb b'0' (n + 48) ≡ true = ground (arith, h) in
    let high : leb (n + 48) b'9' ≡ true = ground (arith, h) in
    let next : (acc * 10) + ((n + 48) - b'0') ≡ (acc * 10) + n = omega arith in
    rw (value, low, high, next) refl

read_digits-digits :
    (fuel n : ℕ) (rest : String)
    → n < fuel
    → read_digits 0 (digits fuel n rest) ≡ read_digits n rest
unfolding digits
read_digits-digits zero n rest h = absurd (omega (arith, h))
read_digits-digits (suc fuel) n rest h = elim (Bool-cases (ltb n 10)) [
  | inl small ↦
      let below : n < 10 = ground (arith, small) in
      let same : (0 * 10) + n ≡ n = omega arith in
      rw small (one_digit 0 n rest below ∙ ap (λ k. read_digits k rest) same)
  | inr large ↦
      let less : n / 10 < fuel = ground (arith, large, h) in
      let below : n % 10 < 10 = omega arith in
      let whole : ((n / 10) * 10) + n % 10 ≡ n = omega arith in
      rw large (
        read_digits-digits fuel (n / 10) (String.◌∷◌ (digit (n % 10)) rest) less
        ∙ one_digit (n / 10) (n % 10) rest below
        ∙ ap (λ k. read_digits k rest) whole)
]

cons_nonempty : (c : Char) (s : String) → eq_text (String.◌∷◌ c s) "" ≡ false
cons_nonempty c s = elim (Bool-cases (eq_text (String.◌∷◌ c s) "")) [
  | inl same ↦ cons_absurd c s ((eq_iff (String.◌∷◌ c s) "").0 same)
  | inr other ↦ other
]
  where
    cons_absurd :
        (c : Char) (s : String) → String.◌∷◌ c s ≡ "" → eq_text (String.◌∷◌ c s) "" ≡ false
    cons_absurd c s h = cc

-- The text of a number is not empty.
digits-nonempty : (fuel n : ℕ) (rest : String) → n < fuel → eq_text (digits fuel n rest) "" ≡ false
unfolding digits
digits-nonempty zero n rest h = absurd (omega (arith, h))
digits-nonempty (suc fuel) n rest h = elim (Bool-cases (ltb n 10)) [
  | inl small ↦ rw small (cons_nonempty (digit n) rest)
  | inr large ↦
      let less : n / 10 < fuel = ground (arith, large, h) in
      rw large (digits-nonempty fuel (n / 10) (String.◌∷◌ (digit (n % 10)) rest) less)
]

int_of_text :
    (s : String) (n : ℕ) → eq_text s "" ≡ false → read_digits 0 s ≡ some n → int_of s ≡ ok n
unfolding int_of
int_of_text s n h read = rw (h, read) refl

read_end : (n : ℕ) → read_digits n "" ≡ some n
unfolding read_digits
read_end n = refl

-- `int(str(n))` is `n`, and `str(n)` is not empty.
pub int_of-str_of : (n : ℕ) → int_of (str_of n) ≡ ok n
unfolding str_of
int_of-str_of n =
    let less : n < suc n = omega arith in
    int_of_text (digits (suc n) n "") n (digits-nonempty (suc n) n "" less)
      (read_digits-digits (suc n) n "" less ∙ read_end n)

pub str_of-nonempty : (n : ℕ) → eq_text (str_of n) "" ≡ false
unfolding str_of
str_of-nonempty n = let less : n < suc n = omega arith in digits-nonempty (suc n) n "" less
