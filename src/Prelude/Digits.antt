-- ===== src/Prelude/Digits.antt =====
-- `str(n)`: the decimal digits of a number.
use Prim.Native.Char.{Char, code}
use Prim.Native.Nat.{ℕ, zero, suc, ◌+◌, ◌/◌, ◌%◌, ◌<◌}
use Prim.Native.String.{String}
use mathlib.Core.Path.{◌≡◌, refl}
use native.Mathlib.Omega.{arith}
use stateful_abac_policy_eng.Prelude.Tests.{ltb, if◌then◌else◌}

-- the character at an index of a text, or its last one
nth : String → ℕ → Char
nth (String.◌∷◌ c s) zero = c
nth (String.◌∷◌ c s) (suc n) = nth s n
nth String.[] n = "9"

unfoldable pub digit : ℕ → Char
unfolding nth
digit n = nth "0123456789" n

-- Every round divides by ten, so `n` and one more is fuel enough.
unfoldable pub digits : ℕ → ℕ → String → String
digits zero n rest = rest
digits (suc fuel) n rest =
    let more = digits fuel (n / 10) (String.◌∷◌ (digit (n % 10)) rest) in
    if ltb n 10 then String.◌∷◌ (digit n) rest else more

unfoldable pub str_of : ℕ → String
unfolding digits digit
str_of n = digits (suc n) n ""

pub code-digit : (n : ℕ) → n < 10 → code (digit n) ≡ n + 48
unfolding digit
code-digit zero h = refl
code-digit (suc zero) h = refl
code-digit (suc (suc zero)) h = refl
code-digit (suc (suc (suc zero))) h = refl
code-digit (suc (suc (suc (suc zero)))) h = refl
code-digit (suc (suc (suc (suc (suc zero))))) h = refl
code-digit (suc (suc (suc (suc (suc (suc zero)))))) h = refl
code-digit (suc (suc (suc (suc (suc (suc (suc zero))))))) h = refl
code-digit (suc (suc (suc (suc (suc (suc (suc (suc zero)))))))) h = refl
code-digit (suc (suc (suc (suc (suc (suc (suc (suc (suc zero))))))))) h = refl
code-digit (suc (suc (suc (suc (suc (suc (suc (suc (suc (suc n)))))))))) h =
    absurd (omega (arith, h))
