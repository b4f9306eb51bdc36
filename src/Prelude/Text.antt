-- ===== src/Prelude/Text.antt =====
-- Texts: prefixes, splitting at dots and lower case, over the characters of a native text.
use Prim.Native.Char.{Char, code}
use Prim.Native.String.{String, ◌++◌}
use Prim.Native.String.append
use mathlib.Core.Path.{◌≡◌, ap}
use mathlib.Core.Bool.{Bool, false, not}
use mathlib.Core.Option.{Option, none, some}
use mathlib.Core.List.{List, [], ◌∷◌}
use native.Mathlib.Omega.{arith}
use stateful_abac_policy_eng.Prelude.Tests.{◌==◌, if◌then◌else◌, is_none}

-- What follows the prefix, if the text begins with it.
unfoldable pub strip_prefix : String → String → Option String
strip_prefix String.[] s = some s
strip_prefix (String.◌∷◌ c p) String.[] = none
strip_prefix (String.◌∷◌ c p) (String.◌∷◌ d s) = if code c == code d then strip_prefix p s else none

-- `s LIKE 'p%'` and `s.startswith(p)`
unfoldable pub has_prefix : String → String → Bool
unfolding strip_prefix
has_prefix p s = not (is_none (strip_prefix p s))

onto_first : Char → List String → List String
onto_first c [] = String.◌∷◌ c String.[] ∷ []
onto_first c (s ∷ rest) = String.◌∷◌ c s ∷ rest

pieces : String → List String
unfolding onto_first
pieces String.[] = String.[] ∷ []
pieces (String.◌∷◌ c s) = if code c == b'.' then String.[] ∷ pieces s else onto_first c (pieces s)

-- `string_to_array(s, '.')`: the empty text gives the empty array.
unfoldable pub split_dots : String → List String
unfolding pieces
split_dots String.[] = []
split_dots (String.◌∷◌ c s) = pieces (String.◌∷◌ c s)

-- the character of `to` at the place where `c` stands in `from`, or `c`
swap_char : Char → String → String → Char
swap_char c (String.◌∷◌ f from) (String.◌∷◌ t to) =
    if code c == code f then t else swap_char c from to
swap_char c _ _ = c

-- `lower(s)`, on the ASCII letters
unfoldable pub lower : String → String
unfolding swap_char
lower String.[] = String.[]
lower (String.◌∷◌ c s) =
    String.◌∷◌ (swap_char c "ABCDEFGHIJKLMNOPQRSTUVWXYZ" "abcdefghijklmnopqrstuvwxyz") (lower s)

pub strip_prefix-append : (p s : String) → strip_prefix p (p ++ s) ≡ some s
unfolding strip_prefix
strip_prefix-append String.[] s = ap some (append.nil s)
strip_prefix-append (String.◌∷◌ c p) s =
    rw (append.cons c p s) (ground (arith, strip_prefix-append p s))

pub strip_prefix-none : (p s : String) → has_prefix p s ≡ false → strip_prefix p s ≡ none
unfolding has_prefix
strip_prefix-none p s h = ground arith

-- `upper(s)`, on the ASCII letters
unfoldable pub upper : String → String
unfolding swap_char
upper String.[] = String.[]
upper (String.◌∷◌ c s) =
    String.◌∷◌ (swap_char c "abcdefghijklmnopqrstuvwxyz" "ABCDEFGHIJKLMNOPQRSTUVWXYZ") (upper s)

drop_spaces : String → String
drop_spaces String.[] = String.[]
drop_spaces (String.◌∷◌ c s) = if code c == b' ' then drop_spaces s else String.◌∷◌ c s

-- the character before a text whose spaces at the end are gone
before_end : Char → String → String
before_end c String.[] = if code c == b' ' then String.[] else String.◌∷◌ c String.[]
before_end c s = String.◌∷◌ c s

drop_last_spaces : String → String
unfolding before_end
drop_last_spaces String.[] = String.[]
drop_last_spaces (String.◌∷◌ c s) = before_end c (drop_last_spaces s)

-- `trim(s)`, which drops the spaces at both ends
unfoldable pub trim : String → String
unfolding drop_spaces drop_last_spaces
trim s = drop_last_spaces (drop_spaces s)
