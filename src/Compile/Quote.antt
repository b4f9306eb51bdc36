-- ===== src/Compile/Quote.antt =====
-- The text functions of PostgreSQL that `compile_condition_to_sql` calls.
use Prim.Native.Char.{Char, code}
use Prim.Native.String
use stateful_abac_policy_eng.Prelude.{
  String, Bool, false, ◌||◌, Option, none, some, List, [], ◌∷◌, ◌==◌, if◌then◌else◌,
}

-- `||`, where NULL makes NULL
infixr 66 ◌<>◌
abbrev pub ◌<>◌ : Option String → Option String → Option String
none <> t = none
some s <> none = none
some s <> some t = some (String.◌++◌ s t)

-- a quote or a backslash, which a literal doubles
abbrev pub is_doubled : Char → Bool
is_doubled c = code c == 39 || code c == 92

unfoldable pub doubled : String → String
doubled String.[] = String.[]
doubled (String.◌∷◌ c s) =
    let rest = doubled s in
    if is_doubled c then String.◌∷◌ c (String.◌∷◌ c rest) else String.◌∷◌ c rest

unfoldable pub has_backslash : String → Bool
has_backslash String.[] = false
has_backslash (String.◌∷◌ c s) = code c == 92 || has_backslash s

-- `quote_literal(s)`, which writes E'...' for a text with a backslash
unfoldable pub quote_literal : String → String
unfolding doubled has_backslash
quote_literal s =
    let body = String.◌++◌ "'" (String.◌++◌ (doubled s) "'") in
    if has_backslash s then String.◌++◌ "E" body else body

-- `quote_literal` of a value that may be NULL
abbrev pub quoted : Option String → Option String
quoted none = none
quoted (some s) = some (quote_literal s)

-- `format('%L', ...)`
abbrev pub literal_or_null : Option String → String
literal_or_null none = "NULL"
literal_or_null (some s) = quote_literal s

-- `format('%s', ...)`
abbrev pub text_or_empty : Option String → String
text_or_empty none = ""
text_or_empty (some s) = s

abbrev pub after_first : String → List (Option String) → String
after_first sep [] = ""
after_first sep (none ∷ ts) = after_first sep ts
after_first sep (some t ∷ ts) = String.◌++◌ sep (String.◌++◌ t (after_first sep ts))

-- `array_to_string(ts, sep)` and `string_agg`, which pass over NULL
abbrev pub joined : String → List (Option String) → String
joined sep [] = ""
joined sep (none ∷ ts) = joined sep ts
joined sep (some t ∷ ts) = String.◌++◌ t (after_first sep ts)
