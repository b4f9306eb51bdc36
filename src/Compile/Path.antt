-- ===== src/Compile/Path.antt =====
-- A path of JSON steps, as PostgreSQL reads it, and that it reads back the path of a reference.
use Prim.Native.String
use Prim.Native.String.append
use stateful_abac_policy_eng.Prelude.{
  ℕ, zero, suc, String, Bool, true, false, Option, none, some, List, [], ◌∷◌, ◌≡◌, refl, Bool-cases,
  inl, inr, strip_prefix, has_prefix, strip_prefix-append, length,
}
use stateful_abac_policy_eng.Compile.{quote_literal, steps}
use stateful_abac_policy_eng.Compile.Quote.{doubled, has_backslash}
use stateful_abac_policy_eng.Compile.Literal.{
  read_literal, read_literal-quote_literal, dash, letter, append_assoc, arrow_then, quote_then,
}

abbrev Step : Type 0
Step = Bool × String × String

abbrev with_key : Bool → Option (String × String) → Option Step
with_key last none = none
with_key last (some (key, rest)) = some (last, key, rest)

abbrev step_from : Option String → Option String → Option Step
step_from (some last) next = with_key true (read_literal last)
step_from none (some next) = with_key false (read_literal next)
step_from none none = none

-- `->>` or `->` and a key
unfoldable pub read_step : String → Option Step
unfolding strip_prefix
read_step t = step_from (strip_prefix "->>" t) (strip_prefix "->" t)

abbrev pub prepended_key : String → Option (List String × String) → Option (List String × String)
prepended_key key none = none
prepended_key key (some (path, rest)) = some (key ∷ path, rest)

abbrev pub continued :
    Option Step → (String → Option (List String × String)) → Option (List String × String)
continued none more = none
continued (some (true, key, rest)) more = some (key ∷ [], rest)
continued (some (false, key, rest)) more = prepended_key key (more rest)

-- The keys of a path whose last step takes the text, in at most as many steps as the fuel.
unfoldable pub read_path : ℕ → String → Option (List String × String)
unfolding read_step
read_path zero t = none
read_path (suc n) t = continued (read_step t) (read_path n)

abbrev quoted_body : String → String
quoted_body s = String.◌++◌ (doubled s) "'"

-- A literal does not begin with the rest of the longer arrow.
long_arrow :
    (key t : String)
    → strip_prefix "->>" (String.◌++◌ "->" (String.◌++◌ (quote_literal key) t)) ≡ none
unfolding strip_prefix quote_literal
long_arrow key t =
    rw (arrow_then (String.◌++◌ (quote_literal key) t)) (elim (Bool-cases (has_backslash key)) [
      | inl escaped ↦
          rw
            (
              escaped,
              append_assoc "E" (String.◌++◌ "'" (quoted_body key)) t,
              append.cons letter "" (String.◌++◌ (String.◌++◌ "'" (quoted_body key)) t),
            )
            refl
      | inr plain ↦
          rw
            (
              plain,
              append_assoc "'" (quoted_body key) t,
              quote_then (String.◌++◌ (quoted_body key) t),
            )
            refl
    ])

short_arrow : (t : String) → strip_prefix "->" (String.◌++◌ "->" t) ≡ some t
short_arrow t = strip_prefix-append "->" t

-- A path begins with an arrow, not with a quote.
no_quote :
    (key : String) (path : List String) (rest : String)
    → has_prefix "'" (String.◌++◌ (steps "->>" (key ∷ path)) rest) ≡ false
unfolding steps has_prefix strip_prefix
no_quote key [] rest =
    rw
      (
        append_assoc "->>" (quote_literal key) rest,
        append.cons dash ">>" (String.◌++◌ (quote_literal key) rest),
      )
      refl
no_quote key (next ∷ path) rest =
    rw
      (
        append_assoc "->" (String.◌++◌ (quote_literal key) (steps "->>" (next ∷ path))) rest,
        arrow_then (String.◌++◌ (String.◌++◌ (quote_literal key) (steps "->>" (next ∷ path))) rest),
      )
      refl

-- The steps that are written for the path of a reference, which is not empty, are read back as that
-- path, whatever keys it has and whatever follows that does not begin with a quote.
pub read_path-steps :
    (key : String) (path : List String) (rest : String)
    → has_prefix "'" rest ≡ false
    → read_path (length (key ∷ path)) (String.◌++◌ (steps "->>" (key ∷ path)) rest)
      ≡ some (key ∷ path, rest)
unfolding read_path read_step steps
read_path-steps key [] rest h =
    rw
      (
        append_assoc "->>" (quote_literal key) rest,
        strip_prefix-append "->>" (String.◌++◌ (quote_literal key) rest),
        read_literal-quote_literal key rest h,
      )
      refl
read_path-steps key (next ∷ path) rest h =
    let later = String.◌++◌ (steps "->>" (next ∷ path)) rest in
    rw
      (
        append_assoc "->" (String.◌++◌ (quote_literal key) (steps "->>" (next ∷ path))) rest,
        append_assoc (quote_literal key) (steps "->>" (next ∷ path)) rest,
        long_arrow key later,
        short_arrow (String.◌++◌ (quote_literal key) later),
        read_literal-quote_literal key later (no_quote next path rest),
        read_path-steps next path rest h,
      )
      refl
