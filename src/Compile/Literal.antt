-- ===== src/Compile/Literal.antt =====
-- How PostgreSQL reads a literal and a path of JSON steps, and that it reads back what
-- `compile_condition_to_sql` writes.
use Prim.Native.Char.{Char, code}
use Prim.Native.String
use Prim.Native.String.append
use stateful_abac_policy_eng.Prelude.{
  String, Bool, true, false, not, ◌&&◌, ◌||◌, Option, none, some, ◌==◌, ◌≡◌, refl, ap, ◌∙◌, arith,
  if◌then◌else◌, Bool-cases, inl, inr, strip_prefix, has_prefix,
}
use stateful_abac_policy_eng.Compile.{quote_literal}
use stateful_abac_policy_eng.Compile.Quote.{doubled, has_backslash}

-- where a reader of a literal stands: among its characters, or after a quote or a backslash that may
-- be the first of two
pub data Mode : Type 0 where
  inside after_quote after_backslash : Mode

abbrev pub prepended : Char → Option (String × String) → Option (String × String)
prepended c none = none
prepended c (some (s, rest)) = some (String.◌∷◌ c s, rest)

-- The characters of a literal and what follows it. An escape other than a doubled backslash, which
-- stands for another character, is not read.
unfoldable pub read : Bool → Mode → String → Option (String × String)
read escapes inside String.[] = none
read escapes inside (String.◌∷◌ c s) =
    let plain = prepended c (read escapes inside s) in
    let quote = read escapes after_quote s in
    let backslash = read escapes after_backslash s in
    if code c == 39 then quote else if escapes && (code c == 92) then backslash else plain
read escapes after_quote String.[] = some ("", "")
read escapes after_quote (String.◌∷◌ c s) =
    let more = prepended c (read escapes inside s) in
    if code c == 39 then more else some ("", String.◌∷◌ c s)
read escapes after_backslash String.[] = none
read escapes after_backslash (String.◌∷◌ c s) =
    let more = prepended c (read escapes inside s) in if code c == 92 then more else none

abbrev pub read_from : Option String → Option String → Option (String × String)
read_from (some escaped) plain = read true inside escaped
read_from none (some plain) = read false inside plain
read_from none none = none

-- a literal at the front of a text
unfoldable pub read_literal : String → Option (String × String)
unfolding strip_prefix read
read_literal t = read_from (strip_prefix "E'" t) (strip_prefix "'" t)

abbrev pub quote : Char
quote = "'"

abbrev pub letter : Char
letter = "E"

abbrev pub dash : Char
dash = "-"

abbrev pub greater : Char
greater = ">"

pub quote_then : (t : String) → String.◌++◌ "'" t ≡ String.◌∷◌ quote t
quote_then t = append.cons quote "" t ∙ ap (λ u. String.◌∷◌ quote u) (append.nil t)

pub arrow_then : (t : String) → String.◌++◌ "->" t ≡ String.◌∷◌ dash (String.◌∷◌ greater t)
arrow_then t =
    append.cons dash ">" t
    ∙ ap (λ u. String.◌∷◌ dash u)
        (append.cons greater "" t ∙ ap (λ u. String.◌∷◌ greater u) (append.nil t))

pub append_assoc :
    (a b c : String) → String.◌++◌ (String.◌++◌ a b) c ≡ String.◌++◌ a (String.◌++◌ b c)
append_assoc String.[] b c = rw (append.nil b, append.nil (String.◌++◌ b c)) refl
append_assoc (String.◌∷◌ x a) b c =
    rw
      (
        append.cons x a b,
        append.cons x (String.◌++◌ a b) c,
        append.cons x a (String.◌++◌ b c),
        append_assoc a b c,
      )
      refl

read-end :
    (escapes : Bool) (rest : String)
    → has_prefix "'" rest ≡ false
    → read escapes after_quote rest ≡ some ("", rest)
unfolding read has_prefix strip_prefix
read-end escapes String.[] h = refl
read-end escapes (String.◌∷◌ c rest) h = ground arith

first_off : (e b h : Bool) → (e || not (b || h)) ≡ true → (e || not h) ≡ true
first_off e b h p = ground arith

must_escape : (e b h : Bool) → b ≡ true → (e || not (b || h)) ≡ true → e ≡ true
must_escape e b h q p = ground arith

-- Both kinds of literal, where the plain kind is written for no backslash.
read-doubled :
    (escapes : Bool) (s rest : String)
    → has_prefix "'" rest ≡ false
    → (escapes || not (has_backslash s)) ≡ true
    → read escapes inside (String.◌++◌ (doubled s) (String.◌∷◌ quote rest)) ≡ some (s, rest)
unfolding read doubled has_backslash
read-doubled escapes String.[] rest h e =
    rw (append.nil (String.◌∷◌ quote rest)) (read-end escapes rest h)
read-doubled escapes (String.◌∷◌ c s) rest h e =
    let end = String.◌∷◌ quote rest in
    let tail =
      read-doubled escapes s rest h (first_off escapes (code c == 92) (has_backslash s) e) in
    elim (Bool-cases (code c == 39)) [
      | inl is_quote ↦
          rw
            (
              is_quote,
              append.cons c (String.◌∷◌ c (doubled s)) end,
              append.cons c (doubled s) end,
              is_quote,
              tail,
            )
            refl
      | inr other ↦ elim (Bool-cases (code c == 92)) [
        | inl is_backslash ↦
            let escaped : escapes ≡ true =
              must_escape escapes (code c == 92) (has_backslash s) is_backslash e in
            rw
              (
                other,
                is_backslash,
                append.cons c (String.◌∷◌ c (doubled s)) end,
                append.cons c (doubled s) end,
                other,
                is_backslash,
                escaped,
              )
              (rw tail refl)
        | inr plain ↦
            rw (other, plain, append.cons c (doubled s) end, other, plain, tail) (ground arith)
      ]
    ]

-- A text that is quoted is read back as itself, whatever follows that is no quote.
pub read_literal-quote_literal :
    (s rest : String)
    → has_prefix "'" rest ≡ false
    → read_literal (String.◌++◌ (quote_literal s) rest) ≡ some (s, rest)
unfolding read_literal quote_literal has_backslash strip_prefix
read_literal-quote_literal s rest h =
    let body : String.◌++◌ (String.◌++◌ "'" (String.◌++◌ (doubled s) "'")) rest
        ≡ String.◌∷◌ quote (String.◌++◌ (doubled s) (String.◌∷◌ quote rest)) =
      append_assoc "'" (String.◌++◌ (doubled s) "'") rest
      ∙ quote_then (String.◌++◌ (String.◌++◌ (doubled s) "'") rest)
      ∙ ap (λ u. String.◌∷◌ quote u)
          (append_assoc (doubled s) "'" rest
            ∙ ap (λ u. String.◌++◌ (doubled s) u) (quote_then rest)) in
    elim (Bool-cases (has_backslash s)) [
      | inl escaped ↦ rw escaped (
          rw
            (
              append_assoc "E" (String.◌++◌ "'" (String.◌++◌ (doubled s) "'")) rest,
              body,
              append.cons letter ""
                  (String.◌∷◌ quote (String.◌++◌ (doubled s) (String.◌∷◌ quote rest))),
              append.nil (String.◌∷◌ quote (String.◌++◌ (doubled s) (String.◌∷◌ quote rest))),
            )
            (read-doubled true s rest h refl))
      | inr plain ↦ rw plain (rw body (read-doubled false s rest h (rw plain refl)))
    ]
