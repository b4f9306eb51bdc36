-- ===== src/Compile/Values.antt =====
-- The values of the two sides of a comparison: of the clause, and of the condition it is written for.
use Prim.Native.String
use Prim.Native.String.append
use stateful_abac_policy_eng.Prelude.{
  String, Bool, true, false, Option, none, some, List, [], ◌∷◌, ◌≡◌, refl, sym, ap, ◌∙◌, arith,
  Option-cases, inl, inr, strip_prefix, split_dots, is_none, strip_prefix-append, eq_iff,
}
use stateful_abac_policy_eng.Json.{Json, str, arr, Items, nil, cons, get, items_contain}
use stateful_abac_policy_eng.Resolve.{walk, get_value_from_context, text_of_val, contained}
use stateful_abac_policy_eng.Resolve.Meaning.{value_of, json_text, answer_value, attribute_at}
use stateful_abac_policy_eng.Sdk.Condition.{Source, resource, principal, context}
use stateful_abac_policy_eng.Compile.Clause.{place_value, operand_value, equals_any}
use stateful_abac_policy_eng.Compile.Leaves.{
  place_of, path_operand, operand_of, IsName, IsFound, IsFoundAt, is_path,
}

-- A list of texts that is not empty.
abbrev pub AllTexts : Items → Type 0
AllTexts nil = Unit
AllTexts (cons (str s) items) = AllTexts items
AllTexts (cons _ items) = ⊥

abbrev pub IsTexts : Items → Type 0
IsTexts nil = ⊥
IsTexts (cons j items) = AllTexts (cons j items)

-- A text has one of the prefixes at most.
one_prefix :
    (s path : String) → strip_prefix "$principal." s ≡ some path → strip_prefix "$context." s ≡ none
unfolding strip_prefix
one_prefix String.[] path h = refl
one_prefix (String.◌∷◌ c String.[]) path h = ground arith
one_prefix (String.◌∷◌ c (String.◌∷◌ d s)) path h = ground arith

module _ (render : Json → String) (ctx : Json) where
  get_value-principal :
      (name : String)
      → get_value_from_context render ctx (some (String.◌++◌ "$principal." name))
        ≡ walk render (get "principal" ctx) (split_dots name)
  unfolding get_value_from_context
  get_value-principal name =
      let found = strip_prefix-append "$principal." name in
      rw (found, one_prefix (String.◌++◌ "$principal." name) name found) refl

  get_value-context :
      (name : String)
      → get_value_from_context render ctx (some (String.◌++◌ "$context." name))
        ≡ walk render (get "context" ctx) (split_dots name)
  unfolding get_value_from_context
  get_value-context name = rw (strip_prefix-append "$context." name) refl

  module _ (other : String → Option String → Option Json → Option Bool)
      (attribute : String → Option String) where
    pub place_value-attribute_at :
        (source : Source) (name : String)
        → IsName source name
        → place_value render other attribute ctx (place_of source name)
          ≡ attribute_at render other attribute ctx source name
    unfolding place_value
    place_value-attribute_at resource name h = refl
    place_value-attribute_at principal name h = sym (rw (get_value-principal name, h) refl)
    place_value-attribute_at context name h = sym (rw (get_value-context name, h) refl)

    found_operand :
        (root s : String) (path : List String)
        → is_path path ≡ true
        → operand_value render other attribute ctx (path_operand root s path)
          ≡ walk render (get root ctx) path
    unfolding operand_value
    found_operand root s [] h = cc
    found_operand root s (key ∷ path) h = refl

    not_none : (o : Option String) → is_none o ≡ false → (t : String) × (o ≡ some t)
    not_none none h = cc
    not_none (some t) h = (t, refl)

    -- The value of a text under the context, as the resolver and as the clause have it.
    pub value_of-operand :
        (s : String)
        → IsFound render ctx s
        → value_of render other attribute ctx (str s)
          ≡ json_text (operand_value render other attribute ctx (operand_of s))
    unfolding value_of get_value_from_context answer_value operand_of operand_value IsFound
    value_of-operand s h = elim (Option-cases (strip_prefix "$principal." s)) [
      | inr (path, p) ↦
          let (there, found) : IsFoundAt render ctx (some path) (strip_prefix "$context." s)
              (strip_prefix "$resource." s) =
            rw p at h in
          let (t, at) = not_none (walk render (get "principal" ctx) (split_dots path)) found in
          rw (p, one_prefix s path p, at)
            (sym (ap json_text (found_operand "principal" s (split_dots path) there ∙ at)))
      | inl p ↦ elim (Option-cases (strip_prefix "$context." s)) [
        | inr (path, c) ↦
            let (there, found) : IsFoundAt render ctx none (some path)
                (strip_prefix "$resource." s) =
              rw (p, c) at h in
            let (t, at) = not_none (walk render (get "context" ctx) (split_dots path)) found in
            rw (p, c, at)
              (sym (ap json_text (found_operand "context" s (split_dots path) there ∙ at)))
        | inl c ↦ elim (Option-cases (strip_prefix "$resource." s)) [
          | inr (path, r) ↦ rw (p, c, r) refl
          | inl r ↦ rw (p, c, r) refl
        ]
      ]
    ]

    pub text_of_val-json_text : (o : Option String) → text_of_val render (json_text o) ≡ o
    text_of_val-json_text none = refl
    text_of_val-json_text (some s) = refl

    any-contains :
        (a : String) (items : Items)
        → AllTexts items
        → equals_any render other attribute ctx (some a) items ≡ some (items_contain items a)
    any-contains a nil h = refl
    any-contains a (cons (str s) items) h =
        rw (any-contains a items h) (ground (arith, eq_iff a s, eq_iff s a))
    any-contains a (cons _ items) h = absurd h

    any-null :
        (j : Json) (items : Items)
        → equals_any render other attribute ctx none (cons j items) ≡ none
    any-null j nil = refl
    any-null j (cons k items) = rw (any-null k items) refl

    -- = ANY and the resolver's IN agree on a list of texts.
    pub equals_any-contained :
        (left : Option String) (items : Items)
        → IsTexts items
        → equals_any render other attribute ctx left items ≡ contained (some (arr items)) left
    equals_any-contained none nil h = absurd h
    equals_any-contained none (cons j items) h = any-null j items
    equals_any-contained (some a) nil h = absurd h
    equals_any-contained (some a) (cons j items) h = any-contains a (cons j items) h
