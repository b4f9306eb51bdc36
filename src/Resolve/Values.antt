-- ===== src/Resolve/Values.antt =====
-- The right side of a leaf, and the answer with what is known put in, against what they mean.
use Prim.Native.String
use stateful_abac_policy_eng.Prelude.{
  String, Bool, true, false, not, Option, none, some, ◌≡◌, refl, is_none, arith, if◌then◌else◌,
  strip_prefix, has_prefix, lower, Bool-cases, Option-cases, inl, inr, strip_prefix-none,
}
use stateful_abac_policy_eng.Json.{Json, null, bool, str, num, obj, arr}
use stateful_abac_policy_eng.Resolve.{
  Left, Right, substituted, right_side, get_value_from_context, or_null, reference_of, text_of_val,
}
use stateful_abac_policy_eng.Resolve.Meaning.{
  meaning, compare_values, answer_leaf, answer_value, value_of,
}
use stateful_abac_policy_eng.Sdk.Condition.{
  Source, resource, principal, context, FluentCondition, Operator, operator_value, build, in_,
  and_op, or_op, not_op,
}

abbrev pub is_logical : Operator → Bool
is_logical and_op = true
is_logical or_op = true
is_logical not_op = true
is_logical _ = false

abbrev pub is_in_op : Operator → Bool
is_in_op in_ = true
is_in_op _ = false

pub lower-operator_value : (op : Operator) → lower (operator_value op) ≡ operator_value op
unfolding lower
lower-operator_value Operator.equals = refl
lower-operator_value _ = refl

-- A text that does not begin with a dollar sign is no reference.
pub plain_text :
    (s : String)
    → has_prefix "$" s ≡ false
    → (strip_prefix "$context." s ≡ none)
      × (strip_prefix "$principal." s ≡ none)
      × (strip_prefix "$resource." s ≡ none)
unfolding has_prefix
plain_text String.[] h = (refl, refl, refl)
plain_text (String.◌∷◌ c s) h = (ground arith, ground arith, ground arith)

module _ (render : Json → String) (other : String → Option String → Option Json → Option Bool)
    (attribute : String → Option String) where
  pub answer_leaf-substituted :
      (f : FluentCondition) (op : Operator) (val : Json) (args : Option Json) (right : Right)
      (at_resource : Bool) (v : Option String)
      → answer_leaf render other attribute (
          substituted (build f op val args) (record { value = v; is_resource = at_resource }) right)
        ≡ compare_values render other attribute
            (some (operator_value op))
            (if at_resource then attribute f.attr else v)
            (answer_value render other attribute (some (or_null right.subbed)))
  unfolding answer_leaf
  answer_leaf-substituted f op val args right true v = rw lower-operator_value refl
  answer_leaf-substituted f op val args right false none = rw lower-operator_value refl
  answer_leaf-substituted f op val args right false (some s) = rw lower-operator_value refl

  pub meaning-substituted :
      (f : FluentCondition) (op : Operator) (val : Json) (args : Option Json) (left : Left)
      (right : Right)
      → is_logical op ≡ false
      → meaning render other attribute (substituted (build f op val args) left right)
        ≡ answer_leaf render other attribute (substituted (build f op val args) left right)
  unfolding meaning lower
  meaning-substituted f Operator.equals val args left right h = refl
  meaning-substituted f and_op val args left right h = cc
  meaning-substituted f or_op val args left right h = cc
  meaning-substituted f _ val args left right h = refl

  module _ (ctx : Json) where
    -- What the resolver is given a value for: an attribute of the principal or the context that is
    -- there, and
    abbrev pub attribute_known : Source → String → Bool
    attribute_known resource name = true
    attribute_known principal name =
        not (is_none (get_value_from_context render ctx (some (String.◌++◌ "$principal." name))))
    attribute_known context name =
        not (is_none (get_value_from_context render ctx (some (String.◌++◌ "$context." name))))

    -- a value that is a literal, a reference to the resource, or a reference that is found and whose
    -- text is not itself a reference to the resource.
    abbrev found_known : String → Option String → Bool
    found_known s none = has_prefix "$resource." s
    found_known s (some t) = not (has_prefix "$resource." t)

    abbrev pub reference_known : Option String → Bool
    reference_known none = true
    reference_known (some s) = found_known s (get_value_from_context render ctx (some s))

    pub get_value-plain :
        (s : String) → has_prefix "$" s ≡ false → get_value_from_context render ctx (some s) ≡ none
    unfolding get_value_from_context
    get_value-plain s h =
        let (no_context, no_principal, _) = plain_text s h in rw (no_context, no_principal)

    -- the three parts of what the next lemma says of a value
    abbrev Agrees : Json → Type 0
    Agrees val =
        (answer_value render other attribute
            (some (or_null (right_side render ctx (some val)).subbed))
          ≡ value_of render other attribute ctx val)
        × ((right_side render ctx (some val)).is_resource ≡ false
            → (t : String) × ((right_side render ctx (some val)).resolved ≡ some t)
              × (text_of_val render (value_of render other attribute ctx val) ≡ some t))

    plain-Agrees : (s : String) → has_prefix "$" s ≡ false → Agrees (str s)
    unfolding right_side value_of
    plain-Agrees s h =
        let none_found = get_value-plain s h in
        let (_, _, no_resource) = plain_text s h in
        rw (h, none_found, no_resource) (refl, λ _. (s, refl, refl))

    found-Agrees :
        (s t : String)
        → has_prefix "$" s ≡ true
        → get_value_from_context render ctx (some s) ≡ some t
        → has_prefix "$resource." t ≡ false
        → Agrees (str s)
    unfolding right_side value_of
    found-Agrees s t h found p =
        rw (h, found, strip_prefix-none "$resource." t p) (refl, λ _. (t, refl, refl))

    resource-Agrees :
        (s : String)
        → has_prefix "$" s ≡ true
        → get_value_from_context render ctx (some s) ≡ none
        → has_prefix "$resource." s ≡ true
        → Agrees (str s)
    unfolding right_side value_of
    resource-Agrees s h missed p = rw (h, missed, p) (refl, λ q. cc)

    str-Agrees :
        (s : String) → reference_known (reference_of (some (str s))) ≡ true → Agrees (str s)
    str-Agrees s h = elim (Bool-cases (has_prefix "$" s)) [
      | inl begins ↦ elim (Option-cases (get_value_from_context render ctx (some s))) [
        | inl missed ↦ resource-Agrees s begins missed (ground arith)
        | inr (t, found) ↦ found-Agrees s t begins found (ground arith)
      ]
      | inr plain ↦ plain-Agrees s plain
    ]

    pub right_side-known :
        (val : Json) → reference_known (reference_of (some val)) ≡ true → Agrees val
    unfolding right_side value_of
    right_side-known (str s) h = str-Agrees s h
    right_side-known null h = (refl, λ _. (render null, refl, refl))
    right_side-known (bool b) h = (refl, λ _. (render (bool b), refl, refl))
    right_side-known (num n) h = (refl, λ _. (render (num n), refl, refl))
    right_side-known (arr xs) h = (refl, λ _. (render (arr xs), refl, refl))
    right_side-known (obj fs) h = (refl, λ _. (render (obj fs), refl, refl))
