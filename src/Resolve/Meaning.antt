-- ===== src/Resolve/Meaning.antt =====
-- What a condition means for a resource, in SQL's three-valued logic: of the condition that a client
-- builds, under the request context, and of the answer that the resolver gives, with no context.
-- How an operator other than =, != and IN compares is left open: `other` decides it.
use Prim.Native.String
use stateful_abac_policy_eng.Prelude.{
  String, Bool, true, false, not, Option, none, some, eq_text, if◌then◌else◌, strip_prefix,
}
use stateful_abac_policy_eng.Json.{
  Json, null, bool, str, obj, arr, Items, nil, cons, Fields, end, field, get,
}
use stateful_abac_policy_eng.Resolve.{
  is_text, equal, contained, text_of_val, text_at, operator_of, get_value_from_context,
}
use stateful_abac_policy_eng.Sdk.Condition.{
  Source, resource, principal, context, FluentCondition, Condition, leaf, near, all_of, any_of,
  negated, Conditions, nothing, more, operator_value, method_operator, Operator, st_dwithin,
}

-- Kleene's connectives, SQL's AND, OR and NOT
abbrev pub and3 : Option Bool → Option Bool → Option Bool
and3 (some true) b = b
and3 (some false) b = some false
and3 none (some false) = some false
and3 none _ = none

abbrev pub or3 : Option Bool → Option Bool → Option Bool
or3 (some true) b = some true
or3 (some false) b = b
or3 none (some true) = some true
or3 none _ = none

abbrev pub not3 : Option Bool → Option Bool
not3 none = none
not3 (some b) = some (not b)

abbrev pub json_text : Option String → Option Json
json_text none = none
json_text (some s) = some (str s)

module _ (render : Json → String) (other : String → Option String → Option Json → Option Bool)
    (attribute : String → Option String) where
  -- an operator between the text of its left side and the value of its right side
  unfoldable pub compare_values : Option String → Option String → Option Json → Option Bool
  compare_values none left right = none
  compare_values (some op) left right =
      if eq_text op "="
      then equal left (text_of_val render right)
      else if eq_text op "!="
      then not3 (equal left (text_of_val render right))
      else if eq_text op "in"
      then contained right left
      else other op left right

  abbrev attribute_named : Option String → Option String
  attribute_named none = none
  attribute_named (some name) = attribute name

  abbrev or_named : Option String → String → Option Json
  or_named none s = some (str s)
  or_named (some name) s = json_text (attribute name)

  -- A value, with a reference to the resource replaced by the attribute.
  unfoldable pub answer_value : Option Json → Option Json
  unfolding strip_prefix
  answer_value (some (str s)) = or_named (strip_prefix "$resource." s) s
  answer_value val = val

  unfoldable pub answer_leaf : Json → Option Bool
  unfolding answer_value
  answer_leaf cond =
      compare_values (operator_of render cond)
        (if is_text (text_at render "source" cond) "static"
          then text_at render "attr" cond
          else attribute_named (text_at render "attr" cond))
        (answer_value (get "val" cond))

  abbrev pub answer_branch : Json → Option Bool → Option Bool → Option Bool
  answer_branch cond every some_one =
      if is_text (operator_of render cond) "and"
      then every
      else if is_text (operator_of render cond) "or"
      then some_one
      else answer_leaf cond

  -- Of an answer. JSON's null is the absence of a condition.
  unfoldable mutual
    pub meaning : Json → Option Bool
    meaning null = some true
    meaning (bool b) = some b
    meaning (obj fs) = answer_branch (obj fs) (every_at fs) (some_at fs)
    meaning _ = none

    pub every_at : Fields → Option Bool
    every_at end = some true
    every_at (field k v fs) = if eq_text k "conditions" then every_of v else every_at fs

    pub some_at : Fields → Option Bool
    some_at end = some false
    some_at (field k v fs) = if eq_text k "conditions" then some_of v else some_at fs

    pub every_of : Json → Option Bool
    every_of (arr xs) = every xs
    every_of _ = none

    pub some_of : Json → Option Bool
    some_of (arr xs) = some_item xs
    some_of _ = none

    pub every : Items → Option Bool
    every nil = some true
    every (cons x xs) = and3 (meaning x) (every xs)

    pub some_item : Items → Option Bool
    some_item nil = some false
    some_item (cons x xs) = or3 (meaning x) (some_item xs)

  module _ (ctx : Json) where
    abbrev pub attribute_at : Source → String → Option String
    attribute_at resource name = attribute name
    attribute_at principal name =
        get_value_from_context render ctx (some (String.◌++◌ "$principal." name))
    attribute_at context name =
        get_value_from_context render ctx (some (String.◌++◌ "$context." name))

    abbrev or_attribute : Option String → String → Option Json
    or_attribute (some t) s = some (str t)
    or_attribute none s = answer_value (some (str s))

    -- A value, with a reference to the context, the principal or the resource replaced.
    unfoldable pub value_of : Json → Option Json
    unfolding answer_value
    value_of (str s) = or_attribute (get_value_from_context render ctx (some s)) s
    value_of val = some val

    unfoldable pub leaf_holds : FluentCondition → Operator → Json → Option Bool
    unfolding value_of
    leaf_holds f op val =
        compare_values (some (operator_value op)) (attribute_at f.source f.attr) (value_of val)

    -- Of the condition that a client writes with the builder.
    unfoldable mutual
      pub holds : Condition → Option Bool
      holds (leaf f method val) = leaf_holds f (method_operator method) val
      holds (near f val distance) = leaf_holds f st_dwithin val
      holds (all_of cs) = every_holds cs
      holds (any_of cs) = some_holds cs
      holds (negated c) = not3 (holds c)

      pub every_holds : Conditions → Option Bool
      every_holds nothing = some true
      every_holds (more c cs) = and3 (holds c) (every_holds cs)

      pub some_holds : Conditions → Option Bool
      some_holds nothing = some false
      some_holds (more c cs) = or3 (holds c) (some_holds cs)
