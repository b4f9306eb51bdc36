-- ===== src/Resolve/Faults.antt =====
-- Where the resolver departs from what a condition means: `not_`, and a missing attribute.
use Prim.Native.String
use stateful_abac_policy_eng.Prelude.{String, Bool, Option, none, some, ◌≡◌, refl, ok, lower}
use stateful_abac_policy_eng.Json.{Json, null, str, obj, field, end}
use stateful_abac_policy_eng.Resolve.{
  resolve_abac_condition, resolve, dispatch, resolve_leaf, left_side, right_side, evaluate,
  get_value_from_context, reference_of,
}
use stateful_abac_policy_eng.Resolve.Meaning.{holds, leaf_holds, compare_values}
use stateful_abac_policy_eng.Sdk.Condition.{leaf, attr_named, from_principal, call, eq, not_}

-- the answer for every use of `not_`
abbrev pub negation_of_null : Json
negation_of_null = obj (field "op" (str "not") (field "condition" null end))

module _ (render : Json → String) (ctx : Json) where
  -- Whatever condition the SDK's `not_` is given, and whatever the context, the resolver's answer for
  -- the negation is the negation of null: the negated condition, which `not_` sends in the list
  -- 'conditions' and the resolver looks for under 'condition', is lost.
  pub resolve-not_ :
      (c : Json) → resolve_abac_condition render ctx (some (not_ c)) ≡ ok (some negation_of_null)
  unfolding resolve_abac_condition resolve dispatch lower
  resolve-not_ c = refl

  -- An equation of an attribute that the principal lacks with a literal resolves to NULL.
  pub resolve-missing :
      (name : String) (val : Json)
      → get_value_from_context render ctx (some (String.◌++◌ "$principal." name)) ≡ none
      → reference_of (some val) ≡ none
      → resolve_abac_condition render ctx (some (call (from_principal (attr_named name)) eq val))
        ≡ ok none
  unfolding resolve_abac_condition resolve dispatch resolve_leaf left_side right_side evaluate lower
  resolve-missing name val missing literal = rw (missing, literal)

  -- The condition itself is then unknown, which does not let a row through.
  pub holds-missing :
      (other : String → Option String → Option Json → Option Bool)
      (attribute : String → Option String) (name : String) (val : Json)
      → get_value_from_context render ctx (some (String.◌++◌ "$principal." name)) ≡ none
      → holds render other attribute ctx (leaf (from_principal (attr_named name)) eq val) ≡ none
  unfolding holds leaf_holds compare_values
  holds-missing other attribute name val missing = rw missing
