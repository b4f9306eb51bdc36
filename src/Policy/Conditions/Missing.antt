-- ===== src/Policy/Conditions/Missing.antt =====
-- A condition on an attribute that the principal lacks grants the whole type.
use Prim.Native.String
use stateful_abac_policy_eng.Prelude.{
  String, Bool, Option, none, some, List, [], ◌∷◌, ◌≡◌, ok, true,
}
use stateful_abac_policy_eng.Json.{Json}
use stateful_abac_policy_eng.Resolve.{get_value_from_context, reference_of}
use stateful_abac_policy_eng.Resolve.Meaning.{holds}
use stateful_abac_policy_eng.Resolve.Faults.{resolve-missing, holds-missing}
use stateful_abac_policy_eng.Sdk.Condition.{leaf, attr_named, from_principal, eq, call}
use stateful_abac_policy_eng.Policy.{Acl, ExternalId, Query}
use stateful_abac_policy_eng.Policy.Conditions.{
  applies, granted, get_authorization_conditions, collect, group_rows, insert_row, handle_group,
}

-- If the one row that applies is for the whole type and its condition compares by = an attribute that
-- the principal lacks with a literal, then the filter grants everything, although the condition
-- is unknown (neither true nor false) for every resource.
pub missing_attribute_grants_all :
    (render : Json → String) (other : String → Option String → Option Json → Option Bool)
    (attribute : String → Option String) (ctx : Json) (refers : Json → Bool) (q : Query) (a : Acl)
    (externals : List ExternalId) (name : String) (val : Json)
    → applies q a ≡ true
    → a.resource_id ≡ none
    → a.conditions ≡ some (call (from_principal (attr_named name)) eq val)
    → get_value_from_context render ctx (some (String.◌++◌ "$principal." name)) ≡ none
    → reference_of (some val) ≡ none
    → (get_authorization_conditions render refers ctx q (a ∷ []) externals ≡ ok granted)
      × (holds render other attribute ctx (leaf (from_principal (attr_named name)) eq val) ≡ none)
unfolding get_authorization_conditions collect group_rows insert_row handle_group
missing_attribute_grants_all render other attribute ctx refers q a externals name val there whole
      cond missing literal =
    (
      rw (there, whole, cond, resolve-missing render ctx name val missing literal),
      holds-missing render ctx other attribute name val missing,
    )
