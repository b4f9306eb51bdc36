-- ===== src/Tests/Rules.antt =====
-- Small conditions, rows and contexts, and the results about the SQL functions on them.
use stateful_abac_policy_eng.Prelude.{
  upper, trim, ℕ, String, Bool, true, false, Option, none, some, List, [], ◌∷◌, ◌≡◌, refl, eq_text,
  if◌then◌else◌, Result, ok, any, mem_id, has_prefix, ◌&&◌, ◌==◌,
}
use stateful_abac_policy_eng.Json.{Json, num, str, obj, field, end}
use stateful_abac_policy_eng.Resolve.{resolve_abac_condition, get_value_from_context}
use stateful_abac_policy_eng.Resolve.Meaning.{meaning, holds}
use stateful_abac_policy_eng.Resolve.Sound.{resolve_sound}
use stateful_abac_policy_eng.Resolve.Faults.{resolve-not_, negation_of_null}
use stateful_abac_policy_eng.Sdk.Condition.{
  Condition, leaf, all_of, more, nothing, attr_named, from_principal, eq, encode, call, not_,
}
use stateful_abac_policy_eng.Policy.{Acl, ExternalId, Resource, ResourceType, Query}
use stateful_abac_policy_eng.Policy.Conditions.{get_authorization_conditions, granted}
use stateful_abac_policy_eng.Policy.Conditions.Missing.{missing_attribute_grants_all}
use stateful_abac_policy_eng.Policy.Resources.{
  is_empty_sql, get_authorized_resources, get_authorized_resources_v3, is_true_sql,
}
use stateful_abac_policy_eng.Policy.Permitted.{
  Permitted, get_permitted_actions_batch, resource_rows, returns_row,
}
use stateful_abac_policy_eng.Policy.Permitted.Blind.{
  get_permitted_actions_batch-blind, get_permitted_actions_batch-held, accounts_for,
}
use stateful_abac_policy_eng.Policy.Resources.Exact.{
  get_authorized_resources-exact, get_authorized_resources-v3, is_authorized,
}

abbrev pub print : Json → String
print (num s) = s
print _ = "?"

abbrev pub no_other : String → Option String → Option Json → Option Bool
no_other op left right = none

-- a resource of the client's with two attributes
abbrev pub owned : String → Option String
owned name =
    if eq_text name "owner"
    then some "ann"
    else if eq_text name "external_id"
    then some "doc-1"
    else none

abbrev pub ann_context : Json
ann_context = obj (
    field "context" (obj end)
      (field "principal" (obj (field "username" (str "ann") (field "level" (num "3") end))) end))

-- `owner == $principal.username` and, of the principal, `level == 3`
abbrev pub owner_of_level : Condition
owner_of_level = all_of (
    more (leaf (attr_named "owner") eq (str "$principal.username"))
      (more (leaf (from_principal (attr_named "level")) eq (num "3")) nothing))

resolve_sound_example :
    (j : Json) × (resolve_abac_condition print ann_context (some (encode owner_of_level))
      ≡ ok (some j))
    × (meaning print no_other owned j ≡ holds print no_other owned ann_context owner_of_level)
unfolding get_value_from_context has_prefix
resolve_sound_example =
    resolve_sound print no_other owned ann_context owner_of_level
      ((refl, refl, refl), ((refl, refl, refl), tt))

resolve-not__example :
    resolve_abac_condition print ann_context (some (not_ (encode owner_of_level)))
    ≡ ok (some negation_of_null)
resolve-not__example = resolve-not_ print ann_context (encode owner_of_level)

abbrev pub read_documents : Query
read_documents = record {
  realm_id = 1;
  principal_id = 5;
  role_ids = 9 ∷ [];
  resource_type_id = 2;
  action_id = 3;
}

-- a row of a role for the resource 7
abbrev pub role_row : Acl
role_row = record {
  id = 1;
  realm_id = 1;
  resource_type_id = 2;
  action_id = 3;
  principal_id = none;
  role_id = some 9;
  resource_id = some 7;
  conditions = some (encode owner_of_level);
  compiled_sql = some "level(p_ctx) = 3";
}

-- a row of the principal for the whole type
abbrev pub type_row : Acl
type_row = record role_row {
  id = 2;
  principal_id = some 5;
  role_id = none;
  resource_id = none;
  conditions = some (call (from_principal (attr_named "level")) eq (num "4"));
  compiled_sql = some " true";
}

abbrev pub names_of_7 : List ExternalId
names_of_7 =
    record { resource_id = 7; realm_id = 1; resource_type_id = 2; external_id = "doc-1" } ∷ []

abbrev pub never : Json → Bool
never j = false

-- a row for the whole type whose condition reads an attribute that Ann has not
abbrev clearance_row : Acl
clearance_row = record type_row {
  conditions = some (call (from_principal (attr_named "clearance")) eq (str "secret"));
}

missing_attribute_grants_all_example :
    (get_authorization_conditions print never ann_context read_documents
        (clearance_row ∷ [])
        names_of_7
      ≡ ok granted)
    × (holds print no_other owned ann_context
          (leaf (from_principal (attr_named "clearance")) eq (str "secret"))
        ≡ none)
unfolding get_value_from_context has_prefix
missing_attribute_grants_all_example =
    missing_attribute_grants_all print no_other owned ann_context never read_documents clearance_row
      names_of_7 "clearance" (str "secret") refl refl refl refl refl

abbrev pub document_7 : Resource
document_7 = record { id = 7; realm_id = 1; resource_type_id = 2; attributes = obj end }

abbrev pub documents : ResourceType
documents = record { id = 2; name = "document"; is_public = false; realm_id = 1 }

-- clauses that read TRUE are true, and the others are true of the resource 7
unfoldable pub clause_value : String → Resource → Option Bool
unfolding is_true_sql
clause_value sql r = if is_true_sql (some sql) then some true else some (r.id == 7)

abbrev pub run_clause : String → Json → Resource → Result (Option Bool)
run_clause sql ctx r = ok (clause_value sql r)

pub clause_value-true :
    (sql : String) (r : Resource) → is_true_sql (some sql) ≡ true → clause_value sql r ≡ some true
unfolding clause_value
clause_value-true sql r h = rw h refl

get_authorized_resources-exact_example :
    (ids : List ℕ) × (get_authorized_resources run_clause ann_context
        (documents ∷ [])
        (document_7 ∷ [])
        (role_row ∷ type_row ∷ [])
        read_documents
        (some (7 ∷ 8 ∷ []))
      ≡ ok ids)
    × ((n : ℕ)
        → mem_id n ids
          ≡ any
              (λ r.
                (r.id == n)
                && is_authorized run_clause ann_context clause_value
                    (λ sql r. refl)
                    (documents ∷ [])
                    (role_row ∷ type_row ∷ [])
                    read_documents
                    (some (7 ∷ 8 ∷ []))
                    r)
              (document_7 ∷ []))
get_authorized_resources-exact_example =
    get_authorized_resources-exact run_clause ann_context clause_value (λ sql r. refl)
      clause_value-true (documents ∷ []) (document_7 ∷ []) (role_row ∷ type_row ∷ []) read_documents
      (some (7 ∷ 8 ∷ []))

get_authorized_resources-v3_example :
    (new_ids : List ℕ) × (old_ids : List ℕ) × (get_authorized_resources run_clause ann_context
        (documents ∷ [])
        (document_7 ∷ [])
        (role_row ∷ type_row ∷ [])
        read_documents
        none
      ≡ ok new_ids)
    × (get_authorized_resources_v3 run_clause ann_context
          (documents ∷ [])
          (document_7 ∷ [])
          (role_row ∷ type_row ∷ [])
          read_documents
          none
        ≡ ok old_ids)
    × ((n : ℕ) → mem_id n new_ids ≡ mem_id n old_ids)
get_authorized_resources-v3_example =
    get_authorized_resources-v3 run_clause ann_context clause_value (λ sql r. refl)
      clause_value-true (documents ∷ []) (document_7 ∷ []) (role_row ∷ type_row ∷ []) read_documents
      none

abbrev holds_always : String → Json → Result Bool
holds_always sql ctx = ok true

abbrev holds_never : String → Json → Result Bool
holds_never sql ctx = ok false

get_permitted_actions_batch-blind_example :
    get_permitted_actions_batch holds_always ann_context
      (documents ∷ [])
      []
      (document_7 ∷ [])
      (role_row ∷ type_row ∷ [])
      read_documents
      none
    ≡ get_permitted_actions_batch holds_never ann_context
        (documents ∷ [])
        []
        (document_7 ∷ [])
        (role_row ∷ type_row ∷ [])
        read_documents
        none
get_permitted_actions_batch-blind_example =
    get_permitted_actions_batch-blind holds_always holds_never ann_context (λ sql. refl)
      (documents ∷ []) [] (document_7 ∷ []) (role_row ∷ type_row ∷ []) read_documents none

abbrev read_7 : Permitted
read_7 = record { resource_id = 7; action_id = 3; is_type_level = false }

get_permitted_actions_batch-held_example :
    any (accounts_for read_documents read_7) (role_row ∷ type_row ∷ []) ≡ true
unfolding get_permitted_actions_batch is_empty_sql is_true_sql resource_rows returns_row trim upper
get_permitted_actions_batch-held_example =
    get_permitted_actions_batch-held holds_never ann_context (documents ∷ []) [] (document_7 ∷ [])
      (role_row ∷ type_row ∷ []) read_documents none read_7 refl refl
