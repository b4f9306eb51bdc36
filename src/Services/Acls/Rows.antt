-- ===== src/Services/Acls/Rows.antt =====
-- common/application/acl_service.py: the rows of acl and the searches in them.
-- A search by the columns of a key is a test of rows; foreign keys are left to the caller.
use stateful_abac_policy_eng.Prelude.{
  ℕ, String, Bool, true, false, not, ◌&&◌, ◌||◌, Option, none, some, List, [], ◌∷◌, ◌==◌, is_none,
  eq_text, if◌then◌else◌, Result, ok, err, where_true,
}
use stateful_abac_policy_eng.Json.{Json, null}
use stateful_abac_policy_eng.Policy.{Acl, ExternalId, ResourceType, Action}
use stateful_abac_policy_eng.Auth.Decisions.{CachedDecision}

-- `scalar_one_or_none`
abbrev pub one_or_none {ℓ} : {A : Type ℓ} → List A → Result (Option A)
one_or_none [] = ok none
one_or_none (x ∷ []) = ok (some x)
one_or_none (x ∷ y ∷ xs) = err

-- `column == value`, which is `IS NULL` for None
abbrev pub same_column : Option ℕ → Option ℕ → Bool
same_column none none = true
same_column (some m) (some n) = m == n
same_column _ _ = false

-- the id and the name of a row of principal or auth_role
pub record NamedRow : Type 0 where
  pub id : ℕ
  pub name : String

pub record AclState : Type 0 where
  pub acls : List Acl
  pub next_id : ℕ
  pub external_ids : List ExternalId
  pub types : List ResourceType
  pub actions : List Action
  pub principals : List NamedRow
  pub roles : List NamedRow
  pub decisions : List CachedDecision

pub record RuleKey : Type 0 where
  pub realm_id : ℕ
  pub resource_type_id : ℕ
  pub action_id : ℕ
  pub principal_id : Option ℕ
  pub role_id : Option ℕ
  pub resource_id : Option ℕ

abbrev pub key_of_row : Acl → RuleKey
key_of_row a = record {
  realm_id = a.realm_id;
  resource_type_id = a.resource_type_id;
  action_id = a.action_id;
  principal_id = a.principal_id;
  role_id = a.role_id;
  resource_id = a.resource_id;
}

abbrev pub same_rule : RuleKey → RuleKey → Bool
same_rule k l =
    (l.realm_id == k.realm_id)
    && (l.resource_type_id == k.resource_type_id)
    && (l.action_id == k.action_id)
    && same_column l.principal_id k.principal_id
    && same_column l.role_id k.role_id
    && same_column l.resource_id k.resource_id

-- the WHERE clause of the searches by key
abbrev pub has_key : RuleKey → Acl → Bool
has_key k a = same_rule k (key_of_row a)

pub record AclCreate : Type 0 where
  pub key : RuleKey
  pub conditions : Option Json
  pub resource_external_id : Option String

-- `_resolve_external`, of which the callers read the resource
abbrev pub resolve_external : List ExternalId → ℕ → ℕ → String → Option ℕ
resolve_external [] realm_id type_id e = none
resolve_external (x ∷ xs) realm_id type_id e =
    let rest = resolve_external xs realm_id type_id e in
    if (x.realm_id == realm_id) && (x.resource_type_id == type_id) && eq_text x.external_id e
    then some x.resource_id
    else rest

-- the text of an optional argument, where the empty text counts as absent
abbrev pub given : Option String → Option String
given none = none
given (some s) = if eq_text s "" then none else some s

abbrev found_or_raise : Option ℕ → Result (Option ℕ)
found_or_raise none = err
found_or_raise (some id) = ok (some id)

abbrev pub required_resource :
    List ExternalId → ℕ → ℕ → Option String → Option ℕ → Result (Option ℕ)
required_resource table realm_id type_id none resource_id = ok resource_id
required_resource table realm_id type_id (some e) resource_id =
    found_or_raise (resolve_external table realm_id type_id e)

abbrev or_else : Option ℕ → Option ℕ → Option ℕ
or_else none resource_id = resource_id
or_else (some id) resource_id = some id

-- the look-up of the batches and of `delete_acl_by_key`: an id that is not known changes nothing
abbrev pub optional_resource : List ExternalId → ℕ → ℕ → Option String → Option ℕ → Option ℕ
optional_resource table realm_id type_id none resource_id = resource_id
optional_resource table realm_id type_id (some e) resource_id =
    or_else (resolve_external table realm_id type_id e) resource_id

-- the key of a search in the realm of the call, and of the row that is inserted
abbrev pub in_realm : ℕ → RuleKey → RuleKey
in_realm realm_id k = record k { realm_id = realm_id }

abbrev pub for_resource : Option ℕ → RuleKey → RuleKey
for_resource resource_id k = record k { resource_id = resource_id }

-- None is stored as JSON's null, and read as None again.
abbrev pub column_of : Option Json → Option Json
column_of none = some null
column_of (some c) = some c

abbrev pub value_of_column : Option Json → Option Json
value_of_column none = none
value_of_column (some null) = none
value_of_column (some c) = some c

-- the CHECK constraint, which a NULL passes
abbrev pub passes_check : Option ℕ → Option ℕ → Bool
passes_check (some p) (some r) = (not (p == 0) && (r == 0)) || ((p == 0) && not (r == 0))
passes_check _ _ = true

-- the unique index, in which a NULL equals nothing
abbrev pub violates_index : RuleKey → Acl → Bool
violates_index k a = has_key k a && not (is_none k.principal_id) && not (is_none k.role_id)

abbrev pub same_row : Acl → Acl → Bool
same_row a b =
    (a.id == b.id) && (a.realm_id == b.realm_id) && (a.resource_type_id == b.resource_type_id)

abbrev pub replace_row : Acl → List Acl → List Acl
replace_row a [] = []
replace_row a (b ∷ rows) = (if same_row b a then a else b) ∷ replace_row a rows

abbrev pub delete_row : Acl → List Acl → List Acl
delete_row a rows = where_true (λ b. not (same_row b a)) rows

-- `session.get` for an id that is not 0
abbrev pub type_name : List ResourceType → ℕ → Option String
type_name [] id = none
type_name (t ∷ ts) id =
    let rest = type_name ts id in if t.id == id && not (id == 0) then some t.name else rest

abbrev pub action_name : List Action → ℕ → Option String
action_name [] id = none
action_name (a ∷ actions) id =
    let rest = action_name actions id in if a.id == id && not (id == 0) then some a.name else rest

abbrev pub row_name : List NamedRow → Option ℕ → Option String
row_name rows none = none
row_name [] (some id) = none
row_name (r ∷ rows) (some id) =
    let rest = row_name rows (some id) in if r.id == id && not (id == 0) then some r.name else rest

-- the external id of the row's resource, of its realm and type
abbrev pub external_name : List ExternalId → Acl → Option ℕ → Option String
external_name table a none = none
external_name [] a (some id) = none
external_name (x ∷ xs) a (some id) =
    let rest = external_name xs a (some id) in
    if (x.realm_id == a.realm_id)
      && (x.resource_id == id)
      && (x.resource_type_id == a.resource_type_id)
      && not (id == 0)
    then some x.external_id
    else rest

pub record AclNames : Type 0 where
  pub resource_type_name : Option String
  pub action_name : Option String
  pub principal_name : Option String
  pub role_name : Option String
  pub resource_external_id : Option String
