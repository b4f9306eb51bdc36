-- ===== src/Tests/Requests.antt =====
-- Small requests, and the results about the service on them.
use stateful_abac_policy_eng.Prelude.{
  eq_text, ℕ, String, Bool, true, false, ◌||◌, none, some, List, [], ◌∷◌, ◌≡◌, refl, Result, ok,
  err, any, mem_text, where_true,
}
use stateful_abac_policy_eng.Json.{Json}
use stateful_abac_policy_eng.Policy.{Acl}
use stateful_abac_policy_eng.Policy.Resources.{get_authorized_resources}
use stateful_abac_policy_eng.Policy.Resources.Exact.{is_authorized}
use stateful_abac_policy_eng.Tests.Rules.{
  ann_context, read_documents, type_row, role_row, names_of_7, document_7, documents, run_clause,
  clause_value, clause_value-true,
}
use stateful_abac_policy_eng.Auth.{Entry, Ids, known, int_of, resolve_ids, resolve_role_id}
use stateful_abac_policy_eng.Auth.Roles.{PrincipalRoles, check_access_roles, named_roles}
use stateful_abac_policy_eng.Auth.Roles.Held.{check_access_roles-held, Within, held_roles}
use stateful_abac_policy_eng.Auth.Decisions.{
  CachedDecision, decision_key, get_type_level_decision, DecisionKey,
}
use stateful_abac_policy_eng.Auth.Access.{
  Request, Outcome, Tables, process_access_item, allowed, query_of, respond, type_level_rows,
  is_blank, map_externals, no_mapping, resource_filter, uncached, by_sql,
}
use stateful_abac_policy_eng.Auth.Access.Cached.{general_item}
use stateful_abac_policy_eng.Auth.Access.Grants.{grants_by}
use stateful_abac_policy_eng.Auth.Access.General.{
  process_access_item-general, process_access_item-raises, names_one,
}
use stateful_abac_policy_eng.Auth.Access.Listed.{process_access_item-listed, list_item, FromRows}
use stateful_abac_policy_eng.Policy.Permitted.{is_blanket}
use stateful_abac_policy_eng.Auth.Permitted.{
  ActionName, GetPermittedActionsItem, Tables as PermittedTables, respond_known, internal_of,
  named_rows, batch_rows, internal_ids, type_level_names,
}
use stateful_abac_policy_eng.Auth.Permitted.Names.{
  respond_known-listed, listed_for, names_at, names_type,
}
use stateful_abac_policy_eng.Auth.Externals.{resolve_type, mapped_id}
use stateful_abac_policy_eng.Auth.Externals.Table.{resolve_type-table, stored_id, Agrees}

abbrev pub realm_map : List Entry
realm_map =
    record { key = "_id"; text = "1" }
    ∷ record { key = "action:read"; text = "3" }
    ∷ record { key = "type:document"; text = "2" }
    ∷ record { key = "type_public:document"; text = "false" }
    ∷ record { key = "role:editor"; text = "9" }
    ∷ []

-- Ann, 5, is an editor.
abbrev pub rows : List PrincipalRoles
rows = record { principal_id = 5; role_id = 9 } ∷ []

check_access_roles-held_example : Within (9 ∷ []) (held_roles rows (known 5 (some (9 ∷ []))))
unfolding int_of resolve_role_id named_roles check_access_roles
check_access_roles-held_example =
    check_access_roles-held rows [] realm_map (known 5 (some (9 ∷ []))) ("editor" ∷ [])
      (record { role_ids = 9 ∷ []; cache = [] }) (λ r m. m) (λ id r m. cc) refl

abbrev granted_before : List CachedDecision
granted_before = record { key = decision_key 1 5 2 3 (9 ∷ 4 ∷ []); decision = true } ∷ []

abbrev key_of_5 : DecisionKey
key_of_5 = decision_key 1 5 2 3 (4 ∷ 9 ∷ [])

abbrev pub tables : Tables
tables = record {
  types = documents ∷ [];
  resources = document_7 ∷ [];
  acls = role_row ∷ [];
  externals = names_of_7;
}

abbrev request : Request
request = record {
  tables = tables;
  realm_id = 1;
  realm_map = realm_map;
  principal_id = 5;
  role_ids = 9 ∷ [];
  ctx = ann_context;
  type_mappings = record { external_id = "doc-1"; resource_id = 7 } ∷ [];
}

abbrev read_document : Ids
read_document = record { action_id = 3; type_id = 2 }

abbrev pub eval_none : String → Json → Result Bool
eval_none sql ctx = ok false

-- beside the row for the role, one for the whole type, whose clause is true by itself
abbrev two_row_request : Request
two_row_request = record request { tables = record tables { acls = role_row ∷ type_row ∷ [] } }

abbrev eval_true : String → Json → Result Bool
eval_true sql ctx = ok (eq_text sql " true")

process_access_item-general_example :
    (out : Outcome) × (process_access_item run_clause eval_true two_row_request
        (general_item "read" "document")
        []
      ≡ ok out)
    × (out.result
        ≡ respond (general_item "read" "document") (
            allowed (
              any
                (names_one
                  (query_of two_row_request read_document)
                  two_row_request.tables.resources
                  (is_authorized run_clause two_row_request.ctx clause_value
                    (λ sql r. refl)
                    two_row_request.tables.types
                    two_row_request.tables.acls
                    (query_of two_row_request read_document)
                    none))
                two_row_request.tables.externals
              || any
                  (λ a. grants_by (λ sql. eq_text sql " true") a.compiled_sql)
                  (type_level_rows
                    (query_of two_row_request read_document)
                    two_row_request.tables.acls))))
unfolding int_of resolve_ids get_type_level_decision
process_access_item-general_example =
    process_access_item-general run_clause eval_true "read" "document" two_row_request []
      read_document clause_value (λ sql r. refl) clause_value-true (λ sql. eq_text sql " true")
      ((λ sql _ _. refl), tt) refl refl

-- A whole-type row whose clause raises, and one without a condition after it.
abbrev faulty_row : Acl
faulty_row = record type_row { id = 90; compiled_sql = some "1 / 0 = 1" }

abbrev free_row : Acl
free_row = record type_row { id = 91; compiled_sql = none }

abbrev faulty_request : Request
faulty_request = record request {
  tables = record { types = []; resources = []; acls = faulty_row ∷ free_row ∷ []; externals = [] };
}

abbrev eval_raises : String → Json → Result Bool
eval_raises sql ctx = err

process_access_item-raises_example :
    process_access_item run_clause eval_raises faulty_request (general_item "read" "document") []
    ≡ err
unfolding int_of resolve_ids get_type_level_decision is_blank
process_access_item-raises_example =
    process_access_item-raises run_clause eval_raises "read" "document" faulty_request []
      read_document clause_value (λ sql r. refl) clause_value-true [] (free_row ∷ []) faulty_row
      "1 / 0 = 1" refl refl refl refl refl refl refl refl

-- tables without any row
abbrev no_tables : Tables
no_tables = record { types = []; resources = []; acls = []; externals = [] }

listed_outcome :
    (out : Outcome) × (process_access_item run_clause eval_none request
        (list_item "read" "document" "doc-1" ("doc-2" ∷ []))
        []
      ≡ ok out)
unfolding process_access_item int_of resolve_ids uncached by_sql map_externals
    get_authorized_resources clause_value
listed_outcome = (_, refl)

process_access_item-listed_example :
    (rows : List ℕ) × (get_authorized_resources run_clause request.ctx request.tables.types
        request.tables.resources request.tables.acls
        (query_of request read_document)
        (resource_filter
          (map_externals request.type_mappings ("doc-1" ∷ "doc-2" ∷ []) no_mapping).filter_ids)
      ≡ ok rows)
    × FromRows run_clause eval_none "read" "document" "doc-1"
        ("doc-2" ∷ [])
        request
        rows
        listed_outcome.0.result.answer
unfolding int_of resolve_ids map_externals
process_access_item-listed_example =
    process_access_item-listed run_clause eval_none "read" "document" "doc-1" ("doc-2" ∷ []) request
      [] read_document listed_outcome.0 refl refl refl listed_outcome.1

abbrev permitted_tables : PermittedTables
permitted_tables = record {
  types = documents ∷ [];
  actions = record { id = 3; name = "read"; realm_id = 1 } ∷ [];
  resources = document_7 ∷ [];
  acls = role_row ∷ type_row ∷ [];
  externals = names_of_7;
}

abbrev read_name : List ActionName
read_name = record { id = 3; name = "read" } ∷ []

abbrev two_documents : GetPermittedActionsItem
two_documents = record {
  resource_type_name = "document";
  external_resource_ids = "doc-1" ∷ "doc-9" ∷ [];
}

respond_known-listed_example :
    mem_text "read" (
      listed_for "doc-9" (
        respond_known eval_none ann_context permitted_tables read_documents read_name
          two_documents))
    ≡ (names_at read_name
          (internal_of (named_rows read_documents ("doc-1" ∷ "doc-9" ∷ []) names_of_7) "doc-9")
          "read"
          (batch_rows eval_none ann_context permitted_tables read_documents
            (internal_ids (named_rows read_documents ("doc-1" ∷ "doc-9" ∷ []) names_of_7)))
        || (any (names_type read_name "read") (
              batch_rows eval_none ann_context permitted_tables read_documents
                (internal_ids (named_rows read_documents ("doc-1" ∷ "doc-9" ∷ []) names_of_7)))
            || mem_text "read" (
                type_level_names permitted_tables.actions
                  (where_true (is_blanket read_documents) permitted_tables.acls))))
respond_known-listed_example =
    respond_known-listed eval_none ann_context permitted_tables read_documents read_name
      two_documents "doc-9" "read" refl

-- nothing is cached, and the table has one external id
resolve_type-table_example :
    ((e : String)
      → mem_text e ("doc-1" ∷ "doc-9" ∷ []) ≡ true
      → mapped_id (resolve_type names_of_7 [] 1 2 ("doc-1" ∷ "doc-9" ∷ [])).mapping e
        ≡ stored_id names_of_7 1 2 e)
    × Agrees names_of_7 (resolve_type names_of_7 [] 1 2 ("doc-1" ∷ "doc-9" ∷ [])).cache
resolve_type-table_example =
    resolve_type-table names_of_7 [] 1 2 ("doc-1" ∷ "doc-9" ∷ []) (refl, tt) (λ r t e id found. cc)
