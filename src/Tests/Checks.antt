-- ===== src/Tests/Checks.antt =====
-- A whole request, and the result about it.
use stateful_abac_policy_eng.Prelude.{ℕ, List, [], ◌∷◌, ◌≡◌, refl, some, ok}
use stateful_abac_policy_eng.Policy.Resources.{get_authorized_resources}
use stateful_abac_policy_eng.Tests.Rules.{ann_context, run_clause, clause_value}
use stateful_abac_policy_eng.Tests.Requests.{realm_map, rows, tables, eval_none}
use stateful_abac_policy_eng.Auth.{known, int_of, resolve_ids, resolve_role_id, get_realm_id}
use stateful_abac_policy_eng.Auth.Roles.{Read, named_roles, check_access_roles}
use stateful_abac_policy_eng.Auth.Externals.{
  resolve_type, get_external_id_mappings_batch, set_external_id_mappings_batch,
}
use stateful_abac_policy_eng.Auth.Access.{
  AccessRequestItem, process_access_item, uncached, by_sql, map_externals,
}
use stateful_abac_policy_eng.Auth.Access.Listed.{list_item}
use stateful_abac_policy_eng.Auth.Check.{
  Caches, Checked, check_access, check_items, process_items, batch_resolve_external_ids, gather,
  resolve_types, request_of,
}
use stateful_abac_policy_eng.Auth.Check.Order.{check_access-Each, Each}

abbrev no_caches : Caches
no_caches = record { roles = []; externals = []; decisions = [] }

abbrev items : List AccessRequestItem
items = list_item "read" "document" "doc-1" [] ∷ list_item "read" "document" "doc-2" [] ∷ []

checked_items :
    (checked : Checked) × (check_access run_clause eval_none tables rows no_caches realm_map
        ann_context
        (known 5 (some (9 ∷ [])))
        ("editor" ∷ [])
        items
      ≡ ok checked)
unfolding check_access check_items process_items batch_resolve_external_ids gather resolve_types
    resolve_type get_external_id_mappings_batch set_external_id_mappings_batch process_access_item
    uncached by_sql map_externals get_authorized_resources clause_value int_of resolve_ids
    resolve_role_id get_realm_id named_roles check_access_roles
checked_items = (_, refl)

check_access-Each_example :
    (realm_id : ℕ) × (read : Read) × (check_access_roles rows [] realm_map
        (known 5 (some (9 ∷ [])))
        ("editor" ∷ [])
      ≡ ok read)
    × Each run_clause eval_none
        (request_of run_clause eval_none tables realm_id realm_map ann_context
          (known 5 (some (9 ∷ [])))
          read.role_ids)
        items
        checked_items.0.answered.results
        checked_items.0.answered.audits
check_access-Each_example =
    check_access-Each run_clause eval_none tables rows no_caches realm_map ann_context
      (known 5 (some (9 ∷ []))) ("editor" ∷ []) items checked_items.0 checked_items.1
