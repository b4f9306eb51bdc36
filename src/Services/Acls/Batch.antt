-- ===== src/Services/Acls/Batch.antt =====
-- `ACLService.batch_acls`, `list_acls` and `list_all_acls`. A row that the session adds is in the table
-- for the next search, since the session flushes before it. The result is `operation` itself, so the
-- state is what a batch returns here; the affected types are a list in place of a set.
use stateful_abac_policy_eng.Prelude.{
  ℕ, zero, suc, String, Bool, true, ◌&&◌, Option, none, some, List, [], ◌∷◌, ◌++◌, map, ◌==◌,
  Result, ok, ◌>>=◌, where_true, length, is_id,
}
use stateful_abac_policy_eng.Json.{Json}
use stateful_abac_policy_eng.Policy.{Acl}
use stateful_abac_policy_eng.Services.Acls.Rows.{
  one_or_none, AclState, RuleKey, AclCreate, given, resolve_external, optional_resource, in_realm,
  for_resource,
}
use stateful_abac_policy_eng.Services.Acls.Operations.{
  AclRead, map_acl_to_dict, forget_type, rows_of, delete_rows, insert_acl, set_conditions,
}

pub record AclBatchUpdateItem : Type 0 where
  pub resource_type_id : ℕ
  pub action_id : ℕ
  pub principal_id : Option ℕ
  pub role_id : Option ℕ
  pub resource_id : Option ℕ
  pub resource_external_id : Option String
  pub conditions : Option Json

pub record AclBatchDeleteItem : Type 0 where
  pub resource_type_id : ℕ
  pub action_id : ℕ
  pub principal_id : Option ℕ
  pub role_id : Option ℕ
  pub resource_id : Option ℕ
  pub resource_external_id : Option String

pub record BatchAclOperation : Type 0 where
  pub create : List AclCreate
  pub update : List AclBatchUpdateItem
  pub delete : List AclBatchDeleteItem

abbrev pub key_of_update : AclState → ℕ → AclBatchUpdateItem → RuleKey
key_of_update s realm_id d = record {
  realm_id = realm_id;
  resource_type_id = d.resource_type_id;
  action_id = d.action_id;
  principal_id = d.principal_id;
  role_id = d.role_id;
  resource_id =
      optional_resource s.external_ids realm_id d.resource_type_id (given d.resource_external_id)
        d.resource_id;
}

abbrev pub key_of_delete : AclState → ℕ → AclBatchDeleteItem → RuleKey
key_of_delete s realm_id d = record {
  realm_id = realm_id;
  resource_type_id = d.resource_type_id;
  action_id = d.action_id;
  principal_id = d.principal_id;
  role_id = d.role_id;
  resource_id =
      optional_resource s.external_ids realm_id d.resource_type_id (given d.resource_external_id)
        d.resource_id;
}

-- the resource of an item to create: the outer `none` skips the item
abbrev found_or_skip : Option ℕ → Option (Option ℕ)
found_or_skip none = none
found_or_skip (some id) = some (some id)

abbrev pub created_resource : AclState → ℕ → ℕ → Option String → Option ℕ → Option (Option ℕ)
created_resource s realm_id type_id none resource_id = some resource_id
created_resource s realm_id type_id (some e) resource_id =
    found_or_skip (resolve_external s.external_ids realm_id type_id e)

abbrev pub delete_all : ℕ → List AclBatchDeleteItem → AclState → AclState
delete_all realm_id [] s = s
delete_all realm_id (item ∷ rest) s =
    delete_all realm_id rest (delete_rows (key_of_delete s realm_id item) s)

abbrev pub forget_types : ℕ → List ℕ → AclState → AclState
forget_types realm_id [] s = s
forget_types realm_id (t ∷ ts) s = forget_types realm_id ts (forget_type realm_id t s)

abbrev pub affected_types : BatchAclOperation → List ℕ
affected_types o =
    map (λ d. d.key.resource_type_id) o.create
    ++ (map (λ d. d.resource_type_id) o.update ++ map (λ d. d.resource_type_id) o.delete)

module _ (compile : Option Json → Result (Option String)) where
  abbrev pub write_found : RuleKey → Option Json → AclState → Option Acl → Result AclState
  write_found k conditions s none = do (row, t) ← insert_acl compile k conditions s; ok t
  write_found k conditions s (some existing) = do
    (row, t) ← set_conditions compile existing conditions s
    ok t

  -- one item of `operation.create`
  abbrev pub create_one : ℕ → AclCreate → AclState → Option (Option ℕ) → Result AclState
  create_one realm_id item s none = ok s
  create_one realm_id item s (some resource_id) = do
    existing ← one_or_none (rows_of (in_realm realm_id (for_resource resource_id item.key)) s)
    write_found (for_resource resource_id item.key) item.conditions s existing

  abbrev pub create_all : ℕ → List AclCreate → AclState → Result AclState
  create_all realm_id [] s = ok s
  create_all realm_id (item ∷ rest) s = do
    t ← create_one realm_id item s (
        created_resource s realm_id item.key.resource_type_id (given item.resource_external_id)
          item.key.resource_id)
    create_all realm_id rest t

  abbrev pub update_one : AclBatchUpdateItem → AclState → Option Acl → Result AclState
  update_one item s none = ok s
  update_one item s (some existing) = do
    (row, t) ← set_conditions compile existing item.conditions s
    ok t

  abbrev pub update_all : ℕ → List AclBatchUpdateItem → AclState → Result AclState
  update_all realm_id [] s = ok s
  update_all realm_id (item ∷ rest) s = do
    existing ← one_or_none (rows_of (key_of_update s realm_id item) s)
    t ← update_one item s existing
    update_all realm_id rest t

  unfoldable pub batch_acls : ℕ → BatchAclOperation → AclState → Result AclState
  batch_acls realm_id o s = do
    created ← create_all realm_id o.create s
    updated ← update_all realm_id o.update created
    ok (forget_types realm_id (affected_types o) (delete_all realm_id o.delete updated))

-- the filters that the API passes: a column is compared where a value is given
pub record AclFilters : Type 0 where
  pub resource_type_id : Option ℕ
  pub action_id : Option ℕ
  pub principal_id : Option ℕ
  pub role_id : Option ℕ
  pub resource_id : Option ℕ

-- `if v is not None: stmt.where(column == v)`
abbrev pub matches_filter : Option ℕ → Option ℕ → Bool
matches_filter none column = true
matches_filter (some v) column = is_id column v

abbrev pub passes_filters : ℕ → AclFilters → Acl → Bool
passes_filters realm_id f a =
    (a.realm_id == realm_id)
    && matches_filter f.resource_type_id (some a.resource_type_id)
    && matches_filter f.action_id (some a.action_id)
    && matches_filter f.principal_id a.principal_id
    && matches_filter f.role_id a.role_id
    && matches_filter f.resource_id a.resource_id

abbrev pub offset {ℓ} : {A : Type ℓ} → ℕ → List A → List A
offset zero xs = xs
offset (suc n) [] = []
offset (suc n) (x ∷ xs) = offset n xs

abbrev pub limited {ℓ} : {A : Type ℓ} → ℕ → List A → List A
limited zero xs = []
limited (suc n) [] = []
limited (suc n) (x ∷ xs) = x ∷ limited n xs

unfoldable pub list_all_acls : ℕ → AclFilters → AclState → List AclRead
list_all_acls realm_id f s = map (map_acl_to_dict s) (where_true (passes_filters realm_id f) s.acls)

-- one page, and the number of rows in all
unfoldable pub list_acls : ℕ → ℕ → ℕ → AclFilters → AclState → List AclRead × ℕ
list_acls realm_id skip limit f s =
    let found = where_true (passes_filters realm_id f) s.acls in
    (map (map_acl_to_dict s) (limited limit (offset skip found)), length found)
