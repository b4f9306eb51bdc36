-- ===== src/Services/Acls/Operations.antt =====
-- The operations of `ACLService` on one row. The unit of work of a session is the state that an
-- operation is given and returns; one that raises returns no state, since it is rolled back.
-- `compile` is what the trigger on acl stores for the conditions of a row.
use stateful_abac_policy_eng.Prelude.{
  ℕ, suc, String, Bool, true, false, not, ◌&&◌, Option, none, some, List, [], ◌∷◌, ◌++◌, ◌==◌,
  if◌then◌else◌, Result, ok, err, ◌>>=◌, where_true, any,
}
use stateful_abac_policy_eng.Json.{Json}
use stateful_abac_policy_eng.Policy.{Acl}
use stateful_abac_policy_eng.Auth.Decisions.{invalidate_type_decisions_for_type}
use stateful_abac_policy_eng.Services.Acls.Rows.{
  one_or_none, AclState, RuleKey, has_key, AclCreate, given, required_resource, optional_resource,
  in_realm, for_resource, column_of, value_of_column, passes_check, violates_index, replace_row,
  delete_row, type_name, action_name, row_name, external_name, AclNames,
}

-- `_get_acl_names`
abbrev pub get_acl_names : AclState → Acl → AclNames
get_acl_names s a = record {
  resource_type_name = type_name s.types a.resource_type_id;
  action_name = action_name s.actions a.action_id;
  principal_name = row_name s.principals a.principal_id;
  role_name = row_name s.roles a.role_id;
  resource_external_id = external_name s.external_ids a a.resource_id;
}

-- `_map_acl_to_dict`, whose entries are those of the row and those of its names
pub record AclRead : Type 0 where
  pub row : Acl
  pub names : AclNames

abbrev pub map_acl_to_dict : AclState → Acl → AclRead
map_acl_to_dict s a = record {
  row = record a { conditions = value_of_column a.conditions };
  names = get_acl_names s a;
}

-- `previous_state`
pub record PreviousState : Type 0 where
  pub conditions : Option Json
  pub names : AclNames

pub data Status : Type 0 where
  created updated : Status

pub record AclAnswer : Type 0 where
  pub acl : AclRead
  pub previous_state : Option PreviousState
  pub status : Status

abbrev pub previous_of : AclState → Acl → PreviousState
previous_of s a = record { conditions = value_of_column a.conditions; names = get_acl_names s a }

abbrev pub forget_type : ℕ → ℕ → AclState → AclState
forget_type realm_id type_id s = record s {
  decisions = invalidate_type_decisions_for_type realm_id type_id s.decisions;
}

abbrev pub with_rows : AclState → List Acl → AclState
with_rows s rows = record s { acls = rows }

-- the rows of the key
abbrev pub rows_of : RuleKey → AclState → List Acl
rows_of k s = where_true (has_key k) s.acls

abbrev pub delete_rows : RuleKey → AclState → AclState
delete_rows k s = with_rows s (where_true (λ a. not (has_key k a)) s.acls)

abbrev pub same_id : ℕ → ℕ → Acl → Bool
same_id realm_id acl_id a = a.id == acl_id && (a.realm_id == realm_id)

abbrev pub new_row : ℕ → RuleKey → Option Json → Option String → Acl
new_row id k conditions sql = record {
  id = id;
  realm_id = k.realm_id;
  resource_type_id = k.resource_type_id;
  action_id = k.action_id;
  principal_id = k.principal_id;
  role_id = k.role_id;
  resource_id = k.resource_id;
  conditions = column_of conditions;
  compiled_sql = sql;
}

module _ (compile : Option Json → Result (Option String)) where
  -- INSERT with the trigger, the constraint and the unique index
  abbrev pub insert_acl : RuleKey → Option Json → AclState → Result (Acl × AclState)
  insert_acl k conditions s = do
    sql ← compile (column_of conditions)
    if passes_check k.principal_id k.role_id && not (any (violates_index k) s.acls)
        then ok (
          new_row s.next_id k conditions sql,
          record s {
            acls = s.acls ++ new_row s.next_id k conditions sql ∷ [];
            next_id = suc s.next_id;
          },
        )
        else err

  -- `if conditions is not None: obj.conditions = conditions`, and the UPDATE with the trigger
  abbrev pub set_conditions : Acl → Option Json → AclState → Result (Acl × AclState)
  set_conditions a none s = ok (a, s)
  set_conditions a (some c) s = do
    sql ← compile (some c)
    ok (
      record a { conditions = some c; compiled_sql = sql },
      with_rows s (replace_row (record a { conditions = some c; compiled_sql = sql }) s.acls),
    )

  -- the two ends of `create_acl`
  abbrev pub upsert :
      ℕ → RuleKey → Option Json → AclState → Option Acl → Result (AclAnswer × AclState)
  upsert realm_id k conditions s none = do
    (row, t) ← insert_acl k conditions s
    ok (
      record { acl = map_acl_to_dict t row; previous_state = none; status = created },
      forget_type realm_id k.resource_type_id t,
    )
  upsert realm_id k conditions s (some existing) = do
    (row, t) ← set_conditions existing conditions s
    ok (
      record {
        acl = map_acl_to_dict t row;
        previous_state = some (previous_of s existing);
        status = updated;
      },
      forget_type realm_id k.resource_type_id t,
    )

  -- the row that is inserted has the realm of the body, the search and the cache that of the call
  unfoldable pub create_acl : ℕ → AclCreate → AclState → Result (AclAnswer × AclState)
  create_acl realm_id acl_in s = do
    resource_id ←
        required_resource s.external_ids realm_id acl_in.key.resource_type_id
          (given acl_in.resource_external_id) acl_in.key.resource_id
    existing ← one_or_none (rows_of (in_realm realm_id (for_resource resource_id acl_in.key)) s)
    upsert realm_id (for_resource resource_id acl_in.key) acl_in.conditions s existing

  abbrev pub update_found :
      ℕ → Option Json → AclState → Option Acl → Result (Option AclRead × AclState)
  update_found realm_id conditions s none = ok (none, s)
  update_found realm_id conditions s (some a) = do
    (row, t) ← set_conditions a conditions s
    ok (some (map_acl_to_dict t row), forget_type realm_id row.resource_type_id t)

  unfoldable pub update_acl : ℕ → ℕ → Option Json → AclState → Result (Option AclRead × AclState)
  update_acl realm_id acl_id conditions s = do
    found ← one_or_none (where_true (same_id realm_id acl_id) s.acls)
    update_found realm_id conditions s found

abbrev pub read_found : AclState → Option Acl → Option AclRead
read_found s none = none
read_found s (some a) = some (map_acl_to_dict s a)

unfoldable pub get_acl : ℕ → ℕ → AclState → Result (Option AclRead)
get_acl realm_id acl_id s = do
  found ← one_or_none (where_true (same_id realm_id acl_id) s.acls)
  ok (read_found s found)

abbrev pub delete_found : ℕ → AclState → Option Acl → Bool × AclState
delete_found realm_id s none = (false, s)
delete_found realm_id s (some a) =
    (true, forget_type realm_id a.resource_type_id (with_rows s (delete_row a s.acls)))

unfoldable pub delete_acl : ℕ → ℕ → AclState → Result (Bool × AclState)
delete_acl realm_id acl_id s = do
  found ← one_or_none (where_true (same_id realm_id acl_id) s.acls)
  ok (delete_found realm_id s found)

abbrev pub delete_read : ℕ → ℕ → AclState → Option Acl → Option AclRead × AclState
delete_read realm_id type_id s none = (none, s)
delete_read realm_id type_id s (some a) =
    (some (map_acl_to_dict s a), forget_type realm_id type_id (with_rows s (delete_row a s.acls)))

-- the search is only made for a type that is not 0
abbrev pub keyed_resource : AclState → ℕ → RuleKey → Option String → Option ℕ
keyed_resource s realm_id k e =
    if k.resource_type_id == 0
    then k.resource_id
    else optional_resource s.external_ids realm_id k.resource_type_id (given e) k.resource_id

unfoldable pub delete_acl_by_key :
    ℕ → RuleKey → Option String → AclState → Result (Option AclRead × AclState)
delete_acl_by_key realm_id k e s = do
  found ←
      one_or_none (rows_of (in_realm realm_id (for_resource (keyed_resource s realm_id k e) k)) s)
  ok (delete_read realm_id k.resource_type_id s found)
