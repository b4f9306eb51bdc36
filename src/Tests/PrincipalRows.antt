-- ===== src/Tests/PrincipalRows.antt =====
-- A realm with one principal that is cached, and updates of it.
use stateful_abac_policy_eng.Prelude.{none, some, [], ◌∷◌, ◌≡◌, refl, arith}
use stateful_abac_policy_eng.Json.{null, obj, end, field, str}
use stateful_abac_policy_eng.Services.PrincipalCache.{
  PrincipalRow, CachedPrincipal, PrincipalState, get_principal,
}
use stateful_abac_policy_eng.Services.Principals.{
  PrincipalUpdate, update_principal, delete_principal, create_principal,
}
use stateful_abac_policy_eng.Prelude.{split_dots, String}
use stateful_abac_policy_eng.Json.{Json, num}
use stateful_abac_policy_eng.Resolve.{get_value_from_context, walk}
use stateful_abac_policy_eng.Auth.Contexts.{
  build_unified_context, principal_value, get_value_from_context-build_unified_context,
}
use stateful_abac_policy_eng.Auth.Roles.{get_principal_roles}
use stateful_abac_policy_eng.Services.Roles.{RoleState, delete_role}
use stateful_abac_policy_eng.Services.Roles.Deleted.{IsGone, delete_role-IsGone}
use stateful_abac_policy_eng.Services.Principals.Kept.{state_of, get_principal-stale}
use stateful_abac_policy_eng.Services.Principals.Created.{IsCreated, create_principal-IsCreated}
use stateful_abac_policy_eng.Services.Principals.Assigned.{entry_of, update_principal-assigned}

abbrev ann : PrincipalRow
ann = record { id = 5; username = "ann"; realm_id = 1; attributes = obj end }

abbrev editor : CachedPrincipal
editor = record { id = 5; username = "ann"; realm_id = 1; attributes = obj end; role_ids = 4 ∷ [] }

abbrev rows : PrincipalState
rows = record {
  principals = ann ∷ [];
  auth_roles =
      record { id = 4; name = "editor"; realm_id = 1 }
      ∷ record { id = 6; name = "viewer"; realm_id = 1 }
      ∷ [];
  principal_roles = record { principal_id = 5; role_id = 4 } ∷ [];
  acls = [];
  next_id = 6;
  cached = [];
  cached_roles = [];
}

-- the principal is read, and so cached under both keys
abbrev read : PrincipalState
unfolding get_principal
read = (get_principal (some 5) none none rows).1

-- ann is no editor any more
abbrev demoted : PrincipalUpdate
demoted = record { username = none; attributes = none; roles = some ("viewer" ∷ []) }

abbrev after : PrincipalState
unfolding update_principal get_principal
after = state_of (update_principal 1 5 demoted read)

update_principal-assigned_example :
    (get_principal (some 5) none none after).0
    ≡ some (entry_of ann (record { id = 6; name = "viewer"; realm_id = 1 } ∷ []))
unfolding update_principal get_principal
update_principal-assigned_example =
    update_principal-assigned 1 5 demoted ("viewer" ∷ []) ann read after refl refl refl

get_principal-stale_example :
    ((get_principal none (some "ann") (some 1) (state_of (update_principal 1 5 demoted read))).0
      ≡ some editor)
    × ((get_principal none (some "ann") (some 1) (state_of (delete_principal 1 5 read))).0
        ≡ some editor)
unfolding get_principal
get_principal-stale_example = get_principal-stale 1 5 1 "ann" demoted editor read refl refl refl

abbrev moved : PrincipalUpdate
moved = record {
  username = none;
  attributes = some (obj (field "department" (str "sales") end));
  roles = none;
}

create_principal-IsCreated_example :
    IsCreated 1
      ("viewer" ∷ "editor" ∷ [])
      rows
      (create_principal 1 "bob" null (some ("viewer" ∷ "editor" ∷ [])) rows)
create_principal-IsCreated_example =
    create_principal-IsCreated 1 "bob" null (some ("viewer" ∷ "editor" ∷ [])) rows (omega arith, tt)
      (omega arith, tt)

-- the roles of ann are cached, and then one of them is deleted
abbrev with_roles : RoleState
unfolding get_principal_roles
with_roles = record {
  people = record rows { cached_roles = (get_principal_roles rows.principal_roles [] 5).cache };
  hash = some (record { key = "_id"; text = "1" } ∷ []);
}

abbrev without_editor : RoleState
unfolding get_principal_roles
without_editor = record {
  people = record rows {
    auth_roles = record { id = 6; name = "viewer"; realm_id = 1 } ∷ [];
    principal_roles = [];
    cached_roles = [];
  };
  hash = none;
}

delete_role-IsGone_example : IsGone 4 without_editor
unfolding delete_role get_principal_roles
delete_role-IsGone_example = delete_role-IsGone 1 4 with_roles without_editor refl refl

-- attributes that claim another id, and a request that claims another principal
abbrev claimed : CachedPrincipal
claimed = record editor { attributes = obj (field "id" (str "1") end) }

abbrev shown : Json → String
shown (num s) = s
shown _ = ""

abbrev claim : Json
claim = obj (field "id" (str "1") end)

get_value_from_context-build_unified_context_example :
    (get_value_from_context shown (build_unified_context claimed claim) (some "$principal.id")
      ≡ walk shown (principal_value claimed "id") [])
    × (get_value_from_context shown (build_unified_context claimed claim) (some "$context.id")
        ≡ walk shown (some claim) ("id" ∷ []))
unfolding split_dots
get_value_from_context-build_unified_context_example =
    get_value_from_context-build_unified_context shown claimed claim "id" "id" [] refl
