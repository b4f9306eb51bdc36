-- ===== src/Services/Roles.antt =====
-- common/application/role_service.py: `delete_role`, over the tables and caches of principals and the
-- realm map of the role's realm.
pub mod Deleted
use stateful_abac_policy_eng.Prelude.{
  ℕ, Bool, true, false, not, ◌&&◌, Option, none, some, List, [], ◌∷◌, ◌==◌, is_id, if◌then◌else◌,
  Result, ok, ◌>>=◌, where_true,
}
use stateful_abac_policy_eng.Auth.{Entry}
use stateful_abac_policy_eng.Auth.Roles.{PrincipalRoles}
use stateful_abac_policy_eng.Services.Acls.Rows.{one_or_none}
use stateful_abac_policy_eng.Services.PrincipalCache.{
  RoleRow, PrincipalState, invalidate_principal_roles,
}

-- the tables with the caches of principals, and the hash of the realm
pub record RoleState : Type 0 where
  pub people : PrincipalState
  pub hash : Option (List Entry)

abbrev pub has_role_id : ℕ → ℕ → RoleRow → Bool
has_role_id realm_id role_id r = r.id == role_id && r.realm_id == realm_id

-- the principals that hold the role
abbrev pub affected : ℕ → List PrincipalRoles → List ℕ
affected role_id [] = []
affected role_id (r ∷ rows) =
    let rest = affected role_id rows in if r.role_id == role_id then r.principal_id ∷ rest else rest

abbrev pub without_role : ℕ → PrincipalState → PrincipalState
without_role role_id s = record s {
  principal_roles = where_true (λ r. not (r.role_id == role_id)) s.principal_roles;
  acls = where_true (λ a. not (is_id a.role_id role_id)) s.acls;
  auth_roles = where_true (λ r. not (r.id == role_id)) s.auth_roles;
}

abbrev pub forget_principals : List ℕ → PrincipalState → PrincipalState
forget_principals [] s = s
forget_principals (id ∷ ids) s = forget_principals ids (invalidate_principal_roles id s)

abbrev pub delete_found : ℕ → RoleState → Option RoleRow → Bool × RoleState
delete_found role_id s none = (false, s)
delete_found role_id s (some role) = (
  true,
  record {
    people =
        forget_principals (affected role_id s.people.principal_roles)
          (without_role role_id s.people);
    hash = none;
  },
)

unfoldable pub delete_role : ℕ → ℕ → RoleState → Result (Bool × RoleState)
delete_role realm_id role_id s = do
  found ← one_or_none (where_true (has_role_id realm_id role_id) s.people.auth_roles)
  ok (delete_found role_id s found)
