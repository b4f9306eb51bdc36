-- ===== src/Services/Principals.antt =====
-- common/application/principal_service.py, over the tables and the cache of principals.
pub mod Kept
pub mod Assigned
pub mod Created
use stateful_abac_policy_eng.Prelude.{
  ℕ, suc, String, Bool, true, false, not, ◌&&◌, Option, none, some, List, [], ◌∷◌, ◌++◌, ◌==◌,
  eq_text, is_id, map, mem_text, length, if◌then◌else◌, Result, ok, err, ◌>>=◌, where_true,
}
use stateful_abac_policy_eng.Json.{Json}
use stateful_abac_policy_eng.Services.PrincipalCache.{
  PrincipalRow, RoleRow, PrincipalState, invalidate_principal_roles, or_empty,
}
use stateful_abac_policy_eng.Auth.Roles.{PrincipalRoles}
use stateful_abac_policy_eng.Services.Acls.Rows.{one_or_none}

-- the end of a call: it returns or raises, and the tables and the cache are as it left them
pub data Outcome {ℓ} (A : Type ℓ) : Type ℓ where
  returned : A → PrincipalState → Outcome A
  raised : PrincipalState → Outcome A

abbrev pub has_id : ℕ → ℕ → PrincipalRow → Bool
has_id realm_id id p = p.id == id && p.realm_id == realm_id

-- the roles of the realm that have one of the names
abbrev pub named : ℕ → List String → PrincipalState → List RoleRow
named realm_id names s =
    where_true (λ r. r.realm_id == realm_id && mem_text r.name names) s.auth_roles

-- `set(names)`
abbrev pub distinct : List String → List String
distinct [] = []
distinct (n ∷ ns) = let rest = distinct ns in if mem_text n rest then rest else n ∷ rest

abbrev pub all_found : List RoleRow → List String → Bool
all_found roles names = length roles == length (distinct names)

abbrev pub mappings : ℕ → List RoleRow → List PrincipalRoles
mappings id [] = []
mappings id (r ∷ roles) = record { principal_id = id; role_id = r.id } ∷ mappings id roles

abbrev pub without_roles : ℕ → List PrincipalRoles → List PrincipalRoles
without_roles id rows = where_true (λ r. not (r.principal_id == id)) rows

abbrev pub replace_row : PrincipalRow → List PrincipalRow → List PrincipalRow
replace_row new [] = []
replace_row new (p ∷ ps) = (if p.id == new.id then new else p) ∷ replace_row new ps

pub record PrincipalUpdate : Type 0 where
  pub username : Option (Option String)
  pub attributes : Option Json
  pub roles : Option (List String)

abbrev pub renamed : Option (Option String) → PrincipalRow → Result PrincipalRow
renamed none p = ok p
renamed (some none) p = err
renamed (some (some name)) p = ok (record p { username = name })

abbrev pub described : Option Json → PrincipalRow → PrincipalRow
described none p = p
described (some attributes) p = record p { attributes = attributes }

abbrev pub with_row : PrincipalRow → PrincipalState → PrincipalState
with_row p s = record s { principals = replace_row p s.principals }

abbrev pub set_roles : ℕ → List RoleRow → PrincipalState → PrincipalState
set_roles id roles s = record s {
  principal_roles = without_roles id s.principal_roles ++ mappings id roles;
}

-- the second half of `update_principal`, after its first commit
abbrev pub assign :
    ℕ → Option (List String) → PrincipalRow → PrincipalState → Outcome (Option PrincipalRow)
assign realm_id none p s = returned (some p) s
assign realm_id (some names) p s =
    if all_found (named realm_id names s) names
    then returned (some p)
        (invalidate_principal_roles p.id (set_roles p.id (named realm_id names s) s))
    else raised s

abbrev pub write_row :
    ℕ → Option (List String) → PrincipalState → Result PrincipalRow → Outcome (Option PrincipalRow)
write_row realm_id roles s err = raised s
write_row realm_id roles s (ok p) = assign realm_id roles p (with_row p s)

abbrev pub update_found :
    ℕ
    → PrincipalUpdate
    → PrincipalState
    → Result (Option PrincipalRow)
    → Outcome (Option PrincipalRow)
update_found realm_id u s err = raised s
update_found realm_id u s (ok none) = returned none s
update_found realm_id u s (ok (some p)) =
    write_row realm_id u.roles s (renamed u.username (described u.attributes p))

unfoldable pub update_principal :
    ℕ → ℕ → PrincipalUpdate → PrincipalState → Outcome (Option PrincipalRow)
update_principal realm_id id u s =
    update_found realm_id u s (one_or_none (where_true (has_id realm_id id) s.principals))

abbrev pub without_principal : ℕ → PrincipalState → PrincipalState
without_principal id s = record s {
  principals = where_true (λ p. not (p.id == id)) s.principals;
  principal_roles = without_roles id s.principal_roles;
  acls = where_true (λ a. not (is_id a.principal_id id)) s.acls;
}

abbrev pub delete_found : ℕ → PrincipalState → Result (Option PrincipalRow) → Outcome Bool
delete_found id s err = raised s
delete_found id s (ok none) = returned false s
delete_found id s (ok (some p)) =
    returned true (invalidate_principal_roles id (without_principal id s))

unfoldable pub delete_principal : ℕ → ℕ → PrincipalState → Outcome Bool
delete_principal realm_id id s =
    delete_found id s (one_or_none (where_true (has_id realm_id id) s.principals))

-- INSERT of the principal, committed before its roles are looked up
abbrev pub new_row : String → ℕ → Json → PrincipalState → PrincipalRow
new_row username realm_id attributes s = record {
  id = s.next_id;
  username = username;
  realm_id = realm_id;
  attributes = or_empty attributes;
}

abbrev pub insert_row : PrincipalRow → PrincipalState → PrincipalState
insert_row p s = record s { principals = s.principals ++ p ∷ []; next_id = suc s.next_id }

-- the delete of a principal that was inserted for roles that are not there
abbrev pub remove_row : ℕ → PrincipalState → PrincipalState
remove_row id s = record s { principals = where_true (λ p. not (p.id == id)) s.principals }

abbrev pub insert_roles : ℕ → List RoleRow → PrincipalState → PrincipalState
insert_roles id [] s = s
insert_roles id roles s =
    invalidate_principal_roles id
      (record s { principal_roles = s.principal_roles ++ mappings id roles })

abbrev pub create_with :
    ℕ → Option (List String) → PrincipalRow → PrincipalState → Outcome PrincipalRow
create_with realm_id none p s = returned p s
create_with realm_id (some []) p s = returned p s
create_with realm_id (some names) p s =
    if all_found (named realm_id names s) names
    then returned p (insert_roles p.id (named realm_id names s) s)
    else raised (remove_row p.id s)

unfoldable pub create_principal :
    ℕ → String → Json → Option (List String) → PrincipalState → Outcome PrincipalRow
create_principal realm_id username attributes roles s =
    let p = new_row username realm_id attributes s in create_with realm_id roles p (insert_row p s)
