-- ===== src/Auth/Roles.antt =====
-- The roles with which a request is decided: the first part of `check_access`, `get_permitted_actions`
-- and `get_authorization_conditions` of common/application/auth_service.py, and
-- `CacheService.get_principal_roles`. A list that is absent and one that is empty are one here, since
-- the code tests both by their truth.
pub mod Held
use Prim.Native.String
use stateful_abac_policy_eng.Prelude.{
  ℕ, String, Bool, true, false, not, Option, none, some, List, [], ◌∷◌, ◌==◌, eq_text,
  if◌then◌else◌, Result, ok, err, ◌>>=◌, mem_id, where_true, zero, suc,
}
use stateful_abac_policy_eng.Auth.{
  Entry, find, int_of, resolve_role_id, Principal, anonymous, known,
}

-- a row of principal_roles
pub record PrincipalRoles : Type 0 where
  pub principal_id : ℕ
  pub role_id : ℕ

-- A member of a cached set: the text of a role's id, or "__empty__".
pub data Member : Type 0 where
  empty_marker : Member
  role : ℕ → Member

-- the set that Redis holds under principal_roles:<id>
pub record CachedRoles : Type 0 where
  pub principal_id : ℕ
  pub members : List Member

-- `SELECT role_id ... WHERE principal_id = id`
abbrev pub stored_roles : List PrincipalRoles → ℕ → List ℕ
stored_roles [] id = []
stored_roles (r ∷ rs) id =
    let rest = stored_roles rs id in if r.principal_id == id then r.role_id ∷ rest else rest

-- `smembers(key)`, which is empty for a key that is absent
abbrev pub smembers : List CachedRoles → ℕ → List Member
smembers [] id = []
smembers (c ∷ cs) id = if c.principal_id == id then c.members else smembers cs id

abbrev pub roles_of : List Member → List ℕ
roles_of [] = []
roles_of (empty_marker ∷ ms) = roles_of ms
roles_of (role r ∷ ms) = r ∷ roles_of ms

abbrev pub members_of : List ℕ → List Member
members_of [] = []
members_of (r ∷ rs) = role r ∷ members_of rs

-- what `sadd` is given for the roles of the table
abbrev pub or_marker : List Member → List Member
or_marker [] = empty_marker ∷ []
or_marker ms = ms

-- The roles of a principal, and the cache afterwards.
pub record Read : Type 0 where
  pub role_ids : List ℕ
  pub cache : List CachedRoles

abbrev read_members : List PrincipalRoles → List CachedRoles → ℕ → List Member → Read
read_members rows cache id [] =
    let found = stored_roles rows id in
    let entry : CachedRoles = record {
      principal_id = id;
      members = or_marker (members_of found);
    } in
    record { role_ids = found; cache = entry ∷ cache }
read_members rows cache id ms = record { role_ids = roles_of ms; cache = cache }

-- `CacheService.get_principal_roles`, with a session
unfoldable pub get_principal_roles : List PrincipalRoles → List CachedRoles → ℕ → Read
get_principal_roles rows cache id =
    if id == 0
    then record { role_ids = []; cache = cache }
    else read_members rows cache id (smembers cache id)

-- `if r_id: ids.append(r_id)`
abbrev keep_role : Option ℕ → List ℕ → List ℕ
keep_role none rest = rest
keep_role (some n) rest = if n == 0 then rest else n ∷ rest

-- the ids of the named roles, by `resolve_role_id`
unfoldable pub named_roles : List Entry → List String → Result (List ℕ)
unfolding resolve_role_id
named_roles realm_map [] = ok []
named_roles realm_map (name ∷ names) = do
  r ← resolve_role_id realm_map name
  rest ← named_roles realm_map names
  ok (keep_role r rest)

abbrev pub is_empty {ℓ} : {A : Type ℓ} → List A → Bool
is_empty [] = true
is_empty (x ∷ xs) = false

abbrev kept : List ℕ → List ℕ → List ℕ
kept targets own = where_true (λ r. mem_id r own) targets

-- `getattr(principal, 'role_ids', []) or await get_principal_roles(...)`
abbrev own_roles : List PrincipalRoles → List CachedRoles → Principal → Read
own_roles rows cache anonymous = record { role_ids = []; cache = cache }
own_roles rows cache (known id none) = get_principal_roles rows cache id
own_roles rows cache (known id (some [])) = get_principal_roles rows cache id
own_roles rows cache (known id (some roles)) = record { role_ids = roles; cache = cache }

abbrev verified : List PrincipalRoles → Principal → List ℕ → List ℕ
verified rows anonymous targets = []
verified rows (known id (some own)) targets = kept targets own
verified rows (known id none) targets = where_true (λ r. mem_id r targets) (stored_roles rows id)

-- the roles of `check_access`
unfoldable pub check_access_roles :
    List PrincipalRoles → List CachedRoles → List Entry → Principal → List String → Result Read
unfolding named_roles get_principal_roles
check_access_roles rows cache realm_map p [] = ok (own_roles rows cache p)
check_access_roles rows cache realm_map p names = do
  targets ← named_roles realm_map names
  ok (record { role_ids = verified rows p targets; cache = cache })

abbrev permitted : Principal → List ℕ → List ℕ
permitted anonymous targets = targets
permitted (known id none) targets = targets
permitted (known id (some own)) targets = kept targets own

-- the roles of `get_permitted_actions`
unfoldable pub permitted_actions_roles :
    List PrincipalRoles → List CachedRoles → List Entry → Principal → List String → Result Read
unfolding named_roles get_principal_roles
permitted_actions_roles rows cache realm_map p [] = ok (own_roles rows cache p)
permitted_actions_roles rows cache realm_map p names = do
  targets ← named_roles realm_map names
  ok (record { role_ids = permitted p targets; cache = cache })

-- `role_id = realm_map.get(...)`, `if role_id: role_ids.append(int(role_id))`
abbrev append_role : Option String → List ℕ → Result (List ℕ)
append_role none rest = ok rest
append_role (some s) rest = if eq_text s "" then ok rest else (do n ← int_of s; ok (n ∷ rest))

unfoldable pub looked_up_roles : List Entry → List String → Result (List ℕ)
unfolding int_of
looked_up_roles realm_map [] = ok []
looked_up_roles realm_map (name ∷ names) = do
  rest ← looked_up_roles realm_map names
  append_role (find (String.◌++◌ "role:" name) realm_map) rest

abbrev filtered : List PrincipalRoles → Principal → List ℕ → List ℕ
filtered rows anonymous targets = targets
filtered rows (known id own) targets = where_true (λ r. mem_id r targets) (stored_roles rows id)

abbrev all_stored : List PrincipalRoles → Principal → List ℕ
all_stored rows anonymous = []
all_stored rows (known id own) = stored_roles rows id

-- the roles of `get_authorization_conditions`
unfoldable pub authorization_conditions_roles :
    List PrincipalRoles → List Entry → Principal → List String → Result (List ℕ)
unfolding looked_up_roles
authorization_conditions_roles rows realm_map p [] = ok (all_stored rows p)
authorization_conditions_roles rows realm_map p names = do
  targets ← looked_up_roles realm_map names
  ok (filtered rows p targets)
