-- ===== src/Services/PrincipalCache.antt =====
-- common/services/cache.py: the cached principals, with the rows that they are read from, and the
-- cached role sets. Python's None is JSON null in the column `attributes`. The keys principal:<id> and
-- principal:<realm>:<username> are spelled apart, by the second colon.
use stateful_abac_policy_eng.Prelude.{
  ℕ, String, Bool, false, not, ◌&&◌, Option, none, some, List, [], ◌∷◌, ◌==◌, eq_text,
  if◌then◌else◌, where_true,
}
use stateful_abac_policy_eng.Json.{Json, null, obj, end}
use stateful_abac_policy_eng.Policy.{Acl}
use stateful_abac_policy_eng.Auth.Roles.{PrincipalRoles, CachedRoles, stored_roles}

-- a row of principal
pub record PrincipalRow : Type 0 where
  pub id : ℕ
  pub username : String
  pub realm_id : ℕ
  pub attributes : Json

-- a row of auth_role
pub record RoleRow : Type 0 where
  pub id : ℕ
  pub name : String
  pub realm_id : ℕ

pub record CachedPrincipal : Type 0 where
  pub id : ℕ
  pub username : String
  pub realm_id : ℕ
  pub attributes : Json
  pub role_ids : List ℕ

pub data CacheKey : Type 0 where
  by_id : ℕ → CacheKey
  by_username : ℕ → String → CacheKey

pub record CacheEntry : Type 0 where
  pub key : CacheKey
  pub value : CachedPrincipal

pub record PrincipalState : Type 0 where
  pub principals : List PrincipalRow
  pub auth_roles : List RoleRow
  pub principal_roles : List PrincipalRoles
  pub acls : List Acl
  pub next_id : ℕ
  pub cached : List CacheEntry
  pub cached_roles : List CachedRoles

abbrev pub same_key : CacheKey → CacheKey → Bool
same_key (by_id m) (by_id n) = m == n
same_key (by_username r s) (by_username q t) = r == q && eq_text s t
same_key _ _ = false

-- GET, DEL and SET of one key
abbrev pub cache_get : CacheKey → List CacheEntry → Option CachedPrincipal
cache_get k [] = none
cache_get k (e ∷ es) = if same_key e.key k then some e.value else cache_get k es

abbrev pub cache_delete : CacheKey → List CacheEntry → List CacheEntry
cache_delete k es = where_true (λ e. not (same_key e.key k)) es

abbrev pub cache_set : CacheKey → CachedPrincipal → List CacheEntry → List CacheEntry
cache_set k c es = record { key = k; value = c } ∷ cache_delete k es

-- the key of `get_principal`, an id before a name
abbrev pub name_key : Option String → Option ℕ → Option CacheKey
name_key (some name) (some realm_id) =
    if eq_text name ""
    then none
    else (if realm_id == 0 then none else some (by_username realm_id name))
name_key _ _ = none

abbrev pub key_of : Option ℕ → Option String → Option ℕ → Option CacheKey
key_of none name realm_id = name_key name realm_id
key_of (some id) name realm_id = if id == 0 then name_key name realm_id else some (by_id id)

-- the WHERE of a key
abbrev pub is_row_of : CacheKey → PrincipalRow → Bool
is_row_of (by_id id) p = p.id == id
is_row_of (by_username realm_id name) p = eq_text p.username name && p.realm_id == realm_id

-- `attributes or {}`
abbrev pub or_empty : Json → Json
or_empty null = obj end
or_empty j = j

abbrev pub data_of : PrincipalState → PrincipalRow → CachedPrincipal
data_of s p = record {
  id = p.id;
  username = p.username;
  realm_id = p.realm_id;
  attributes = or_empty p.attributes;
  role_ids = stored_roles s.principal_roles p.id;
}

abbrev pub with_cached : PrincipalState → List CacheEntry → PrincipalState
with_cached s es = record s { cached = es }

-- SET under the id, and under the name if it is not empty
abbrev pub store : CachedPrincipal → List CacheEntry → List CacheEntry
store c es =
    if eq_text c.username ""
    then cache_set (by_id c.id) c es
    else cache_set (by_username c.realm_id c.username) c (cache_set (by_id c.id) c es)

-- `.scalars().first()`
abbrev pub first {ℓ} : {A : Type ℓ} → List A → Option A
first [] = none
first (x ∷ xs) = some x

abbrev pub read_row : PrincipalState → Option PrincipalRow → Option CachedPrincipal × PrincipalState
read_row s none = (none, s)
read_row s (some p) = (some (data_of s p), with_cached s (store (data_of s p) s.cached))

abbrev pub read_cached :
    CacheKey → PrincipalState → Option CachedPrincipal → Option CachedPrincipal × PrincipalState
read_cached k s (some c) = (some c, s)
read_cached k s none = read_row s (first (where_true (is_row_of k) s.principals))

abbrev pub read_key : PrincipalState → Option CacheKey → Option CachedPrincipal × PrincipalState
read_key s none = (none, s)
read_key s (some k) = read_cached k s (cache_get k s.cached)

-- `CacheService.get_principal`, with a session
unfoldable pub get_principal :
    Option ℕ → Option String → Option ℕ → PrincipalState → Option CachedPrincipal × PrincipalState
get_principal id name realm_id s = read_key s (key_of id name realm_id)

-- `CacheService.invalidate_principal_roles`
abbrev pub invalidate_principal_roles : ℕ → PrincipalState → PrincipalState
invalidate_principal_roles id s = record s {
  cached = cache_delete (by_id id) s.cached;
  cached_roles = where_true (λ c. not (c.principal_id == id)) s.cached_roles;
}
