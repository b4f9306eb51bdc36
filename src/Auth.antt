-- ===== src/Auth.antt =====
-- common/services/cache.py and common/application/auth_service.py: the realm map that Redis holds, the
-- principal and the names that a request gives.
pub mod Roles
pub mod Decisions
pub mod Externals
pub mod Access
pub mod Permitted
pub mod Check
pub mod Contexts
use Prim.Native.Char.{Char, code}
use Prim.Native.String
use stateful_abac_policy_eng.Prelude.{
  ℕ, String, Bool, true, false, ◌&&◌, ◌||◌, Option, none, some, List, [], ◌∷◌, ◌+◌, ◌*◌, ◌-◌, leb,
  ◌==◌, eq_text, if◌then◌else◌, Result, ok, err, ◌>>=◌,
}

-- a field and its value
pub record Entry : Type 0 where
  pub key : String
  pub text : String

-- `realm_map.get(key)`
abbrev pub find : String → List Entry → Option String
find k [] = none
find k (e ∷ es) = if eq_text e.key k then some e.text else find k es

unfoldable pub read_digits : ℕ → String → Option ℕ
read_digits n String.[] = some n
read_digits n (String.◌∷◌ c s) =
    let rest = read_digits ((n * 10) + (code c - b'0')) s in
    if leb b'0' (code c) && leb (code c) b'9' then rest else none

abbrev number_or_raise : Option ℕ → Result ℕ
number_or_raise none = err
number_or_raise (some n) = ok n

-- `int(s)`, on the texts that `str` prints for a number
unfoldable pub int_of : String → Result ℕ
unfolding read_digits
int_of s = number_or_raise (if eq_text s "" then none else read_digits 0 s)

-- a value that is there and not empty
abbrev pub or_raise : Option String → Result String
or_raise none = err
or_raise (some s) = if eq_text s "" then err else ok s

pub record Ids : Type 0 where
  pub action_id : ℕ
  pub type_id : ℕ

-- `CacheService.resolve_ids`
unfoldable pub resolve_ids : List Entry → String → String → Result Ids
unfolding int_of
resolve_ids realm_map action_name type_name = do
  a ← or_raise (find (String.◌++◌ "action:" action_name) realm_map)
  t ← or_raise (find (String.◌++◌ "type:" type_name) realm_map)
  n ← int_of a
  m ← int_of t
  ok (record { action_id = n; type_id = m })

abbrev role_of : Option String → Result (Option ℕ)
role_of none = ok none
role_of (some s) = if eq_text s "" then ok none else (do n ← int_of s; ok (some n))

-- `CacheService.resolve_role_id`
unfoldable pub resolve_role_id : List Entry → String → Result (Option ℕ)
unfolding int_of
resolve_role_id realm_map role_name = role_of (find (String.◌++◌ "role:" role_name) realm_map)

-- `CacheService.get_realm_id`
unfoldable pub get_realm_id : List Entry → Result ℕ
unfolding int_of
get_realm_id realm_map = or_raise (find "_id" realm_map) >>= int_of

-- A principal: anonymous, or with an id and, if it was read from the cache, its roles.
pub data Principal : Type 0 where
  anonymous : Principal
  known : ℕ → Option (List ℕ) → Principal

-- `principal.id`, which is 0 for an anonymous one
abbrev pub principal_id : Principal → ℕ
principal_id anonymous = 0
principal_id (known id roles) = id
