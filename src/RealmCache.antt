-- ===== src/RealmCache.antt =====
-- common/services/cache.py: the hash of a realm in Redis, which maps the names of the realm's actions,
-- types and roles to their ids, and the rows of one realm that it is made of. An empty hash is an
-- absent key. The lifetime of the key is left to the caller.
pub mod Numbers
pub mod Lookups
use Prim.Native.String
use stateful_abac_policy_eng.Prelude.{
  ℕ, String, Bool, true, false, not, ◌&&◌, ◌||◌, Option, none, some, List, [], ◌∷◌, ◌++◌, ◌≡◌, ap,
  eq_text, is_none, if◌then◌else◌, Result, ok, err, where_true, str_of,
}
use stateful_abac_policy_eng.Policy.{Action, ResourceType}
use stateful_abac_policy_eng.Auth.{Entry, find}

pub record AuthRole : Type 0 where
  pub id : ℕ
  pub name : String

-- the columns of realm_keycloak_config that the hash has
pub record KeycloakConfig : Type 0 where
  pub public_key : Option String
  pub algorithm : String

-- the rows of one realm, and its hash
pub record RealmState : Type 0 where
  pub id : ℕ
  pub keycloak_config : Option KeycloakConfig
  pub actions : List Action
  pub types : List ResourceType
  pub roles : List AuthRole
  pub next_id : ℕ
  pub next_action_id : ℕ
  pub hash : Option (List Entry)

-- `mapping[key] = value`, and HSET of one field
abbrev pub set_field : Entry → List Entry → List Entry
set_field e [] = e ∷ []
set_field e (d ∷ ds) = let rest = set_field e ds in if eq_text d.key e.key then e ∷ ds else d ∷ rest

abbrev pub set_fields : List Entry → List Entry → List Entry
set_fields [] hash = hash
set_fields (e ∷ es) hash = set_fields es (set_field e hash)

-- `str(flag).lower()`
abbrev pub flag_text : Bool → String
flag_text b = if b then "true" else "false"

abbrev pub action_entry : Action → Entry
action_entry a = record { key = String.◌++◌ "action:" a.name; text = str_of a.id }

abbrev pub type_entry : ResourceType → Entry
type_entry t = record { key = String.◌++◌ "type:" t.name; text = str_of t.id }

abbrev pub public_entry : ResourceType → Entry
public_entry t = record { key = String.◌++◌ "type_public:" t.name; text = flag_text t.is_public }

abbrev pub role_entry : AuthRole → Entry
role_entry r = record { key = String.◌++◌ "role:" r.name; text = str_of r.id }

-- a text of the configuration that is there and not empty
abbrev pub text_entry : String → Option String → List Entry
text_entry key none = []
text_entry key (some s) = if eq_text s "" then [] else record { key = key; text = s } ∷ []

abbrev pub config_entries : Option KeycloakConfig → List Entry
config_entries none = []
config_entries (some c) =
    text_entry "_public_key" c.public_key ++ text_entry "_algorithm" (some c.algorithm)

abbrev pub action_entries : List Action → List Entry
action_entries [] = []
action_entries (a ∷ actions) = action_entry a ∷ action_entries actions

abbrev pub type_entries : List ResourceType → List Entry
type_entries [] = []
type_entries (t ∷ ts) = type_entry t ∷ public_entry t ∷ type_entries ts

abbrev pub role_entries : List AuthRole → List Entry
role_entries [] = []
role_entries (r ∷ roles) = role_entry r ∷ role_entries roles

-- the assignments to `mapping`, in their order
abbrev pub assignments : RealmState → List Entry
assignments s =
    record { key = "_id"; text = str_of s.id }
    ∷ (config_entries s.keycloak_config
        ++ (action_entries s.actions ++ (type_entries s.types ++ role_entries s.roles)))

unfoldable pub mapping_of : RealmState → List Entry
mapping_of s = set_fields (assignments s) []

abbrev pub with_hash : RealmState → Option (List Entry) → RealmState
with_hash s h = record s { hash = h }

-- the script _LUA_POPULATE_IF_ABSENT
abbrev pub populate_if_absent : List Entry → Option (List Entry) → Option (List Entry)
populate_if_absent mapping none = some mapping
populate_if_absent mapping (some hash) = some hash

abbrev pub or_mapping : Option (List Entry) → List Entry → List Entry
or_mapping none mapping = mapping
or_mapping (some hash) mapping = hash

-- the script of a call that read `mapping`, and the answer: the hash that is there by now, if there is
abbrev pub rebuild : List Entry → RealmState → List Entry × RealmState
rebuild mapping s = (or_mapping s.hash mapping, with_hash s (populate_if_absent mapping s.hash))

abbrev pub looked_up : List Entry → Option (List Entry) → RealmState → List Entry × RealmState
looked_up mapping none s = rebuild mapping s
looked_up mapping (some hash) s = (hash, s)

-- `get_realm_map` of a realm that exists, with a session, when nothing runs in between
unfoldable pub get_realm_map : RealmState → List Entry × RealmState
get_realm_map s = looked_up (mapping_of s) s.hash s

-- The hash, where there is one, is the answer.
pub get_realm_map-some :
    (s : RealmState) (hash : List Entry) → s.hash ≡ some hash → (get_realm_map s).0 ≡ hash
unfolding get_realm_map
get_realm_map-some s hash cached = ap (λ h. (looked_up (mapping_of s) h s).0) cached

-- `invalidate_realm`
abbrev pub invalidate_realm : RealmState → RealmState
invalidate_realm s = with_hash s none

abbrev pub updated_hash : List Entry → Option (List Entry) → Option (List Entry)
updated_hash es none = none
updated_hash es (some hash) =
    if is_none (find "_id" hash) then some hash else some (set_fields es hash)

-- `update_realm_type`, by the script _LUA_UPDATE_TYPE_IF_EXISTS
unfoldable pub update_realm_type : ResourceType → RealmState → RealmState
update_realm_type t s = with_hash s (updated_hash (type_entry t ∷ public_entry t ∷ []) s.hash)

abbrev pub present : List Entry → Option (List Entry)
present [] = none
present (e ∷ es) = some (e ∷ es)

abbrev pub is_type_field : String → Entry → Bool
is_type_field name e =
    eq_text e.key (String.◌++◌ "type:" name) || eq_text e.key (String.◌++◌ "type_public:" name)

abbrev pub removed_hash : String → Option (List Entry) → Option (List Entry)
removed_hash name none = none
removed_hash name (some hash) = present (where_true (λ e. not (is_type_field name e)) hash)

-- `remove_realm_type`, HDEL of the two fields
unfoldable pub remove_realm_type : String → RealmState → RealmState
remove_realm_type name s = with_hash s (removed_hash name s.hash)
