-- ===== src/Manifest/Export.antt =====
-- common/application/manifest_service.py, `export_manifest`.
use stateful_abac_policy_eng.Prelude.{
  ℕ, String, Option, none, some, List, [], ◌∷◌, ◌==◌, map, if◌then◌else◌, is_none,
}
use stateful_abac_policy_eng.Json.{Json}
use stateful_abac_policy_eng.Policy.{Acl, ExternalId, ResourceType, Action}
use stateful_abac_policy_eng.Auth.Roles.{stored_roles}
use stateful_abac_policy_eng.Services.PrincipalCache.{PrincipalRow}
use stateful_abac_policy_eng.Manifest.{
  KeycloakItem, TypeItem, RoleItem, PrincipalItem, ResourceItem, AclItem, Manifest,
}
use stateful_abac_policy_eng.Manifest.Tables.{
  KeycloakRow, RoleRow, ResourceRow, Tables, last_where, is_truthy,
}

-- `if value: dict[key] = value`
abbrev pub if_truthy : Json → Option Json
if_truthy j = if is_truthy j then some j else none

abbrev pub if_some : Option Json → Option Json
if_some none = none
if_some (some j) = if_truthy j

abbrev pub keycloak_item : KeycloakRow → KeycloakItem
keycloak_item k = record {
  server_url = some k.server_url;
  keycloak_realm = some k.keycloak_realm;
  client_id = some k.client_id;
  client_secret = none;
  verify_ssl = some k.verify_ssl;
  sync_cron = k.sync_cron;
  sync_groups = some k.sync_groups;
  public_key = none;
  algorithm = none;
  settings = if_some k.settings;
}

abbrev pub export_keycloak : Option KeycloakRow → Option KeycloakItem
export_keycloak none = none
export_keycloak (some k) = some (keycloak_item k)

abbrev pub export_type : ResourceType → TypeItem
export_type rt = record { name = rt.name; is_public = some rt.is_public }

abbrev pub export_role : RoleRow → RoleItem
export_role r = record { name = r.name; attributes = if_truthy r.attributes }

-- `{x.id: x.name for x in rows}.get(id, "unknown")`
abbrev pub name_or_unknown {ℓ} : {A : Type ℓ} → (A → String) → Option A → String
name_or_unknown name none = "unknown"
name_or_unknown name (some x) = name x

abbrev pub role_name : List RoleRow → ℕ → String
role_name roles id = name_or_unknown (λ r. r.name) (last_where (λ r. r.id == id) roles)

abbrev pub type_name : List ResourceType → ℕ → String
type_name types id = name_or_unknown (λ rt. rt.name) (last_where (λ rt. rt.id == id) types)

abbrev pub action_name : List Action → ℕ → String
action_name actions id = name_or_unknown (λ a. a.name) (last_where (λ a. a.id == id) actions)

abbrev pub username_of : List PrincipalRow → ℕ → String
username_of principals id =
    name_or_unknown (λ p. p.username) (last_where (λ p. p.id == id) principals)

abbrev pub if_names : List String → Option (List String)
if_names [] = none
if_names (n ∷ ns) = some (n ∷ ns)

-- `[role.name for role in principal.roles]`
abbrev pub names_of_roles : Tables → ℕ → List String
names_of_roles t id = map (role_name t.roles) (stored_roles t.principal_roles id)

abbrev pub export_principal : Tables → PrincipalRow → PrincipalItem
export_principal t p = record {
  username = p.username;
  attributes = if_truthy p.attributes;
  roles = if_names (names_of_roles t p.id);
}

-- `resource.external_ids[0].external_id`
abbrev pub first_external : List ExternalId → ℕ → Option String
first_external [] id = none
first_external (x ∷ xs) id =
    if x.resource_id == id then some x.external_id else first_external xs id

-- "anonymous" is the principal 0; a role comes first
abbrev pub if_id : Option ℕ → Option ℕ
if_id none = none
if_id (some id) = if id == 0 then none else some id

abbrev pub export_principal_of : Tables → Option ℕ → Option String
export_principal_of t none = none
export_principal_of t (some id) =
    if id == 0 then some "anonymous" else some (username_of t.principals id)

abbrev pub export_role_of : Tables → Option ℕ → Option String
export_role_of t none = none
export_role_of t (some id) = some (role_name t.roles id)

abbrev pub if_row : Option ResourceRow → Option String → Option String
if_row none e = none
if_row (some r) e = e

-- the text of a resource that is in the realm and has one
abbrev pub external_of : Tables → Option ℕ → Option String
external_of t none = none
external_of t (some id) =
    if_row (last_where (λ r. r.id == id) t.resources) (first_external t.external_ids id)

abbrev pub export_acl : Tables → Acl → AclItem
export_acl t a = record {
  resource_type = some (type_name t.types a.resource_type_id);
  action = some (action_name t.actions a.action_id);
  role = export_role_of t (if_id a.role_id);
  principal = if is_none (if_id a.role_id) then export_principal_of t a.principal_id else none;
  principal_id = none;
  resource_external_id = external_of t (if_id a.resource_id);
  conditions = if_some a.conditions;
}

-- `shape` is `to_shape` and `mapping`, with none where they raise
module _ (shape : String → Option Json) where
  abbrev pub export_geometry : Option String → Option Json
  export_geometry none = none
  export_geometry (some g) = shape g

  abbrev pub export_resource : Tables → ResourceRow → ResourceItem
  export_resource t r = record {
    type_name = some (type_name t.types r.resource_type_id);
    external_id = first_external t.external_ids r.id;
    attributes = if_truthy r.attributes;
    geometry = export_geometry r.geometry;
    srid = none;
  }

  -- `export_manifest` of a realm that exists; of another it raises
  unfoldable pub export_manifest : Tables → Manifest
  export_manifest t = record {
    realm = some (record {
      name = t.name;
      description = t.description;
      keycloak_config = export_keycloak t.keycloak_config;
    });
    resource_types = map export_type t.types;
    actions = map (λ a. a.name) t.actions;
    roles = map export_role t.roles;
    principals = map (export_principal t) t.principals;
    resources = map (export_resource t) t.resources;
    acls = map (export_acl t) t.acls;
  }
