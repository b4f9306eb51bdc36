-- ===== src/Manifest.antt =====
-- A manifest: the JSON document that describes a realm, as common/application/manifest_service.py reads
-- and writes it and the SDK builds it. A key that may be missing is an `Option`; a section that is
-- missing and one that is empty are one here, since the code tests them by their truth. A key that is
-- given as null is not told from a missing one; where the code does so, as when an update sets the
-- description of a realm to null, such a manifest is outside the model.
pub mod Tables
pub mod Sections
pub mod Bulk
pub mod Rules
pub mod Apply
pub mod Export
pub mod Lookup
pub mod Written
pub mod Members
pub mod Assigned
pub mod Batches
pub mod Placed
pub mod Grouped
pub mod Externals
pub mod Found
pub mod Named
pub mod WithAcls
pub mod Granted
pub mod Complete
pub mod Outcome
pub mod Imported
pub mod RoundTrip
pub mod Twice
pub mod Sound
pub mod Frames
pub mod Kept
use stateful_abac_policy_eng.Prelude.{ℕ, String, Bool, Option, List}
use stateful_abac_policy_eng.Json.{Json}

-- the keys of `keycloak_config`
pub record KeycloakItem : Type 0 where
  pub server_url : Option String
  pub keycloak_realm : Option String
  pub client_id : Option String
  pub client_secret : Option String
  pub verify_ssl : Option Bool
  pub sync_cron : Option String
  pub sync_groups : Option Bool
  pub public_key : Option String
  pub algorithm : Option String
  pub settings : Option Json

pub record RealmItem : Type 0 where
  pub name : String
  pub description : Option String
  pub keycloak_config : Option KeycloakItem

pub record TypeItem : Type 0 where
  pub name : String
  pub is_public : Option Bool

pub record RoleItem : Type 0 where
  pub name : String
  pub attributes : Option Json

pub record PrincipalItem : Type 0 where
  pub username : String
  pub attributes : Option Json
  pub roles : Option (List String)

pub record ResourceItem : Type 0 where
  pub type_name : Option String
  pub external_id : Option String
  pub attributes : Option Json
  pub geometry : Option Json
  pub srid : Option ℕ

pub record AclItem : Type 0 where
  pub resource_type : Option String
  pub action : Option String
  pub role : Option String
  pub principal : Option String
  pub principal_id : Option ℕ
  pub resource_external_id : Option String
  pub conditions : Option Json

pub record Manifest : Type 0 where
  pub realm : Option RealmItem
  pub resource_types : List TypeItem
  pub actions : List String
  pub roles : List RoleItem
  pub principals : List PrincipalItem
  pub resources : List ResourceItem
  pub acls : List AclItem
