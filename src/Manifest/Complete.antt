-- ===== src/Manifest/Complete.antt =====
-- common/application/manifest_service.py: the manifests that say what an export says.
use stateful_abac_policy_eng.Prelude.{
  Every, ◌<◌, String, Bool, Option, none, some, List, [], ◌≡◌, refl, sym, ap, ◌∙◌, map,
  if◌then◌else◌, Result, ok, Bool-cases, inl, inr,
}
use stateful_abac_policy_eng.Json.{Json}
use stateful_abac_policy_eng.Manifest.{Manifest, RealmItem, KeycloakItem}
use stateful_abac_policy_eng.Manifest.Tables.{KeycloakRow, is_truthy}
use stateful_abac_policy_eng.Manifest.Bulk.{Statements, group_items}
use stateful_abac_policy_eng.Manifest.Apply.{
  Sequences, SyncStatus, not_configured, sync_skipped, next_keycloak,
}
use stateful_abac_policy_eng.Manifest.Export.{export_keycloak, keycloak_item, if_some, if_truthy}
use stateful_abac_policy_eng.Manifest.Lookup.{AreDistinct}
use stateful_abac_policy_eng.Manifest.Members.{AreMembers}
use stateful_abac_policy_eng.Manifest.Assigned.{AreWritten, IsKept}
use stateful_abac_policy_eng.Manifest.Batches.{ungroup}
use stateful_abac_policy_eng.Manifest.Placed.{external_ids_of}
use stateful_abac_policy_eng.Manifest.Found.{IsResource}
use stateful_abac_policy_eng.Manifest.Named.{IsRule}

abbrev pub type_names : Manifest → List String
type_names m = map (λ i. i.name) m.resource_types

abbrev pub role_names : Manifest → List String
role_names m = map (λ i. i.name) m.roles

abbrev pub usernames : Manifest → List String
usernames m = map (λ i. i.username) m.principals

-- A configuration of Keycloak as an export writes it.
abbrev pub IsExported : Option KeycloakItem → Type 0
IsExported k = (row : Option KeycloakRow) × (export_keycloak row ≡ k)

-- A manifest that says everything an export says, and nothing that it leaves out. Its names are
-- distinct, what it names is there, and its resources are in the order of their types.
pub record IsComplete (compile : Option Json → Result (Option String)) (db : Statements)
    (shape : String → Option Json) (m : Manifest) (item : RealmItem) : Type 0 where
  pub realm_given : m.realm ≡ some item
  pub keycloak : IsExported item.keycloak_config
  pub types_distinct : AreDistinct (type_names m)
  pub types_public : Every (λ i. (b : Bool) × (i.is_public ≡ some b)) m.resource_types
  pub actions_distinct : AreDistinct m.actions
  pub roles_kept : Every (λ i. IsKept i.attributes) m.roles
  pub principals_distinct : AreDistinct (usernames m)
  pub principals_known : AreMembers (role_names m) m.principals
  pub principals_kept : AreWritten m.principals
  pub externals_distinct : AreDistinct (external_ids_of m.resources)
  pub resources_grouped : ungroup (group_items m.resources []) ≡ m.resources
  pub resources_kept : Every (IsResource db shape (type_names m)) m.resources
  pub rules_kept :
      Every
        (IsRule compile
          (type_names m)
          m.actions
          (role_names m)
          (usernames m)
          (external_ids_of m.resources))
        m.acls

-- The sequences of the ids have left 0 behind.
pub record IsStarted (s : Sequences) : Type 0 where
  pub roles : 0 < s.next_role
  pub principals : 0 < s.next_principal
  pub resources : 0 < s.next_resource

-- ---- the configuration of Keycloak
if_some-if_some : (settings : Option Json) → if_some (if_some settings) ≡ if_some settings
if_some-if_some none = refl
if_some-if_some (some j) = elim (Bool-cases (is_truthy j)) [
  | inl full ↦
      let kept : if_truthy j ≡ some j = ap (λ b. if b then some j else none) full in ap if_some kept
  | inr empty ↦
      let dropped : if_truthy j ≡ none = ap (λ b. if b then some j else none) empty in
      ap if_some dropped ∙ sym dropped
]

-- `kc_data.get("client_secret")` is missing in what an export writes.
abbrev pub quiet : Option KeycloakItem → SyncStatus
quiet none = not_configured
quiet (some k) = sync_skipped

pub keycloak_again :
    (row : Option KeycloakRow)
    → (again : Option KeycloakRow) × (next_keycloak (export_keycloak row) none ≡ ok again)
      × (export_keycloak again ≡ export_keycloak row)
keycloak_again none = (none, refl, refl)
keycloak_again (some row) = (
  some (record row {
    client_secret = none;
    public_key = none;
    algorithm = "RS256";
    settings = if_some row.settings;
  }),
  refl,
  ap (λ o. some (record (keycloak_item row) { settings = o })) (if_some-if_some row.settings),
)
