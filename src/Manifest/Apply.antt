-- ===== src/Manifest/Apply.antt =====
-- common/application/manifest_service.py, `apply_manifest`: the realm, and the sections in their order.
-- The state is the realm of the manifest's name, if there is one, and the sequences that a new realm's
-- rows are numbered by.
use stateful_abac_policy_eng.Prelude.{
  ℕ, String, Bool, true, false, Option, none, some, [], eq_text, if◌then◌else◌, Result, ok, err,
  ◌>>=◌,
}
use stateful_abac_policy_eng.Json.{Json}
use stateful_abac_policy_eng.Manifest.{Manifest, RealmItem, KeycloakItem}
use stateful_abac_policy_eng.Manifest.Tables.{
  KeycloakRow, Tables, Run, done, raised, then_run, commit, Counts, no_counts,
}
use stateful_abac_policy_eng.Manifest.Sections.{
  apply_types, apply_actions, apply_roles, apply_principals,
}
use stateful_abac_policy_eng.Manifest.Bulk.{Statements, apply_resources}
use stateful_abac_policy_eng.Manifest.Rules.{AclResult, apply_acls}

pub data Mode : Type 0 where
  replace : Mode
  create : Mode
  update : Mode

pub data RealmStatus : Type 0 where
  skipped : RealmStatus
  updated : RealmStatus
  created : RealmStatus

pub data SyncStatus : Type 0 where
  not_configured : SyncStatus
  sync_skipped : SyncStatus
  sync_completed : SyncStatus
  sync_failed : SyncStatus

pub record Results : Type 0 where
  pub realm_deleted : Bool
  pub realm : RealmStatus
  pub resource_types : Counts
  pub actions : Counts
  pub roles : Counts
  pub principals : Counts
  pub keycloak_sync : SyncStatus
  pub resources : Counts
  pub acls : AclResult

-- the next ids
pub record Sequences : Type 0 where
  pub next_realm : ℕ
  pub next_type : ℕ
  pub next_action : ℕ
  pub next_role : ℕ
  pub next_principal : ℕ
  pub next_resource : ℕ
  pub next_acl : ℕ

-- the end of the whole call; the realm may not be there
pub data Applied : Type 0 where
  applied : Results → Tables → Applied
  stopped : Option Tables → Applied

abbrev pub required : Option String → Result String
required none = err
required (some s) = ok s

abbrev pub or_default {ℓ} : {A : Type ℓ} → A → Option A → A
or_default a none = a
or_default a (some b) = b

abbrev pub or_kept {ℓ} : {A : Type ℓ} → Option A → Option A → Option A
or_kept old none = old
or_kept old (some new) = some new

-- `RealmKeycloakConfig(realm_id=realm.id, **kc_data)`, with the columns' defaults
abbrev pub new_keycloak : KeycloakItem → Result KeycloakRow
new_keycloak k = do
  server_url ← required k.server_url
  keycloak_realm ← required k.keycloak_realm
  client_id ← required k.client_id
  ok (record {
    server_url = server_url;
    keycloak_realm = keycloak_realm;
    client_id = client_id;
    client_secret = k.client_secret;
    verify_ssl = or_default true k.verify_ssl;
    sync_cron = k.sync_cron;
    sync_groups = or_default false k.sync_groups;
    public_key = k.public_key;
    algorithm = or_default "RS256" k.algorithm;
    settings = k.settings;
  })

-- `setattr` of every key that is there
abbrev pub set_keycloak : KeycloakItem → KeycloakRow → KeycloakRow
set_keycloak k row = record {
  server_url = or_default row.server_url k.server_url;
  keycloak_realm = or_default row.keycloak_realm k.keycloak_realm;
  client_id = or_default row.client_id k.client_id;
  client_secret = or_kept row.client_secret k.client_secret;
  verify_ssl = or_default row.verify_ssl k.verify_ssl;
  sync_cron = or_kept row.sync_cron k.sync_cron;
  sync_groups = or_default row.sync_groups k.sync_groups;
  public_key = or_kept row.public_key k.public_key;
  algorithm = or_default row.algorithm k.algorithm;
  settings = or_kept row.settings k.settings;
}

abbrev pub next_keycloak : Option KeycloakItem → Option KeycloakRow → Result (Option KeycloakRow)
next_keycloak none row = ok row
next_keycloak (some k) (some row) = ok (some (set_keycloak k row))
next_keycloak (some k) none = do row ← new_keycloak k; ok (some row)

abbrev pub new_tables : RealmItem → Option KeycloakRow → Sequences → Tables
new_tables item keycloak s = record {
  id = s.next_realm;
  name = item.name;
  description = item.description;
  keycloak_config = keycloak;
  types = [];
  actions = [];
  roles = [];
  principals = [];
  principal_roles = [];
  resources = [];
  external_ids = [];
  acls = [];
  next_type = s.next_type;
  next_action = s.next_action;
  next_role = s.next_role;
  next_principal = s.next_principal;
  next_resource = s.next_resource;
  next_acl = s.next_acl;
}

abbrev pub updated_realm : RealmItem → Tables → Result (RealmStatus × Tables)
updated_realm item t = do
  keycloak ← next_keycloak item.keycloak_config t.keycloak_config
  ok (
    updated,
    record t { description = or_kept t.description item.description; keycloak_config = keycloak },
  )

-- Replace mode comes here without the realm, which `delete_realm` deleted.
unfoldable pub apply_realm :
    Mode → RealmItem → Option Tables → Sequences → Result (RealmStatus × Tables)
apply_realm mode item none s = do
  keycloak ← next_keycloak item.keycloak_config none
  ok (created, new_tables item keycloak s)
apply_realm create item (some t) s = ok (skipped, t)
apply_realm update item (some t) s = updated_realm item t
apply_realm replace item (some t) s = updated_realm item t

-- `RealmService.delete_realm` of the realm of the name
abbrev pub deleted : Mode → Option Tables → Bool × Option Tables
deleted replace (some t) = (true, none)
deleted mode found = (false, found)

-- `kc_config.get("client_secret")`
abbrev pub has_secret : Option KeycloakItem → Option Bool
has_secret none = none
has_secret (some k) = elim k.client_secret [
  | none ↦ some false
  | some s ↦ some (if eq_text s "" then false else true)
]

-- `compile` is the trigger of acl, `db` the code behind the bulk statements, and `sync_realm` what the
-- synchronisation with Keycloak leaves and whether it returned
module _ (compile : Option Json → Result (Option String)) (db : Statements)
    (sync_realm : Tables → Bool × Tables) where
  abbrev pub sync_outcome : Bool → SyncStatus
  sync_outcome true = sync_completed
  sync_outcome false = sync_failed

  abbrev pub sync : Option Bool → Tables → SyncStatus × Tables
  sync none t = (not_configured, t)
  sync (some false) t = (sync_skipped, t)
  sync (some true) t = let out = sync_realm t in (sync_outcome out.0, out.1)

  abbrev pub as_applied : Run Results → Applied
  as_applied (done r t) = applied r t
  as_applied (raised t) = stopped (some t)

  -- the sections, each committed at its end
  unfoldable pub apply_sections : Manifest → RealmItem → Bool → RealmStatus → Tables → Run Results
  apply_sections m item gone status t =
      let types = apply_types m.resource_types no_counts t in
      let actions = apply_actions m.actions no_counts types.1 in
      let roles = apply_roles m.roles actions.1 in
      then_run (commit roles.1 (apply_principals m.principals no_counts roles.1)) λ principals u.
        let synced = sync (has_secret item.keycloak_config) u in
        then_run (apply_resources db m.resources synced.1) λ resources w.
          let acls = apply_acls compile m.acls w in
          done
            (record {
              realm_deleted = gone;
              realm = status;
              resource_types = types.0;
              actions = actions.0;
              roles = roles.0;
              principals = principals;
              keycloak_sync = synced.0;
              resources = resources;
              acls = acls.0;
            })
            acls.1

  unfoldable pub after_realm :
      Manifest → RealmItem → Bool → Option Tables → Result (RealmStatus × Tables) → Applied
  after_realm m item gone found err = stopped found
  after_realm m item gone found (ok (status, t)) = as_applied (apply_sections m item gone status t)

  unfoldable pub with_realm :
      Mode → Manifest → Option Tables → Sequences → Option RealmItem → Applied
  with_realm mode m found s none = stopped found
  with_realm mode m found s (some item) =
      let start = deleted mode found in
      after_realm m item start.0 start.1 (apply_realm mode item start.1 s)

  unfoldable pub apply_manifest : Mode → Manifest → Option Tables → Sequences → Applied
  apply_manifest mode m found s = with_realm mode m found s m.realm
