-- ===== src/Manifest/Tables.antt =====
-- common/models.py: the rows of one realm that a manifest describes, and how
-- common/application/manifest_service.py looks them up.
use stateful_abac_policy_eng.Prelude.{
  ℕ, String, Bool, true, false, Option, none, some, List, [], ◌∷◌, eq_text, if◌then◌else◌, Result,
  ok, err,
}
use stateful_abac_policy_eng.Json.{Json, null, bool, num, str, arr, nil, cons, obj, end, field}
use stateful_abac_policy_eng.Policy.{Acl, ExternalId, ResourceType, Action}
use stateful_abac_policy_eng.Auth.Roles.{PrincipalRoles}
use stateful_abac_policy_eng.Services.PrincipalCache.{PrincipalRow}

pub record KeycloakRow : Type 0 where
  pub server_url : String
  pub keycloak_realm : String
  pub client_id : String
  pub client_secret : Option String
  pub verify_ssl : Bool
  pub sync_cron : Option String
  pub sync_groups : Bool
  pub public_key : Option String
  pub algorithm : String
  pub settings : Option Json

-- a row of auth_role; Python's None is JSON null in `attributes`
pub record RoleRow : Type 0 where
  pub id : ℕ
  pub name : String
  pub realm_id : ℕ
  pub attributes : Json

-- a row of resource, its geometry as the extended text that was parsed into it
pub record ResourceRow : Type 0 where
  pub id : ℕ
  pub realm_id : ℕ
  pub resource_type_id : ℕ
  pub attributes : Json
  pub geometry : Option String

-- the rows of one realm, and the sequences
pub record Tables : Type 0 where
  pub id : ℕ
  pub name : String
  pub description : Option String
  pub keycloak_config : Option KeycloakRow
  pub types : List ResourceType
  pub actions : List Action
  pub roles : List RoleRow
  pub principals : List PrincipalRow
  pub principal_roles : List PrincipalRoles
  pub resources : List ResourceRow
  pub external_ids : List ExternalId
  pub acls : List Acl
  pub next_type : ℕ
  pub next_action : ℕ
  pub next_role : ℕ
  pub next_principal : ℕ
  pub next_resource : ℕ
  pub next_acl : ℕ

-- `{key(x): x for x in rows}.get(k)`: of several rows with one key the last
abbrev pub last_or {ℓ} : {A : Type ℓ} → Option A → A → Bool → Option A
last_or (some later) x b = some later
last_or none x true = some x
last_or none x false = none

abbrev pub last_where {ℓ} : {A : Type ℓ} → (A → Bool) → List A → Option A
last_where test [] = none
last_where test (x ∷ xs) = last_or (last_where test xs) x (test x)

-- `.get(None)` finds nothing
abbrev pub last_named {ℓ} : {A : Type ℓ} → (A → String) → Option String → List A → Option A
last_named name none rows = none
last_named name (some k) rows = last_where (λ x. eq_text (name x) k) rows

-- the truth of a column, which holds no number
abbrev pub is_truthy : Json → Bool
is_truthy null = false
is_truthy (bool b) = b
is_truthy (num n) = true
is_truthy (str s) = if eq_text s "" then false else true
is_truthy (arr nil) = false
is_truthy (arr (cons j js)) = true
is_truthy (obj end) = false
is_truthy (obj (field k j fs)) = true

-- the end of a call: it returns or raises, and this is what it committed
pub data Run {ℓ} (A : Type ℓ) : Type ℓ where
  done : A → Tables → Run A
  raised : Tables → Run A

abbrev pub then_run {ℓ κ} : {A : Type ℓ} {B : Type κ} → Run A → (A → Tables → Run B) → Run B
then_run (done a t) f = f a t
then_run (raised t) f = raised t

-- a part of the work that is committed at its end: if it raises, nothing of it stays
abbrev pub commit {ℓ} : {A : Type ℓ} → Tables → Result (A × Tables) → Run A
commit before (ok (a, t)) = done a t
commit before err = raised before

pub record Counts : Type 0 where
  pub created : ℕ
  pub updated : ℕ
  pub skipped : ℕ

abbrev pub no_counts : Counts
no_counts = record { created = 0; updated = 0; skipped = 0 }
