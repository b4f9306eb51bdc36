-- ===== src/Tests/Manifests.antt =====
-- A small manifest, and the results about its import and export.
use Prim.Native.Char.{code}
use stateful_abac_policy_eng.Prelude.{
  ◌==◌, ◌||◌, if◌then◌else◌, err, String, Bool, true, false, Option, none, some, [], ◌∷◌, ◌≡◌, refl,
  Result, ok, length, arith, inl, inr,
}
use stateful_abac_policy_eng.Json.{Json, Items, Fields, str, arr, obj, nil, cons, field, end}
use stateful_abac_policy_eng.Manifest.{Manifest, RealmItem, AclItem}
use stateful_abac_policy_eng.Manifest.Tables.{KeycloakRow, Tables, no_counts}
use stateful_abac_policy_eng.Manifest.Bulk.{Statements}
use stateful_abac_policy_eng.Manifest.Rules.{apply_acls, counted}
use stateful_abac_policy_eng.Manifest.Apply.{
  replace, update, Sequences, applied, apply_manifest, new_tables,
}
use stateful_abac_policy_eng.Manifest.Export.{export_manifest, keycloak_item}
use stateful_abac_policy_eng.Manifest.Written.{added}
use stateful_abac_policy_eng.Manifest.Complete.{IsComplete, IsStarted}
use stateful_abac_policy_eng.Manifest.Imported.{with_places, ready}
use stateful_abac_policy_eng.Manifest.Outcome.{all_created}
use stateful_abac_policy_eng.Manifest.Named.{IsRule}
use stateful_abac_policy_eng.Manifest.RoundTrip.{apply_manifest-export_manifest}
use stateful_abac_policy_eng.Manifest.Sound.{IsSoundRealm}
use stateful_abac_policy_eng.Manifest.Kept.{IsSoundAfter, apply_manifest-IsSound}
use stateful_abac_policy_eng.Manifest.Twice.{apply_acls-again, apply_acls-unknown_external_id}

-- a trigger that takes all conditions, statements in whose texts a colon is read as that of a bind
-- parameter, and no geometries
abbrev compile : Option Json → Result (Option String)
compile c = ok none

abbrev has_colon : String → Bool
has_colon String.[] = false
has_colon (String.◌∷◌ c s) = code c == 58 || has_colon s

abbrev mutual
  value_has_colon : Json → Bool
  value_has_colon (str s) = has_colon s
  value_has_colon (arr js) = items_have_colon js
  value_has_colon (obj fs) = fields_have_colon fs
  value_has_colon _ = false

  items_have_colon : Items → Bool
  items_have_colon nil = false
  items_have_colon (cons j js) = value_has_colon j || items_have_colon js

  fields_have_colon : Fields → Bool
  fields_have_colon end = false
  fields_have_colon (field name j fs) = has_colon name || value_has_colon j || fields_have_colon fs

abbrev db : Statements
db = record {
  json = λ j. if value_has_colon j then err else ok j;
  text = λ s. if has_colon s then err else ok s;
  parse = λ g srid. none;
}

abbrev shape : String → Option Json
shape g = none

abbrev sync_realm : Tables → Bool × Tables
sync_realm t = (true, t)

abbrev keycloak : KeycloakRow
keycloak = record {
  server_url = "https://id.example";
  keycloak_realm = "main";
  client_id = "abac";
  client_secret = none;
  verify_ssl = true;
  sync_cron = none;
  sync_groups = false;
  public_key = none;
  algorithm = "RS256";
  settings = none;
}

abbrev acme : RealmItem
acme = record { name = "acme"; description = none; keycloak_config = some (keycloak_item keycloak) }

abbrev editors_may_read : AclItem
editors_may_read = record {
  resource_type = some "document";
  action = some "read";
  role = some "editor";
  principal = none;
  principal_id = none;
  resource_external_id = some "doc-1";
  conditions = some (obj (field "op" (str "=") end));
}

abbrev all_may_read : AclItem
all_may_read = record {
  resource_type = some "document";
  action = some "read";
  role = none;
  principal = some "anonymous";
  principal_id = none;
  resource_external_id = none;
  conditions = none;
}

abbrev small : Manifest
small = record {
  realm = some acme;
  resource_types = record { name = "document"; is_public = some false } ∷ [];
  actions = "read" ∷ "write" ∷ [];
  roles = record { name = "editor"; attributes = none } ∷ [];
  principals =
      record { username = "ann"; attributes = none; roles = some ("editor" ∷ []) }
      ∷ record { username = "bob"; attributes = none; roles = none }
      ∷ [];
  resources =
      record {
        type_name = some "document";
        external_id = some "doc-1";
        attributes = some (obj (field "level" (str "low") end));
        geometry = none;
        srid = none;
      }
      ∷ [];
  acls = editors_may_read ∷ all_may_read ∷ [];
}

abbrev sequences : Sequences
sequences = record {
  next_realm = 3;
  next_type = 4;
  next_action = 7;
  next_role = 2;
  next_principal = 5;
  next_resource = 9;
  next_acl = 1;
}

editors_may_read-IsRule :
    IsRule compile
      ("document" ∷ [])
      ("read" ∷ "write" ∷ [])
      ("editor" ∷ [])
      ("ann" ∷ "bob" ∷ [])
      ("doc-1" ∷ [])
      editors_may_read
editors_may_read-IsRule = record {
  type = "document";
  type_given = refl;
  type_known = refl;
  action = "read";
  action_given = refl;
  action_known = refl;
  role_known = refl;
  principal_known = tt;
  not_both = inr refl;
  no_id = refl;
  resource_known = refl;
  conditions_kept = refl;
  sql = none;
  compiles = refl;
}

all_may_read-IsRule :
    IsRule compile
      ("document" ∷ [])
      ("read" ∷ "write" ∷ [])
      ("editor" ∷ [])
      ("ann" ∷ "bob" ∷ [])
      ("doc-1" ∷ [])
      all_may_read
all_may_read-IsRule = record {
  type = "document";
  type_given = refl;
  type_known = refl;
  action = "read";
  action_given = refl;
  action_known = refl;
  role_known = tt;
  principal_known = refl;
  not_both = inl refl;
  no_id = refl;
  resource_known = tt;
  conditions_kept = refl;
  sql = none;
  compiles = refl;
}

small-IsComplete : IsComplete compile db shape small acme
small-IsComplete = record {
  realm_given = refl;
  keycloak = (some keycloak, refl);
  types_distinct = (refl, tt);
  types_public = ((false, refl), tt);
  actions_distinct = (refl, (refl, tt));
  roles_kept = (refl, tt);
  principals_distinct = (refl, (refl, tt));
  principals_known = (((refl, tt), (refl, tt), (tt, tt, tt)));
  principals_kept = ((refl, refl, (refl, refl, tt)));
  externals_distinct = (refl, tt);
  resources_grouped = refl;
  resources_kept = (
    record {
      type = "document";
      type_given = refl;
      type_known = refl;
      external = ("doc-1", refl, refl);
      no_srid = refl;
      attributes_kept = refl;
      geometry_kept = refl;
      attributes_sent = refl;
      geometry_sent = refl;
      external_id_sent = refl;
    },
    tt,
  );
  rules_kept = (editors_may_read-IsRule, (all_may_read-IsRule, tt));
}

sequences-IsStarted : IsStarted sequences
sequences-IsStarted = record {
  roles = omega arith;
  principals = omega arith;
  resources = omega arith;
}

-- the realm of the manifest's name that was there before
abbrev before : Tables
before = new_tables acme none sequences

apply_manifest-export_manifest_example :
    (t : Tables) × (apply_manifest compile db sync_realm replace small (some before) sequences
      ≡ applied (all_created true small (some (keycloak_item keycloak))) t)
    × (export_manifest shape t ≡ small)
apply_manifest-export_manifest_example =
    apply_manifest-export_manifest compile db shape sync_realm replace small acme (some before)
      sequences small-IsComplete sequences-IsStarted refl

-- the rows of the small manifest, without those of acl
abbrev small_rows : Tables
small_rows = with_places compile db shape sync_realm small acme (some keycloak) sequences

apply_acls-again_example :
    (u v : Tables) × (apply_acls compile small.acls small_rows ≡ (counted (added 2 no_counts), u))
    × (apply_acls compile small.acls u ≡ (counted (added 2 no_counts), v))
    × (length v.acls ≡ 4)
apply_acls-again_example =
    apply_acls-again compile ("doc-1" ∷ []) small_rows small.acls
      (ready compile db shape sync_realm small acme (some keycloak) sequences small-IsComplete
        sequences-IsStarted)
      (editors_may_read-IsRule, (all_may_read-IsRule, tt))

apply_acls-unknown_external_id_example :
    apply_acls compile
      (record editors_may_read { resource_external_id = some "doc-9" } ∷ all_may_read ∷ [])
      small_rows
    ≡ apply_acls compile
        (record editors_may_read { resource_external_id = none } ∷ all_may_read ∷ [])
        small_rows
apply_acls-unknown_external_id_example =
    apply_acls-unknown_external_id compile
      (record editors_may_read { resource_external_id = some "doc-9" }) (all_may_read ∷ []) "doc-9"
      small_rows refl refl

small_rows-IsSound : IsSoundRealm small_rows
small_rows-IsSound = record {
  types_apart = (refl, tt);
  types_below = (omega arith, tt);
  actions_apart = (refl, (refl, tt));
  principals_apart = (refl, (refl, tt));
}

apply_manifest-IsSound_example :
    IsSoundAfter (apply_manifest compile db sync_realm update small (some small_rows) sequences)
apply_manifest-IsSound_example =
    apply_manifest-IsSound compile db sync_realm (λ t v. v) update small (some small_rows) sequences
      small_rows-IsSound
