-- ===== src/Manifest/RoundTrip.antt =====
-- common/application/manifest_service.py: `apply_manifest` of a new realm, and `export_manifest` of what
-- it left.
use stateful_abac_policy_eng.Prelude.{
  ℕ, ◌+◌, String, Bool, Option, none, some, List, ◌≡◌, refl, sym, ap, ◌∙◌, map, length, Result, ok,
}
use stateful_abac_policy_eng.Json.{Json}
use stateful_abac_policy_eng.Policy.{Acl}
use stateful_abac_policy_eng.Manifest.{Manifest, RealmItem, KeycloakItem}
use stateful_abac_policy_eng.Manifest.Bulk.{Statements}
use stateful_abac_policy_eng.Manifest.Tables.{KeycloakRow, Tables}
use stateful_abac_policy_eng.Manifest.Apply.{
  Mode, Sequences, created, applied, apply_realm, apply_manifest, with_realm, after_realm, deleted,
  new_tables, next_keycloak, as_applied,
}
use stateful_abac_policy_eng.Manifest.Export.{export_keycloak, export_acl, export_manifest}
use stateful_abac_policy_eng.Manifest.WithAcls.{with_acls}
use stateful_abac_policy_eng.Manifest.Complete.{IsComplete, IsStarted, keycloak_again}
use stateful_abac_policy_eng.Manifest.Imported.{with_places, sections-read, sections-written}
use stateful_abac_policy_eng.Manifest.Outcome.{all_created}

module _ (compile : Option Json → Result (Option String)) (db : Statements)
    (shape : String → Option Json) (sync_realm : Tables → Bool × Tables) where
  apply_realm-new :
      (mode : Mode) (item : RealmItem) (s : Sequences) (row : Option KeycloakRow)
      → next_keycloak item.keycloak_config none ≡ ok row
      → apply_realm mode item none s ≡ ok (created, new_tables item row s)
  unfolding apply_realm
  apply_realm-new mode item s row h = rw h refl

  manifest-read :
      (m : Manifest) (item : RealmItem) (s : Sequences) (row : Option KeycloakRow) (news : List Acl)
      (n : ℕ)
      → IsComplete compile db shape m item
      → IsStarted s
      → export_keycloak row ≡ item.keycloak_config
      → map (export_acl (with_places compile db shape sync_realm m item row s)) news ≡ m.acls
      → export_manifest shape
          (with_acls (with_places compile db shape sync_realm m item row s) news n)
        ≡ m
  unfolding export_manifest
  manifest-read m item s row news n c started kept read =
      let w = with_acls (with_places compile db shape sync_realm m item row s) news n in
      let out : Option KeycloakItem → Manifest = λ k. record (export_manifest shape w) {
        realm = some (record item { keycloak_config = k });
      } in
      ap out kept
      ∙ sections-read compile db shape sync_realm m item row s c started news n (some item) read
      ∙ ap (λ r. record m { realm = r }) (sym c.realm_given)

  -- Of a manifest of which the names of types, of actions and of principals, and the external ids of
  -- the resources, are each distinct; whose principals, resources and rules name only roles, types, actions,
  -- principals (or "anonymous") and external ids that it has, a principal no role twice, a rule not both
  -- a role and a principal; whose resources have external ids and stand in the order of their types;
  -- whose conditions the trigger compiles and whose geometries are written as they were read;
  -- whose attributes, geometries and external ids come back from the texts of the bulk statements as
  -- they are, so that `text()` reads no colon in them as that of a bind parameter; and
  -- which has the keys that an export writes, and no empty ones. Where there is no realm of its name, or
  -- the mode deletes it, and no id that is given out is 0: `apply_manifest` returns and counts every
  -- item as created, without a synchronisation with Keycloak, and `export_manifest` afterwards
  -- gives the manifest back.
  pub apply_manifest-export_manifest :
      (mode : Mode) (m : Manifest) (item : RealmItem) (found : Option Tables) (s : Sequences)
      → IsComplete compile db shape m item
      → IsStarted s
      → (deleted mode found).1 ≡ none
      → (t : Tables) × (apply_manifest compile db sync_realm mode m found s
          ≡ applied (all_created (deleted mode found).0 m item.keycloak_config) t)
        × (export_manifest shape t ≡ m)
  unfolding apply_manifest with_realm after_realm
  apply_manifest-export_manifest mode m item found s c started gone =
      let (before, exported) = c.keycloak in
      let (row, taken, same) = keycloak_again before in
      let kept : export_keycloak row ≡ item.keycloak_config = same ∙ exported in
      let realm : apply_realm mode item (deleted mode found).1 s
          ≡ ok (created, new_tables item row s) =
        ap (λ o. apply_realm mode item o s) gone
        ∙ apply_realm-new mode item s row (ap (λ k. next_keycloak k none) (sym exported) ∙ taken) in
      let (news, written, read) =
        sections-written compile db shape sync_realm m item row s c started (deleted mode found).0
          kept in
      let w = with_places compile db shape sync_realm m item row s in
      let n = s.next_acl + length m.acls in
      (
        with_acls w news n,
        ap (with_realm compile db sync_realm mode m found s) c.realm_given
            ∙ ap
                (after_realm compile db sync_realm m item (deleted mode found).0
                  (deleted mode found).1)
                realm
            ∙ ap (as_applied compile db sync_realm) written,
        manifest-read m item s row news n c started kept read,
      )
