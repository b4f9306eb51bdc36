-- ===== src/Manifest/Imported.antt =====
-- common/application/manifest_service.py, `apply_manifest`: the sections of a new realm.
use stateful_abac_policy_eng.Prelude.{
  Every, ℕ, suc, ◌+◌, String, Bool, Option, none, some, List, [], ◌∷◌, ◌≡◌, refl, sym, ap, ap₂, ◌∙◌,
  map, length, Result, ok,
}
use mathlib.Core.Path.{subst}
use stateful_abac_policy_eng.Json.{Json}
use stateful_abac_policy_eng.Policy.{Acl}
use stateful_abac_policy_eng.Manifest.{Manifest, RealmItem, TypeItem, RoleItem}
use stateful_abac_policy_eng.Manifest.Tables.{KeycloakRow, Tables, done, no_counts}
use stateful_abac_policy_eng.Manifest.Sections.{
  or_false, apply_types, apply_actions, apply_roles, apply_principals,
}
use stateful_abac_policy_eng.Manifest.Bulk.{Statements, apply_resources}
use stateful_abac_policy_eng.Manifest.Rules.{apply_acls}
use stateful_abac_policy_eng.Manifest.Apply.{
  Sequences, created, apply_sections, new_tables, sync, has_secret,
}
use stateful_abac_policy_eng.Manifest.Export.{
  export_keycloak, export_type, export_role, export_acl, export_manifest, export_principal,
  export_resource,
}
use stateful_abac_policy_eng.Manifest.Lookup.{
  IsUnique, AreDistinct-new, rows_from, map-rows_from, rows_from-IsUnique, rows_from-apart,
}
use stateful_abac_policy_eng.Manifest.Written.{
  added, type_row, with_types, apply_types-new, action_row, with_actions, apply_actions-new,
  role_row, with_roles, apply_roles-new,
}
use stateful_abac_policy_eng.Manifest.Members.{
  principal_row, assigned, with_principals, AreMembers, apply_principals-new,
}
use stateful_abac_policy_eng.Manifest.Assigned.{IsKept, export-principals}
use stateful_abac_policy_eng.Manifest.Placed.{external_ids_of, placed}
use stateful_abac_policy_eng.Manifest.Grouped.{type_of, apply_resources-new}
use stateful_abac_policy_eng.Manifest.Found.{
  IsResource, IsResource-HasType, IsResource-HasExternalId, IsResource-IsSent, export-resources,
  external_id_again,
}
use stateful_abac_policy_eng.Manifest.Named.{IsRule, IsReady}
use stateful_abac_policy_eng.Manifest.Granted.{apply_rules-new}
use stateful_abac_policy_eng.Manifest.WithAcls.{with_acls, map-export_acl}
use stateful_abac_policy_eng.Manifest.Complete.{
  type_names, role_names, usernames, IsComplete, IsStarted, quiet,
}
use stateful_abac_policy_eng.Manifest.Outcome.{all_created, same_sections, map_same}
use stateful_abac_policy_eng.Manifest.WithAcls.{with_acls, map-export_acl}
use stateful_abac_policy_eng.Manifest.Named.{IsRule-names}

-- ---- the sections of a new realm
module _ (compile : Option Json → Result (Option String)) (db : Statements)
    (shape : String → Option Json) (sync_realm : Tables → Bool × Tables) where
  sync-quiet :
      (row : Option KeycloakRow) (t : Tables)
      → sync compile db sync_realm (has_secret (export_keycloak row)) t
        ≡ (quiet (export_keycloak row), t)
  sync-quiet none t = refl
  sync-quiet (some row) t = refl

  module _ (m : Manifest) (item : RealmItem) (row : Option KeycloakRow) (s : Sequences) where
    -- the rows after the types, the actions, the roles, the principals and the resources
    abbrev pub typed : Tables
    typed =
        with_types (new_tables item row s)
          (rows_from (type_row s.next_realm) s.next_type m.resource_types)
          (s.next_type + length m.resource_types)

    abbrev pub acted : Tables
    acted =
        with_actions typed (rows_from (action_row s.next_realm) s.next_action m.actions)
          (s.next_action + length m.actions)

    abbrev pub with_all_roles : Tables
    with_all_roles =
        with_roles acted (rows_from (role_row s.next_realm) s.next_role m.roles)
          (s.next_role + length m.roles)

    abbrev pub with_members : Tables
    with_members =
        with_principals with_all_roles
          (rows_from (principal_row s.next_realm) s.next_principal m.principals)
          (assigned with_all_roles.roles s.next_principal m.principals)
          (s.next_principal + length m.principals)

    abbrev pub with_places : Tables
    with_places =
        placed db with_members (type_of with_members.types) m.resources [] [] s.next_resource

    module _ (c : IsComplete compile db shape m item) (started : IsStarted s) where
      types-written :
          apply_types m.resource_types no_counts (new_tables item row s)
          ≡ (added (length m.resource_types) no_counts, typed)
      types-written =
          apply_types-new m.resource_types no_counts (new_tables item row s) [] s.next_type
            (AreDistinct-new (type_names m) c.types_distinct)

      actions-written :
          apply_actions m.actions no_counts typed ≡ (added (length m.actions) no_counts, acted)
      actions-written =
          apply_actions-new m.actions no_counts typed [] s.next_action
            (AreDistinct-new m.actions c.actions_distinct)

      roles-written : apply_roles m.roles acted ≡ (added (length m.roles) no_counts, with_all_roles)
      roles-written = apply_roles-new m.roles acted s.next_role

      role_names-written : map (λ r. r.name) with_all_roles.roles ≡ role_names m
      role_names-written =
          map-rows_from (λ r. r.name) (λ i. i.name) (role_row s.next_realm) (λ n i. refl)
            s.next_role m.roles

      roles-IsUnique : IsUnique (λ r. r.id) with_all_roles.roles
      roles-IsUnique =
          rows_from-IsUnique (λ r. r.id) (role_row s.next_realm) (λ n i. refl) s.next_role m.roles

      members_known : AreMembers (map (λ r. r.name) with_all_roles.roles) m.principals
      members_known =
          subst (λ ns. AreMembers ns m.principals) (sym role_names-written) c.principals_known

      principals-written :
          apply_principals m.principals no_counts with_all_roles
          ≡ ok (added (length m.principals) no_counts, with_members)
      principals-written =
          apply_principals-new m.principals no_counts with_all_roles [] [] s.next_principal
            roles-IsUnique members_known (AreDistinct-new (usernames m) c.principals_distinct)

      type_names-written : map (λ rt. rt.name) with_members.types ≡ type_names m
      type_names-written =
          map-rows_from (λ rt. rt.name) (λ i. i.name) (type_row s.next_realm) (λ n i. refl)
            s.next_type m.resource_types

      resources_known :
          Every (IsResource db shape (map (λ rt. rt.name) with_members.types)) m.resources
      resources_known =
          subst (λ ns. Every (IsResource db shape ns) m.resources) (sym type_names-written)
            c.resources_kept

      resources-written :
          apply_resources db m.resources with_members
          ≡ done (added (length m.resources) no_counts) with_places
      resources-written =
          apply_resources-new db with_members m.resources s.next_resource c.resources_grouped
            (IsResource-HasType db shape with_members.types m.resources resources_known)
            (IsResource-HasExternalId db shape (type_names m) m.resources c.resources_kept)
            (IsResource-IsSent db shape (type_names m) m.resources c.resources_kept)
            (AreDistinct-new (external_ids_of m.resources) c.externals_distinct)

      action_names-written : map (λ a. a.name) with_places.actions ≡ m.actions
      action_names-written =
          map-rows_from (λ a. a.name) (λ n. n) (action_row s.next_realm) (λ n i. refl) s.next_action
            m.actions
          ∙ map_same m.actions

      usernames-written : map (λ p. p.username) with_places.principals ≡ usernames m
      usernames-written =
          map-rows_from (λ p. p.username) (λ i. i.username) (principal_row s.next_realm)
            (λ n i. refl) s.next_principal m.principals

      pub ready : IsReady (external_ids_of m.resources) with_places
      ready = record {
        types =
            rows_from-IsUnique (λ x. x.id) (type_row s.next_realm) (λ n i. refl) s.next_type
              m.resource_types;
        actions =
            rows_from-IsUnique (λ x. x.id) (action_row s.next_realm) (λ n i. refl) s.next_action
              m.actions;
        roles = roles-IsUnique;
        some_role =
            rows_from-apart (λ x. x.id) (role_row s.next_realm) (λ n i. refl) 0 s.next_role m.roles
              started.roles;
        principals =
            rows_from-IsUnique (λ x. x.id) (principal_row s.next_realm) (λ n i. refl)
              s.next_principal m.principals;
        some_principal =
            rows_from-apart (λ x. x.id) (principal_row s.next_realm) (λ n i. refl) 0
              s.next_principal m.principals started.principals;
        resources =
            external_id_again db shape with_places (type_of with_members.types) s.next_resource
              m.resources refl refl started.resources;
      }

      rules_known :
          Every
            (IsRule compile
              (map (λ rt. rt.name) with_places.types)
              (map (λ a. a.name) with_places.actions)
              (map (λ r. r.name) with_places.roles)
              (map (λ p. p.username) with_places.principals)
              (external_ids_of m.resources))
            m.acls
      rules_known =
          IsRule-names compile (external_ids_of m.resources) m.acls (sym type_names-written)
            (sym action_names-written) (sym role_names-written) (sym usernames-written) c.rules_kept

      -- the principals and the resources, whatever the rows of acl
      principals-read :
          (rows : List Acl) (n : ℕ)
          → map (export_principal (with_acls with_places rows n)) with_places.principals
            ≡ m.principals
      principals-read rows n =
          export-principals (with_acls with_places rows n) roles-IsUnique m.principals []
            s.next_principal refl (λ k above. refl) members_known c.principals_kept

      resources-read :
          (rows : List Acl) (n : ℕ)
          → map (export_resource shape (with_acls with_places rows n)) with_places.resources
            ≡ m.resources
      resources-read rows n =
          export-resources db shape (with_acls with_places rows n) ready.types m.resources []
            s.next_resource refl (λ k above. refl) resources_known

      types-read :
          (n : ℕ) (items : List TypeItem)
          → Every (λ i. (b : Bool) × (i.is_public ≡ some b)) items
          → map export_type (rows_from (type_row s.next_realm) n items) ≡ items
      types-read n [] all = refl
      types-read n (i ∷ items) ((b, public), all) =
          ap₂ ◌∷◌
            (ap (λ o. record i { is_public = some (or_false o) }) public
              ∙ ap (λ o. record i { is_public = o }) (sym public))
            (types-read (suc n) items all)

      roles-read :
          (n : ℕ) (items : List RoleItem)
          → Every (λ i. IsKept i.attributes) items
          → map export_role (rows_from (role_row s.next_realm) n items) ≡ items
      roles-read n [] all = refl
      roles-read n (i ∷ items) (kept, all) =
          ap₂ ◌∷◌ (ap (λ o. record i { attributes = o }) kept) (roles-read (suc n) items all)

      -- What an export of all the rows says, but for the realm.
      pub sections-read :
          (news : List Acl) (n : ℕ) (realm : Option RealmItem)
          → map (export_acl with_places) news ≡ m.acls
          → record (export_manifest shape (with_acls with_places news n)) { realm = realm }
            ≡ record m { realm = realm }
      unfolding export_manifest
      sections-read news n realm read =
          same_sections realm m (types-read s.next_type m.resource_types c.types_public)
            action_names-written (roles-read s.next_role m.roles c.roles_kept)
            (principals-read news n) (resources-read news n)
            (map-export_acl with_places news n news ∙ read)

      -- the sections together
      pub sections-written :
          (gone : Bool)
          → export_keycloak row ≡ item.keycloak_config
          → (news : List Acl) × (apply_sections compile db sync_realm m item gone created
                (new_tables item row s)
              ≡ done
                  (all_created gone m item.keycloak_config)
                  (with_acls with_places news (s.next_acl + length m.acls)))
            × (map (export_acl with_places) news ≡ m.acls)
      unfolding apply_sections apply_acls
      sections-written gone kept =
          let (news, written, read) =
            apply_rules-new compile with_places (external_ids_of m.resources) ready m.acls no_counts
              [] s.next_acl rules_known in
          let quietly : sync compile db sync_realm (has_secret item.keycloak_config) with_members
              ≡ (quiet item.keycloak_config, with_members) =
            subst
              (λ k.
                sync compile db sync_realm (has_secret k) with_members ≡ (quiet k, with_members))
              kept (sync-quiet row with_members) in
          (
            news,
            rw
                (
                  types-written, actions-written, roles-written, principals-written, quietly,
                  resources-written, written,
                )
                refl,
            read,
          )
