-- ===== src/Manifest/Outcome.antt =====
-- common/application/manifest_service.py, `apply_manifest`: the results where everything is new, and
-- manifests whose sections are equal.
use stateful_abac_policy_eng.Prelude.{
  String, Bool, Option, List, [], ◌∷◌, ◌≡◌, refl, ap, ap₂, ◌∙◌, map, length,
}
use stateful_abac_policy_eng.Manifest.{
  Manifest, RealmItem, TypeItem, RoleItem, KeycloakItem, PrincipalItem, ResourceItem, AclItem,
}
use stateful_abac_policy_eng.Manifest.Tables.{no_counts}
use stateful_abac_policy_eng.Manifest.Rules.{counted}
use stateful_abac_policy_eng.Manifest.Apply.{Results, created}
use stateful_abac_policy_eng.Manifest.Written.{added}
use stateful_abac_policy_eng.Manifest.Complete.{quiet}

pub map_same {ℓ} : {A : Type ℓ} (xs : List A) → map (λ x. x) xs ≡ xs
map_same [] = refl
map_same (x ∷ xs) = ap (λ rest. x ∷ rest) (map_same xs)

pub same_sections :
    (realm : Option RealmItem) (m : Manifest) {types : List TypeItem} {actions : List String}
    {roles : List RoleItem} {principals : List PrincipalItem} {resources : List ResourceItem}
    {acls : List AclItem}
    → types ≡ m.resource_types
    → actions ≡ m.actions
    → roles ≡ m.roles
    → principals ≡ m.principals
    → resources ≡ m.resources
    → acls ≡ m.acls
    → record {
      realm = realm;
      resource_types = types;
      actions = actions;
      roles = roles;
      principals = principals;
      resources = resources;
      acls = acls;
    }
      ≡ record m { realm = realm }
same_sections realm m {types} {actions} {roles} {principals} {resources} {acls} ty ac ro pr re gr =
    ap₂
      (λ a b. record m {
        realm = realm;
        resource_types = a;
        actions = b;
        roles = roles;
        principals = principals;
        resources = resources;
        acls = acls;
      })
      ty ac
    ∙ ap₂
        (λ a b. record m {
          realm = realm;
          roles = a;
          principals = b;
          resources = resources;
          acls = acls;
        })
        ro pr
    ∙ ap₂ (λ a b. record m { realm = realm; resources = a; acls = b }) re gr

-- the results where everything is new
abbrev pub all_created : Bool → Manifest → Option KeycloakItem → Results
all_created gone m k = record {
  realm_deleted = gone;
  realm = created;
  resource_types = added (length m.resource_types) no_counts;
  actions = added (length m.actions) no_counts;
  roles = added (length m.roles) no_counts;
  principals = added (length m.principals) no_counts;
  keycloak_sync = quiet k;
  resources = added (length m.resources) no_counts;
  acls = counted (added (length m.acls) no_counts);
}
