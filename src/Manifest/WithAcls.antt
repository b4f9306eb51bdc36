-- ===== src/Manifest/WithAcls.antt =====
-- common/application/manifest_service.py: what an import and an export read does not depend on the rows
-- of acl.
use stateful_abac_policy_eng.Prelude.{
  ℕ, String, Option, none, some, List, [], ◌∷◌, ◌≡◌, refl, ap, ap₂, ◌∙◌, map, if◌then◌else◌,
  is_none,
}
use stateful_abac_policy_eng.Policy.{Acl}
use stateful_abac_policy_eng.Manifest.{AclItem}
use stateful_abac_policy_eng.Manifest.Tables.{Tables}
use stateful_abac_policy_eng.Manifest.Rules.{principal_of, resource_for, key_of_item}
use stateful_abac_policy_eng.Manifest.Export.{
  export_acl, export_role_of, export_principal_of, external_of, if_id,
}

abbrev pub with_acls : Tables → List Acl → ℕ → Tables
with_acls t rows n = record t { acls = rows; next_acl = n }

-- What a rule stands for does not depend on the rows of acl.
principal_of-with_acls :
    (name : Option String) (id : Option ℕ) (t : Tables) (rows : List Acl) (n : ℕ)
    → principal_of name id (with_acls t rows n) ≡ principal_of name id t
principal_of-with_acls none id t rows n = refl
principal_of-with_acls (some name) id t rows n = refl

resource_for-with_acls :
    (e : Option String) (t : Tables) (rows : List Acl) (n : ℕ)
    → resource_for e (with_acls t rows n) ≡ resource_for e t
resource_for-with_acls none t rows n = refl
resource_for-with_acls (some e) t rows n = refl

pub key_of_item-with_acls :
    (item : AclItem) (type_id action_id : ℕ) (t : Tables) (rows : List Acl) (n : ℕ)
    → key_of_item item type_id action_id (with_acls t rows n) ≡ key_of_item item type_id action_id t
key_of_item-with_acls item type_id action_id t rows n =
    ap₂ (λ p r. record (key_of_item item type_id action_id t) { principal_id = p; resource_id = r })
      (principal_of-with_acls item.principal item.principal_id t rows n)
      (resource_for-with_acls item.resource_external_id t rows n)

-- What an export says of a row of acl does not depend on the other rows.
export_role_of-with_acls :
    (id : Option ℕ) (t : Tables) (rows : List Acl) (n : ℕ)
    → export_role_of (with_acls t rows n) id ≡ export_role_of t id
export_role_of-with_acls none t rows n = refl
export_role_of-with_acls (some id) t rows n = refl

export_principal_of-with_acls :
    (id : Option ℕ) (t : Tables) (rows : List Acl) (n : ℕ)
    → export_principal_of (with_acls t rows n) id ≡ export_principal_of t id
export_principal_of-with_acls none t rows n = refl
export_principal_of-with_acls (some id) t rows n = refl

external_of-with_acls :
    (id : Option ℕ) (t : Tables) (rows : List Acl) (n : ℕ)
    → external_of (with_acls t rows n) id ≡ external_of t id
external_of-with_acls none t rows n = refl
external_of-with_acls (some id) t rows n = refl

pub map-export_acl :
    (t : Tables) (rows : List Acl) (n : ℕ) (news : List Acl)
    → map (export_acl (with_acls t rows n)) news ≡ map (export_acl t) news
map-export_acl t rows n [] = refl
map-export_acl t rows n (a ∷ news) =
    ap₂ ◌∷◌
      (ap₂
          (λ r p. record (export_acl t a) {
            role = r;
            principal = if is_none (if_id a.role_id) then p else none;
            resource_external_id = external_of (with_acls t rows n) (if_id a.resource_id);
          })
          (export_role_of-with_acls (if_id a.role_id) t rows n)
          (export_principal_of-with_acls a.principal_id t rows n)
        ∙ ap (λ e. record (export_acl t a) { resource_external_id = e })
            (external_of-with_acls (if_id a.resource_id) t rows n))
      (map-export_acl t rows n news)
