-- ===== src/Manifest/Named.antt =====
-- common/application/manifest_service.py, `apply_manifest` and `export_manifest`: the names in the rules
-- of a manifest, and the ids that they are looked up as.
use stateful_abac_policy_eng.Prelude.{
  Every, ℕ, String, true, false, ◌||◌, Option, none, some, List, ◌≡◌, refl, sym, ap, ◌∙◌, ◌⊎◌, inl,
  inr, ◌==◌, eq_text, eq_iff, map, any, arith, mem_text, if◌then◌else◌, Bool-cases, is_none, Result,
  ok,
}
use mathlib.Core.Path.{subst, ap₂}
use stateful_abac_policy_eng.Json.{Json}
use stateful_abac_policy_eng.Services.Acls.Rows.{column_of}
use stateful_abac_policy_eng.Manifest.{AclItem}
use stateful_abac_policy_eng.Manifest.Tables.{Tables, last_named}
use stateful_abac_policy_eng.Manifest.Bulk.{known_resource}
use stateful_abac_policy_eng.Manifest.Rules.{
  id_of_role, id_of_principal, id_of_type, id_of_action, principal_of, resource_for, conditions_of,
  type_id_of, action_id_of,
}
use stateful_abac_policy_eng.Manifest.Export.{
  export_role_of, export_principal_of, external_of, if_id, if_some, type_name, action_name,
  username_of,
}
use stateful_abac_policy_eng.Manifest.Lookup.{IsUnique, name_again, found_not}

-- A text that may be missing is one of the names.
abbrev pub IsNamed : List String → Option String → Type 0
IsNamed names none = Unit
IsNamed names (some n) = mem_text n names ≡ true

-- The name of a principal is "anonymous" or one of the names.
abbrev pub IsSubject : List String → Option String → Type 0
IsSubject names none = Unit
IsSubject names (some n) = (eq_text n "anonymous" || mem_text n names) ≡ true

-- What an import and an export keep of a rule: names of what is there, a role or a principal or none
-- of them, and conditions that compile and are not empty.
pub record IsRule (compile : Option Json → Result (Option String))
    (types actions roles principals externals : List String) (item : AclItem) : Type 0 where
  pub type : String
  pub type_given : item.resource_type ≡ some type
  pub type_known : mem_text type types ≡ true
  pub action : String
  pub action_given : item.action ≡ some action
  pub action_known : mem_text action actions ≡ true
  pub role_known : IsNamed roles item.role
  pub principal_known : IsSubject principals item.principal
  pub not_both : (item.role ≡ none) ⊎ (item.principal ≡ none)
  pub no_id : item.principal_id ≡ none
  pub resource_known : IsNamed externals item.resource_external_id
  pub conditions_kept : if_some (column_of (conditions_of item.conditions)) ≡ item.conditions
  pub sql : Option String
  pub compiles : compile (column_of (conditions_of item.conditions)) ≡ ok sql

-- The rows under the rules: no id is repeated, no role and no principal has the id 0, and the ids
-- of the external ids lead back to them.
pub record IsReady (externals : List String) (t : Tables) : Type 0 where
  pub types : IsUnique (λ rt. rt.id) t.types
  pub actions : IsUnique (λ a. a.id) t.actions
  pub roles : IsUnique (λ r. r.id) t.roles
  pub some_role : any (λ r. r.id == 0) t.roles ≡ false
  pub principals : IsUnique (λ p. p.id) t.principals
  pub some_principal : any (λ p. p.id == 0) t.principals ≡ false
  pub resources :
      (e : String)
      → mem_text e externals ≡ true
      → (k : ℕ) × (known_resource none e t ≡ some k) × (external_of t (if_id (some k)) ≡ some e)

module _ (externals : List String) (t : Tables) (ready : IsReady externals t) where
  pub type_again :
      (n : String)
      → mem_text n (map (λ rt. rt.name) t.types) ≡ true
      → (k : ℕ) × (type_id_of (some n) t ≡ some k) × (type_name t.types k ≡ n)
  type_again n known =
      let (rt, found, same) = name_again (λ x. x.id) (λ x. x.name) n t.types ready.types known in
      (rt.id, ap id_of_type found, same)

  pub action_again :
      (n : String)
      → mem_text n (map (λ a. a.name) t.actions) ≡ true
      → (k : ℕ) × (action_id_of (some n) t ≡ some k) × (action_name t.actions k ≡ n)
  action_again n known =
      let (a, found, same) = name_again (λ x. x.id) (λ x. x.name) n t.actions ready.actions known in
      (a.id, ap id_of_action found, same)

  pub role_again :
      (role : Option String)
      → IsNamed (map (λ r. r.name) t.roles) role
      → (is_none (if_id (id_of_role (last_named (λ r. r.name) role t.roles))) ≡ is_none role)
        × (export_role_of t (if_id (id_of_role (last_named (λ r. r.name) role t.roles))) ≡ role)
  role_again none known = (refl, refl)
  role_again (some n) known =
      let (r, found, same) = name_again (λ x. x.id) (λ x. x.name) n t.roles ready.roles known in
      let id : if_id (id_of_role (last_named (λ x. x.name) (some n) t.roles)) ≡ some r.id =
        ap (λ o. if_id (id_of_role o)) found
        ∙ ap (λ b. if b then none else some r.id)
            (found_not (λ x. x.id == 0) (λ x. eq_text x.name n) t.roles r ready.some_role found) in
      (ap is_none id, ap (export_role_of t) id ∙ ap some same)

  pub principal_again :
      (name : Option String)
      → IsSubject (map (λ p. p.username) t.principals) name
      → export_principal_of t (principal_of name none t) ≡ name
  principal_again none known = refl
  principal_again (some n) known = elim (Bool-cases (eq_text n "anonymous")) [
    | inl anonymous ↦ rw anonymous (ap some (sym ((eq_iff n "anonymous").0 anonymous)))
    | inr off ↦
        let (p, found, same) =
          name_again (λ x. x.id) (λ x. x.username) n t.principals ready.principals
            (ground (arith, known, off)) in
        ap
          (λ b. export_principal_of t (
            if b
            then some 0
            else id_of_principal (last_named (λ x. x.username) (some n) t.principals)))
          off
        ∙ ap (λ o. export_principal_of t (id_of_principal o)) found
        ∙ ap (λ b. if b then some "anonymous" else some (username_of t.principals p.id))
            (found_not (λ x. x.id == 0) (λ x. eq_text x.username n) t.principals p
              ready.some_principal found)
        ∙ ap some same
  ]

  pub resource_again :
      (e : Option String) → IsNamed externals e → external_of t (if_id (resource_for e t)) ≡ e
  resource_again none known = refl
  resource_again (some e) known =
      let (k, found, same) = ready.resources e known in
      ap (λ o. external_of t (if_id o)) found ∙ same

-- A rule stays one where the names are equal.
pub IsRule-names :
    (compile : Option Json → Result (Option String)) (externals : List String)
    (items : List AclItem) {ty ty_too ac ac_too ro ro_too pr pr_too : List String}
    → ty ≡ ty_too
    → ac ≡ ac_too
    → ro ≡ ro_too
    → pr ≡ pr_too
    → Every (IsRule compile ty ac ro pr externals) items
    → Every (IsRule compile ty_too ac_too ro_too pr_too externals) items
IsRule-names compile externals items {ty} {ty_too} {ac} {ac_too} {ro} {ro_too} {pr} {pr_too} e f g h
      rules =
    subst
      (λ (pair : List String × List String).
        Every (IsRule compile ty_too ac_too pair.0 pair.1 externals) items)
      (ap₂ (λ a b. (a, b)) g h)
      (subst
        (λ (pair : List String × List String).
          Every (IsRule compile pair.0 pair.1 ro pr externals) items)
        (ap₂ (λ a b. (a, b)) e f) rules)
