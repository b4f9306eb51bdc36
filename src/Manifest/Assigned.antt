-- ===== src/Manifest/Assigned.antt =====
-- common/application/manifest_service.py, `export_manifest`: the roles of the principals that an import
-- wrote.
use stateful_abac_policy_eng.Prelude.{
  ℕ, suc, ◌<◌, ◌≤◌, false, Option, List, [], ◌∷◌, ◌++◌, ◌≡◌, refl, sym, ap, ap₂, ◌∙◌, ◌==◌, map,
  arith, Bool-cases, inl, inr, ==_self,
}
use mathlib.Core.List.{append-nil}
use stateful_abac_policy_eng.Json.{Json}
use stateful_abac_policy_eng.Auth.Roles.{PrincipalRoles, stored_roles}
use stateful_abac_policy_eng.Manifest.{PrincipalItem}
use stateful_abac_policy_eng.Manifest.Tables.{RoleRow, Tables}
use stateful_abac_policy_eng.Manifest.Sections.{role_ids, given_names, assignments, or_null}
use stateful_abac_policy_eng.Manifest.Export.{
  role_name, names_of_roles, export_principal, if_names, if_truthy,
}
use stateful_abac_policy_eng.Manifest.Lookup.{AreKnown, IsUnique, rows_from}
use stateful_abac_policy_eng.Manifest.Members.{
  principal_row, assigned, AreMembers, append_assoc, role_name-role_ids,
}

-- ---- the roles that are read for a principal
stored_roles-append :
    (xs ys : List PrincipalRoles) (id : ℕ)
    → stored_roles (xs ++ ys) id ≡ stored_roles xs id ++ stored_roles ys id
stored_roles-append [] ys id = refl
stored_roles-append (x ∷ xs) ys id = elim (Bool-cases (x.principal_id == id)) [
  | inl own ↦ rw (own, stored_roles-append xs ys id) refl
  | inr other ↦ rw (other, stored_roles-append xs ys id) refl
]

stored_roles-own : (id : ℕ) (ids : List ℕ) → stored_roles (assignments id ids) id ≡ ids
stored_roles-own id [] = refl
stored_roles-own id (r ∷ ids) = rw (==_self id, stored_roles-own id ids) refl

stored_roles-other :
    (n id : ℕ) (ids : List ℕ) → (n == id) ≡ false → stored_roles (assignments n ids) id ≡ []
stored_roles-other n id [] h = refl
stored_roles-other n id (r ∷ ids) h = rw (h, stored_roles-other n id ids h) refl

stored_roles-later :
    (roles : List RoleRow) (items : List PrincipalItem) (n id : ℕ)
    → id < n
    → stored_roles (assigned roles n items) id ≡ []
stored_roles-later roles [] n id below = refl
stored_roles-later roles (item ∷ items) n id below =
    let ids = role_ids roles (given_names item.roles) in
    stored_roles-append (assignments n ids) (assigned roles (suc n) items) id
    ∙ rw
        (
          stored_roles-other n id ids (ground (arith, below)),
          stored_roles-later roles items (suc n) id (omega (arith, below)),
        )
        refl

-- ---- the principals that an export writes, and reads back
-- None, or a value that an export keeps.
abbrev pub IsKept : Option Json → Type 0
IsKept attributes = if_truthy (or_null attributes) ≡ attributes

-- Every principal has its attributes and the list of its roles only where they say something.
abbrev pub AreWritten : List PrincipalItem → Type 0
AreWritten [] = Unit
AreWritten (item ∷ items) =
    IsKept item.attributes × (if_names (given_names item.roles) ≡ item.roles) × AreWritten items

module _ (t : Tables) (unique : IsUnique (λ r. r.id) t.roles) where
  own_names :
      (before : List PrincipalRoles) (n : ℕ) (item : PrincipalItem) (items : List PrincipalItem)
      → t.principal_roles ≡ before ++ assigned t.roles n (item ∷ items)
      → stored_roles before n ≡ []
      → AreKnown (map (λ r. r.name) t.roles) (given_names item.roles)
      → names_of_roles t n ≡ given_names item.roles
  own_names before n item items at free known =
      let ids = role_ids t.roles (given_names item.roles) in
      let here : stored_roles t.principal_roles n ≡ ids =
        ap (λ ms. stored_roles ms n) at
        ∙ stored_roles-append before (assigned t.roles n (item ∷ items)) n
        ∙ rw (free, stored_roles-append (assignments n ids) (assigned t.roles (suc n) items) n)
            (rw (stored_roles-own n ids, stored_roles-later t.roles items (suc n) n (omega arith))
              (append-nil ids)) in
      ap (map (role_name t.roles)) here
      ∙ role_name-role_ids t.roles unique (given_names item.roles) known

  pub export-principals :
      (items : List PrincipalItem) (before : List PrincipalRoles) (n : ℕ)
      → t.principal_roles ≡ before ++ assigned t.roles n items
      → ((m : ℕ) → n ≤ m → stored_roles before m ≡ [])
      → AreMembers (map (λ r. r.name) t.roles) items
      → AreWritten items
      → map (export_principal t) (rows_from (principal_row t.id) n items) ≡ items
  export-principals [] before n at free known kept = refl
  export-principals (item ∷ items) before n at free (once, here, known) (attributes, names, kept) =
      let ids = role_ids t.roles (given_names item.roles) in
      let roles : if_names (names_of_roles t n) ≡ item.roles =
        ap if_names (own_names before n item items at (free n (omega arith)) here) ∙ names in
      let first : export_principal t (principal_row t.id n item) ≡ item =
        ap₂ (λ a r. record item { attributes = a; roles = r }) attributes roles in
      ap₂ ◌∷◌ first (
        export-principals items (before ++ assignments n ids) (suc n)
          (at ∙ sym (append_assoc before (assignments n ids) (assigned t.roles (suc n) items)))
          (λ m above.
            stored_roles-append before (assignments n ids) m
            ∙ rw (free m (omega (arith, above)), stored_roles-other n m ids (ground (arith, above)))
                refl)
          known kept)
