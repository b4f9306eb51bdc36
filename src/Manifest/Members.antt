-- ===== src/Manifest/Members.antt =====
-- common/application/manifest_service.py, `apply_manifest` and `export_manifest`: principals and the names
-- of their roles.
use stateful_abac_policy_eng.Prelude.{
  ℕ, suc, ◌+◌, String, true, false, ◌||◌, some, List, [], ◌∷◌, ◌++◌, ◌≡◌, refl, sym, ap, ap₂, ◌∙◌,
  ◌==◌, eq_iff, map, length, arith, mem_text, mem_id, ok, Bool-cases, inl, inr, true_false, ==_iff,
}
use mathlib.Core.List.{append-nil}
use stateful_abac_policy_eng.Auth.Roles.{PrincipalRoles}
use stateful_abac_policy_eng.Services.PrincipalCache.{PrincipalRow}
use stateful_abac_policy_eng.Manifest.{PrincipalItem}
use stateful_abac_policy_eng.Manifest.Tables.{RoleRow, Tables, Counts, last_named}
use stateful_abac_policy_eng.Manifest.Sections.{
  role_id, role_ids, given_names, assignments, has_twice, apply_principals, count_created, or_null,
}
use stateful_abac_policy_eng.Manifest.Export.{role_name}
use stateful_abac_policy_eng.Manifest.Lookup.{
  AreNew, AreDistinct, AreKnown, IsUnique, rows_from, name_again,
}
use stateful_abac_policy_eng.Manifest.Written.{added, at_end, one_more, map-snoc}

-- the names of known roles, and the roles
module _ (roles : List RoleRow) (unique : IsUnique (λ r. r.id) roles) where
  role_found :
      (n : String)
      → mem_text n (map (λ r. r.name) roles) ≡ true
      → (r : RoleRow) × (last_named (λ r. r.name) (some n) roles ≡ some r)
        × (role_name roles r.id ≡ n)
  role_found n known = name_again (λ r. r.id) (λ r. r.name) n roles unique known

  pub role_name-role_ids :
      (names : List String)
      → AreKnown (map (λ r. r.name) roles) names
      → map (role_name roles) (role_ids roles names) ≡ names
  role_name-role_ids [] known = refl
  role_name-role_ids (n ∷ names) (here, known) =
      let (r, found, same) = role_found n here in
      rw found (ap₂ ◌∷◌ same (role_name-role_ids names known))

  role_ids-mem :
      (id : ℕ) (names : List String)
      → AreKnown (map (λ r. r.name) roles) names
      → mem_id id (role_ids roles names) ≡ true
      → mem_text (role_name roles id) names ≡ true
  role_ids-mem id [] known h = h
  role_ids-mem id (m ∷ names) (here, known) h =
      let (r, found, same) = role_found m here in
      let split : (r.id == id || mem_id id (role_ids roles names)) ≡ true =
        sym (ap (λ o. mem_id id (role_id o (role_ids roles names))) found) ∙ h in
      elim (Bool-cases (r.id == id)) [
        | inl eq ↦
            let name : role_name roles id ≡ m =
              ap (role_name roles) (sym ((==_iff r.id id).0 eq)) ∙ same in
            ground (arith, name, eq_iff m (role_name roles id))
        | inr off ↦
            let rest = role_ids-mem id names known (ground (arith, split, off)) in
            ground (arith, rest)
      ]

  pub role_ids-distinct :
      (names : List String)
      → AreDistinct names
      → AreKnown (map (λ r. r.name) roles) names
      → has_twice (role_ids roles names) ≡ false
  role_ids-distinct [] d known = refl
  role_ids-distinct (n ∷ names) (apart, d) (here, known) =
      let (r, found, same) = role_found n here in
      rw found (elim (Bool-cases (mem_id r.id (role_ids roles names))) [
        | inl twice ↦
            true_false (mem_text n names)
              (sym (ap (λ m. mem_text m names) same) ∙ role_ids-mem r.id names known twice) apart
        | inr once ↦ rw once (role_ids-distinct names d known)
      ])

-- ---- the rows that principals become
abbrev pub principal_row : ℕ → ℕ → PrincipalItem → PrincipalRow
principal_row realm_id id item = record {
  id = id;
  username = item.username;
  realm_id = realm_id;
  attributes = or_null item.attributes;
}

abbrev pub assigned : List RoleRow → ℕ → List PrincipalItem → List PrincipalRoles
assigned roles n [] = []
assigned roles n (item ∷ items) =
    assignments n (role_ids roles (given_names item.roles)) ++ assigned roles (suc n) items

abbrev pub with_principals : Tables → List PrincipalRow → List PrincipalRoles → ℕ → Tables
with_principals t rows members n = record t {
  principals = rows;
  principal_roles = members;
  next_principal = n;
}

-- The roles of every principal are known, and none is named twice.
abbrev pub AreMembers : List String → List PrincipalItem → Type 0
AreMembers names [] = Unit
AreMembers names (item ∷ items) =
    AreDistinct (given_names item.roles)
    × AreKnown names (given_names item.roles)
    × AreMembers names items

pub append_assoc {ℓ} : {A : Type ℓ} (xs ys zs : List A) → (xs ++ ys) ++ zs ≡ xs ++ (ys ++ zs)
append_assoc [] ys zs = refl
append_assoc (x ∷ xs) ys zs = ap (λ rest. x ∷ rest) (append_assoc xs ys zs)

pub apply_principals-new :
    (items : List PrincipalItem) (c : Counts) (t : Tables) (rows : List PrincipalRow)
    (members : List PrincipalRoles) (n : ℕ)
    → IsUnique (λ r. r.id) t.roles
    → AreMembers (map (λ r. r.name) t.roles) items
    → AreNew (map (λ i. i.username) items) (map (λ p. p.username) rows)
    → apply_principals items c (with_principals t rows members n)
      ≡ ok (
        added (length items) c,
        with_principals t
            (rows ++ rows_from (principal_row t.id) n items)
            (members ++ assigned t.roles n items)
            (n + length items),
      )
unfolding apply_principals
apply_principals-new [] c t rows members n unique known h = ap ok (
    at_end (λ rs m. with_principals t rs members m) c rows n
    ∙ ap (λ ms. (added 0 c, with_principals t (rows ++ []) ms (n + 0))) (sym (append-nil members)))
apply_principals-new (item ∷ items) c t rows members n unique (once, here, known) (free, h) =
    let row = principal_row t.id n item in
    let own = assignments n (role_ids t.roles (given_names item.roles)) in
    let later = assigned t.roles (suc n) items in
    let others = rows_from (principal_row t.id) (suc n) items in
    let fresh : AreNew (map (λ i. i.username) items) (map (λ p. p.username) (rows ++ row ∷ [])) =
      rw (map-snoc (λ p. p.username) rows row) h in
    rw (free, role_ids-distinct t.roles unique (given_names item.roles) once here)
      (apply_principals-new items (count_created c) t (rows ++ row ∷ []) (members ++ own) (suc n)
          unique known fresh
        ∙ ap ok (
            one_more (λ rs m. with_principals t rs ((members ++ own) ++ later) m) c rows row others
              n (length items)
            ∙ ap
                (λ ms. (
                  added (suc (length items)) c,
                  with_principals t (rows ++ row ∷ others) ms (n + suc (length items)),
                ))
                (append_assoc members own later)))
