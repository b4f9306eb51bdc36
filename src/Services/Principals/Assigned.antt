-- ===== src/Services/Principals/Assigned.antt =====
-- A principal whose roles were assigned is read with these roles.
use stateful_abac_policy_eng.Prelude.{
  some_injective, ℕ, String, false, Option, none, some, List, [], ◌∷◌, ◌++◌, ◌≡◌, refl, sym, ap,
  ◌∙◌, ◌==◌, map, Result, ok, err, where_true, Bool-cases, inl, inr, and_parts, ==_iff, ==_self,
  cons_head, ok_injective, err_absurd,
}
use stateful_abac_policy_eng.Json.{Json}
use stateful_abac_policy_eng.Auth.Roles.{PrincipalRoles, stored_roles}
use stateful_abac_policy_eng.Services.Acls.Rows.{one_or_none}
use stateful_abac_policy_eng.Services.Acls.Kept.{one_or_none-found}
use stateful_abac_policy_eng.Services.PrincipalCache.{
  PrincipalRow, RoleRow, CachedPrincipal, by_id, CacheEntry, PrincipalState, same_key, cache_get,
  cache_delete, is_row_of, or_empty, first, get_principal, invalidate_principal_roles,
}
use stateful_abac_policy_eng.Services.Principals.{
  returned, PrincipalUpdate, has_id, named, mappings, without_roles, replace_row, renamed,
  described, with_row, set_roles, all_found, assign, write_row, update_found, update_principal,
}

pub stored_roles-append :
    (rows more : List PrincipalRoles) (id : ℕ)
    → stored_roles (rows ++ more) id ≡ (stored_roles rows id ++ stored_roles more id)
stored_roles-append [] more id = refl
stored_roles-append (r ∷ rows) more id = elim (Bool-cases (r.principal_id == id)) [
  | inl own ↦ rw own (ap (λ rs. r.role_id ∷ rs) (stored_roles-append rows more id))
  | inr other ↦ rw other (stored_roles-append rows more id)
]

stored_roles-without :
    (id : ℕ) (rows : List PrincipalRoles) → stored_roles (without_roles id rows) id ≡ []
stored_roles-without id [] = refl
stored_roles-without id (r ∷ rows) = elim (Bool-cases (r.principal_id == id)) [
  | inl own ↦ rw own (stored_roles-without id rows)
  | inr other ↦ rw other (rw other (stored_roles-without id rows))
]

pub stored_roles-mappings :
    (id : ℕ) (roles : List RoleRow) → stored_roles (mappings id roles) id ≡ map (λ r. r.id) roles
stored_roles-mappings id [] = refl
stored_roles-mappings id (r ∷ roles) =
    rw (==_self id) (ap (λ rs. r.id ∷ rs) (stored_roles-mappings id roles))

-- Roles that were deleted and inserted.
stored_roles-set_roles :
    (id : ℕ) (roles : List RoleRow) (rows : List PrincipalRoles)
    → stored_roles (without_roles id rows ++ mappings id roles) id ≡ map (λ r. r.id) roles
stored_roles-set_roles id roles rows =
    stored_roles-append (without_roles id rows) (mappings id roles) id
    ∙ rw (stored_roles-without id rows) (stored_roles-mappings id roles)

cache_get-cache_delete :
    (id : ℕ) (es : List CacheEntry) → cache_get (by_id id) (cache_delete (by_id id) es) ≡ none
cache_get-cache_delete id [] = refl
cache_get-cache_delete id (e ∷ es) = elim (Bool-cases (same_key e.key (by_id id))) [
  | inl own ↦ rw own (cache_get-cache_delete id es)
  | inr other ↦ rw other (rw other (cache_get-cache_delete id es))
]

-- The written row is the first of its id.
first-replace_row :
    (realm_id : ℕ) (x new : PrincipalRow) (ps : List PrincipalRow)
    → where_true (has_id realm_id new.id) ps ≡ x ∷ []
    → first (where_true (is_row_of (by_id new.id)) (replace_row new ps)) ≡ some new
first-replace_row realm_id x new [] found = cc
first-replace_row realm_id x new (p ∷ ps) found = elim (Bool-cases (p.id == new.id)) [
  | inl same ↦ rw same (rw (==_self new.id) refl)
  | inr other ↦
      let later : where_true (has_id realm_id new.id) ps ≡ x ∷ [] = rw other at found in
      rw other (rw other (first-replace_row realm_id x new ps later))
]

found-holds :
    (realm_id id : ℕ) (x : PrincipalRow) (ps : List PrincipalRow)
    → where_true (has_id realm_id id) ps ≡ x ∷ []
    → x.id ≡ id
found-holds realm_id id x [] found = cc
found-holds realm_id id x (p ∷ ps) found = elim (Bool-cases (has_id realm_id id p)) [
  | inl kept ↦
      ap (λ q. q.id)
        (sym (cons_head p x (where_true (has_id realm_id id) ps) [] (rw kept at found)))
      ∙ (==_iff p.id id).0 (and_parts (p.id == id) (p.realm_id == realm_id) kept).0
  | inr dropped ↦ found-holds realm_id id x ps (rw dropped at found)
]

renamed-id :
    (name : Option (Option String)) (attributes : Option Json) (x y : PrincipalRow)
    → renamed name (described attributes x) ≡ ok y
    → y.id ≡ x.id
renamed-id none none x y h = ap (λ q. q.id) (sym (ok_injective _ y h))
renamed-id none (some a) x y h = ap (λ q. q.id) (sym (ok_injective _ y h))
renamed-id (some none) a x y h = err_absurd y h
renamed-id (some (some name)) none x y h = ap (λ q. q.id) (sym (ok_injective _ y h))
renamed-id (some (some name)) (some a) x y h = ap (λ q. q.id) (sym (ok_injective _ y h))

abbrev pub entry_of : PrincipalRow → List RoleRow → CachedPrincipal
entry_of p roles = record {
  id = p.id;
  username = p.username;
  realm_id = p.realm_id;
  attributes = or_empty p.attributes;
  role_ids = map (λ r. r.id) roles;
}

read_assigned :
    (realm_id : ℕ) (x y : PrincipalRow) (roles : List RoleRow) (s : PrincipalState)
    → (y.id == 0) ≡ false
    → where_true (has_id realm_id y.id) s.principals ≡ x ∷ []
    → (get_principal
        (some y.id)
        none
        none
        (invalidate_principal_roles y.id (set_roles y.id roles (with_row y s)))).0
      ≡ some (entry_of y roles)
unfolding get_principal
read_assigned realm_id x y roles s real found =
    rw
      (
        real,
        cache_get-cache_delete y.id s.cached,
        first-replace_row realm_id x y s.principals found,
        stored_roles-set_roles y.id roles s.principal_roles,
      )
      refl

returned_row {ℓ} :
    {A : Type ℓ} (a b : A) (s t : PrincipalState) → returned a s ≡ returned b t → a ≡ b
returned_row a b s t h = cc

returned_state {ℓ} :
    {A : Type ℓ} (a b : A) (s t : PrincipalState) → returned a s ≡ returned b t → s ≡ t
returned_state a b s t h = cc

abbrev Answers : ℕ → PrincipalRow → List RoleRow → PrincipalState → Type 0
Answers id p roles t = (get_principal (some id) none none t).0 ≡ some (entry_of p roles)

-- When `update_principal` is given names of roles and returns a principal, which has an id other than
-- 0: `CacheService.get_principal` of the id then answers with the columns of the returned row and with
-- the ids of exactly the roles of the realm that have one of the names, whatever was cached before.
pub update_principal-assigned :
    (realm_id id : ℕ) (u : PrincipalUpdate) (names : List String) (p : PrincipalRow)
    (s t : PrincipalState)
    → (id == 0) ≡ false
    → u.roles ≡ some names
    → update_principal realm_id id u s ≡ returned (some p) t
    → (get_principal (some id) none none t).0 ≡ some (entry_of p (named realm_id names s))
unfolding update_principal
update_principal-assigned realm_id id u names p s t real given h =
    searched (one_or_none (where_true (has_id realm_id id) s.principals)) refl h
  where
    assigned :
        (x y : PrincipalRow)
        → where_true (has_id realm_id id) s.principals ≡ x ∷ []
        → y.id ≡ id
        → assign realm_id (some names) y (with_row y s) ≡ returned (some p) t
        → Answers id p (named realm_id names s) t
    assigned x y found same h = elim (Bool-cases (all_found (named realm_id names s) names)) [
      | inl all ↦
          let end = rw all at h in
          rw
            (
              ← same,
              ← returned_state _ _ _ t end,
              ← some_injective y p (returned_row (some y) (some p) _ t end),
            )
            (read_assigned realm_id x y (named realm_id names s) s (rw (← same) at real)
              (rw (← same) at found))
      | inr missing ↦ cc
    ]

    written :
        (x : PrincipalRow) (r : Result PrincipalRow)
        → where_true (has_id realm_id id) s.principals ≡ x ∷ []
        → renamed u.username (described u.attributes x) ≡ r
        → write_row realm_id u.roles s r ≡ returned (some p) t
        → Answers id p (named realm_id names s) t
    written x err found made h = cc
    written x (ok y) found made h =
        assigned x y found
          (renamed-id u.username u.attributes x y made
            ∙ found-holds realm_id id x s.principals found)
          (rw given at h)

    searched :
        (r : Result (Option PrincipalRow))
        → one_or_none (where_true (has_id realm_id id) s.principals) ≡ r
        → update_found realm_id u s r ≡ returned (some p) t
        → Answers id p (named realm_id names s) t
    searched err looked h = cc
    searched (ok none) looked h = cc
    searched (ok (some x)) looked h =
        written x (renamed u.username (described u.attributes x)) (one_or_none-found _ x looked)
          refl h
