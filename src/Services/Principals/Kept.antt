-- ===== src/Services/Principals/Kept.antt =====
-- The cached principals that the operations leave.
use stateful_abac_policy_eng.Prelude.{
  ℕ, String, false, ◌&&◌, Option, none, some, List, [], ◌∷◌, ◌≡◌, refl, ap, ◌∙◌, ◌==◌, eq_text,
  if◌then◌else◌, Result, ok, err, where_true, Bool-cases, inl, inr,
}
use stateful_abac_policy_eng.Services.Acls.Rows.{one_or_none}
use stateful_abac_policy_eng.Services.PrincipalCache.{
  PrincipalRow, CachedPrincipal, CacheKey, by_id, by_username, CacheEntry, PrincipalState,
  cache_get, cache_delete, read_cached, get_principal,
}
use stateful_abac_policy_eng.Services.Principals.{
  Outcome, returned, raised, PrincipalUpdate, has_id, named, with_row, all_found, assign, write_row,
  update_found, update_principal, delete_found, delete_principal, renamed, described,
}

-- the tables and the cache after a call
abbrev pub state_of {ℓ} : {A : Type ℓ} → Outcome A → PrincipalState
state_of (returned a s) = s
state_of (raised s) = s

-- A name is found after an id was deleted.
cache_get-by_username :
    (realm_id id : ℕ) (name : String) (es : List CacheEntry)
    → cache_get (by_username realm_id name) (cache_delete (by_id id) es)
      ≡ cache_get (by_username realm_id name) es
cache_get-by_username realm_id id name [] = refl
cache_get-by_username realm_id id name (e ∷ es) =
    kept e.key refl (cache_get-by_username realm_id id name es)
  where
    kept :
        (k : CacheKey)
        → e.key ≡ k
        → cache_get (by_username realm_id name) (cache_delete (by_id id) es)
          ≡ cache_get (by_username realm_id name) es
        → cache_get (by_username realm_id name) (cache_delete (by_id id) (e ∷ es))
          ≡ cache_get (by_username realm_id name) (e ∷ es)
    kept (by_username r n) at rest =
        rw at (ap (λ o. if r == realm_id && eq_text n name then some e.value else o) rest)
    kept (by_id n) at rest = elim (Bool-cases (n == id)) [
      | inl gone ↦ rw at (rw gone rest)
      | inr here ↦ rw at (rw here rest)
    ]

-- what the cache has under a name, before and after
abbrev SameName : ℕ → String → PrincipalState → PrincipalState → Type 0
SameName realm_id name s t =
    cache_get (by_username realm_id name) t.cached ≡ cache_get (by_username realm_id name) s.cached

assign-SameName :
    (realm_id r : ℕ) (name : String) (roles : Option (List String)) (p : PrincipalRow)
    (s : PrincipalState)
    → SameName r name s (state_of (assign realm_id roles p s))
assign-SameName realm_id r name none p s = refl
assign-SameName realm_id r name (some names) p s =
    elim (Bool-cases (all_found (named realm_id names s) names)) [
      | inl all ↦ rw all (cache_get-by_username r p.id name s.cached)
      | inr missing ↦ rw missing refl
    ]

update_found-SameName :
    (realm_id r : ℕ) (name : String) (u : PrincipalUpdate) (s : PrincipalState)
    (found : Result (Option PrincipalRow))
    → SameName r name s (state_of (update_found realm_id u s found))
update_found-SameName realm_id r name u s err = refl
update_found-SameName realm_id r name u s (ok none) = refl
update_found-SameName realm_id r name u s (ok (some x)) =
    written (renamed u.username (described u.attributes x))
  where
    written :
        (row : Result PrincipalRow)
        → SameName r name s (state_of (write_row realm_id u.roles s row))
    written err = refl
    written (ok p) = assign-SameName realm_id r name u.roles p (with_row p s)

delete_found-SameName :
    (id r : ℕ) (name : String) (s : PrincipalState) (found : Result (Option PrincipalRow))
    → SameName r name s (state_of (delete_found id s found))
delete_found-SameName id r name s err = refl
delete_found-SameName id r name s (ok none) = refl
delete_found-SameName id r name s (ok (some p)) = cache_get-by_username r id name s.cached

read_name :
    (r : ℕ) (name : String) (c : CachedPrincipal) (t : PrincipalState)
    → eq_text name "" ≡ false
    → (r == 0) ≡ false
    → cache_get (by_username r name) t.cached ≡ some c
    → (get_principal none (some name) (some r) t).0 ≡ some c
unfolding get_principal
read_name r name c t named real at =
    rw (named, real) (ap (λ o. (read_cached (by_username r name) t o).0) at)

-- If a principal is cached under a name that is not empty, of a realm with an id other than 0: whatever
-- `update_principal` and `delete_principal` do to the row, to its roles or to any other,
-- `CacheService.get_principal` of the name goes on to answer with what was cached.
pub get_principal-stale :
    (realm_id id r : ℕ) (name : String) (u : PrincipalUpdate) (c : CachedPrincipal)
    (s : PrincipalState)
    → eq_text name "" ≡ false
    → (r == 0) ≡ false
    → cache_get (by_username r name) s.cached ≡ some c
    → ((get_principal none (some name) (some r) (state_of (update_principal realm_id id u s))).0
        ≡ some c)
      × ((get_principal none (some name) (some r) (state_of (delete_principal realm_id id s))).0
          ≡ some c)
unfolding update_principal delete_principal
get_principal-stale realm_id id r name u c s named real cached =
    let found = one_or_none (where_true (has_id realm_id id) s.principals) in
    (
      read_name r name c (state_of (update_found realm_id u s found)) named real
          (update_found-SameName realm_id r name u s found ∙ cached),
      read_name r name c (state_of (delete_found id s found)) named real
          (delete_found-SameName id r name s found ∙ cached),
    )

-- If a principal is cached under an id other than 0, and an update gives no roles: `get_principal` of
-- the id goes on to answer with what was cached, whatever name and attributes `update_principal` wrote.
pub update_principal-unnoticed :
    (realm_id id n : ℕ) (u : PrincipalUpdate) (c : CachedPrincipal) (s : PrincipalState)
    → (n == 0) ≡ false
    → cache_get (by_id n) s.cached ≡ some c
    → u.roles ≡ none
    → (get_principal (some n) none none (state_of (update_principal realm_id id u s))).0 ≡ some c
unfolding update_principal get_principal
update_principal-unnoticed realm_id id n u c s real cached given =
    let found = one_or_none (where_true (has_id realm_id id) s.principals) in
    rw real (answer (state_of (update_found realm_id u s found)) (kept found ∙ cached))
  where
    written :
        (row : Result PrincipalRow) → (state_of (write_row realm_id none s row)).cached ≡ s.cached
    written err = refl
    written (ok p) = refl

    kept :
        (found : Result (Option PrincipalRow))
        → cache_get (by_id n) (state_of (update_found realm_id u s found)).cached
          ≡ cache_get (by_id n) s.cached
    kept err = refl
    kept (ok none) = refl
    kept (ok (some x)) =
        rw given
          (ap (cache_get (by_id n)) (written (renamed u.username (described u.attributes x))))

    answer :
        (t : PrincipalState)
        → cache_get (by_id n) t.cached ≡ some c
        → (read_cached (by_id n) t (cache_get (by_id n) t.cached)).0 ≡ some c
    answer t at = ap (λ o. (read_cached (by_id n) t o).0) at
