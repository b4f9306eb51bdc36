-- ===== src/Services/Principals/Created.antt =====
-- What `create_principal` leaves in the tables.
use stateful_abac_policy_eng.Prelude.{
  ℕ, String, Bool, true, false, not, ◌&&◌, Option, none, some, List, [], ◌∷◌, ◌++◌, ◌≡◌, refl, ap,
  ◌∙◌, ◌==◌, ◌<◌, map, mem_text, if◌then◌else◌, where_true, Bool-cases, inl, inr, arith, ==_self,
}
use stateful_abac_policy_eng.Json.{Json}
use stateful_abac_policy_eng.Auth.Roles.{PrincipalRoles, stored_roles}
use stateful_abac_policy_eng.Services.PrincipalCache.{PrincipalRow, RoleRow, PrincipalState}
use stateful_abac_policy_eng.Services.Principals.{
  Outcome, returned, raised, named, all_found, mappings, new_row, insert_row, remove_row,
  insert_roles, create_principal,
}
use stateful_abac_policy_eng.Services.Principals.Assigned.{
  stored_roles-append, stored_roles-mappings,
}

-- Every id of the two tables was given out before.
abbrev pub AllBelow : ℕ → List PrincipalRow → Type 0
AllBelow n [] = Unit
AllBelow n (p ∷ ps) = (p.id < n) × AllBelow n ps

abbrev pub AllRolesBelow : ℕ → List PrincipalRoles → Type 0
AllRolesBelow n [] = Unit
AllRolesBelow n (r ∷ rs) = (r.principal_id < n) × AllRolesBelow n rs

abbrev pub or_no_names : Option (List String) → List String
or_no_names none = []
or_no_names (some names) = names

-- a principal that was created with its roles, or tables as they were
abbrev pub IsCreated : ℕ → List String → PrincipalState → Outcome PrincipalRow → Type 0
IsCreated realm_id names s (raised t) =
    (all_found (named realm_id names s) names ≡ false)
    × (t.principals ≡ s.principals)
    × (t.principal_roles ≡ s.principal_roles)
IsCreated realm_id names s (returned p t) =
    (all_found (named realm_id names s) names ≡ true)
    × (t.principals ≡ (s.principals ++ p ∷ []))
    × (stored_roles t.principal_roles p.id ≡ map (λ r. r.id) (named realm_id names s))

named-[] :
    (realm_id : ℕ) (roles : List RoleRow)
    → where_true (λ r. r.realm_id == realm_id && mem_text r.name []) roles ≡ []
named-[] realm_id [] = refl
named-[] realm_id (r ∷ roles) = elim (Bool-cases (r.realm_id == realm_id)) [
  | inl same ↦ rw same (named-[] realm_id roles)
  | inr other ↦ rw other (named-[] realm_id roles)
]

stored_roles-below :
    (n : ℕ) (rows : List PrincipalRoles) → AllRolesBelow n rows → stored_roles rows n ≡ []
stored_roles-below n [] h = refl
stored_roles-below n (r ∷ rows) (h, hs) =
    let other : (r.principal_id == n) ≡ false = ground (arith, h) in
    rw other (stored_roles-below n rows hs)

remove_row-append :
    (p : PrincipalRow) (ps : List PrincipalRow)
    → AllBelow p.id ps
    → where_true (λ q. not (q.id == p.id)) (ps ++ p ∷ []) ≡ ps
remove_row-append p [] h = rw (==_self p.id) refl
remove_row-append p (q ∷ ps) (h, hs) =
    let other : (q.id == p.id) ≡ false = ground (arith, h) in
    rw other (ap (λ qs. q ∷ qs) (remove_row-append p ps hs))

insert_roles-stored :
    (id : ℕ) (roles : List RoleRow) (s : PrincipalState)
    → AllRolesBelow id s.principal_roles
    → stored_roles (insert_roles id roles s).principal_roles id ≡ map (λ r. r.id) roles
insert_roles-stored id [] s h = stored_roles-below id s.principal_roles h
insert_roles-stored id (r ∷ roles) s h =
    stored_roles-append s.principal_roles (mappings id (r ∷ roles)) id
    ∙ rw (stored_roles-below id s.principal_roles h) (stored_roles-mappings id (r ∷ roles))

insert_roles-principals :
    (id : ℕ) (roles : List RoleRow) (s : PrincipalState)
    → (insert_roles id roles s).principals ≡ s.principals
insert_roles-principals id [] s = refl
insert_roles-principals id (r ∷ roles) s = refl

no_roles :
    (realm_id : ℕ) (p : PrincipalRow) (s : PrincipalState)
    → AllRolesBelow p.id s.principal_roles
    → IsCreated realm_id [] s (returned p (insert_row p s))
no_roles realm_id p s h =
    rw (named-[] realm_id s.auth_roles) (refl, refl, stored_roles-below p.id s.principal_roles h)

with_names :
    (realm_id : ℕ) (names : List String) (p : PrincipalRow) (s : PrincipalState)
    → AllBelow p.id s.principals
    → AllRolesBelow p.id s.principal_roles
    → IsCreated realm_id names s (
        if all_found (named realm_id names s) names
        then returned p (insert_roles p.id (named realm_id names s) (insert_row p s))
        else raised (remove_row p.id (insert_row p s)))
with_names realm_id names p s low h = either (all_found (named realm_id names s) names) refl
  where
    either :
        (b : Bool)
        → all_found (named realm_id names s) names ≡ b
        → IsCreated realm_id names s (
            if b
            then returned p (insert_roles p.id (named realm_id names s) (insert_row p s))
            else raised (remove_row p.id (insert_row p s)))
    either true all = (
      all,
      insert_roles-principals p.id (named realm_id names s) (insert_row p s),
      insert_roles-stored p.id (named realm_id names s) (insert_row p s) h,
    )
    either false missing = (missing, remove_row-append p s.principals low, refl)

-- If every id in the tables of principals and of their roles is below the next one, then
-- `create_principal` returns exactly if as many roles of the realm have one of the names as there are
-- different names. When it returns, the table has the returned row and the rows that it had, and the row's roles
-- are exactly the roles of these names. When it raises, the tables are as they were.
pub create_principal-IsCreated :
    (realm_id : ℕ) (username : String) (attributes : Json) (roles : Option (List String))
    (s : PrincipalState)
    → AllBelow s.next_id s.principals
    → AllRolesBelow s.next_id s.principal_roles
    → IsCreated realm_id
        (or_no_names roles)
        s
        (create_principal realm_id username attributes roles s)
unfolding create_principal
create_principal-IsCreated realm_id username attributes none s low h =
    no_roles realm_id (new_row username realm_id attributes s) s h
create_principal-IsCreated realm_id username attributes (some []) s low h =
    no_roles realm_id (new_row username realm_id attributes s) s h
create_principal-IsCreated realm_id username attributes (some (n ∷ names)) s low h =
    with_names realm_id (n ∷ names) (new_row username realm_id attributes s) s low h
