-- ===== src/Services/Roles/Deleted.antt =====
-- A deleted role is held by nobody, in the tables and in the cached role sets.
use stateful_abac_policy_eng.Prelude.{
  ℕ, Bool, true, false, not, ◌&&◌, Option, none, some, List, [], ◌∷◌, ◌≡◌, refl, ap, ◌∙◌, ◌==◌,
  is_id, any, any-same, any-where_true, mem_id, ok, where_true, ok_of_bind, ok_injective,
  Bool-cases, inl, inr, arith, ◌||◌, ==_flip,
}
use stateful_abac_policy_eng.Auth.Roles.{PrincipalRoles, CachedRoles, roles_of}
use stateful_abac_policy_eng.Services.Acls.Rows.{one_or_none}
use stateful_abac_policy_eng.Services.PrincipalCache.{
  RoleRow, PrincipalState, invalidate_principal_roles,
}
use stateful_abac_policy_eng.Services.Roles.{
  RoleState, has_role_id, affected, without_role, forget_principals, delete_found, delete_role,
}

any-filtered {ℓ} :
    {A : Type ℓ} (p : A → Bool) (xs : List A) → any p (where_true (λ x. not (p x)) xs) ≡ false
any-filtered p [] = refl
any-filtered p (x ∷ xs) = elim (Bool-cases (p x)) [
  | inl gone ↦ rw gone (any-filtered p xs)
  | inr kept ↦ rw kept (rw kept (any-filtered p xs))
]

mem_id-affected :
    (id role_id : ℕ) (rows : List PrincipalRoles)
    → mem_id id (affected role_id rows)
      ≡ any (λ r. r.principal_id == id && r.role_id == role_id) rows
mem_id-affected id role_id [] = refl
mem_id-affected id role_id (r ∷ rows) = ground (arith, mem_id-affected id role_id rows)

-- The role sets that are left when principals were forgotten.
forget_principals-any :
    (p : CachedRoles → Bool) (ids : List ℕ) (s : PrincipalState)
    → any p (forget_principals ids s).cached_roles
      ≡ any (λ c. not (mem_id c.principal_id ids) && p c) s.cached_roles
forget_principals-any p [] s = any-same p _ s.cached_roles (λ c. refl)
forget_principals-any p (id ∷ ids) s =
    forget_principals-any p ids (invalidate_principal_roles id s)
    ∙ any-where_true (λ c. not (mem_id c.principal_id ids) && p c) (λ c. not (c.principal_id == id))
        s.cached_roles
    ∙ any-same _ _ s.cached_roles (λ c.
      apart (c.principal_id == id) (id == c.principal_id) (mem_id c.principal_id ids) (p c)
        (==_flip c.principal_id id))
  where
    apart : (a b m q : Bool) → a ≡ b → (not a && (not m && q)) ≡ (not (b || m) && q)
    apart a b m q h = ground (arith, h)

forget_principals-principal_roles :
    (ids : List ℕ) (s : PrincipalState)
    → (forget_principals ids s).principal_roles ≡ s.principal_roles
forget_principals-principal_roles [] s = refl
forget_principals-principal_roles (id ∷ ids) s =
    forget_principals-principal_roles ids (invalidate_principal_roles id s)

forget_principals-acls :
    (ids : List ℕ) (s : PrincipalState) → (forget_principals ids s).acls ≡ s.acls
forget_principals-acls [] s = refl
forget_principals-acls (id ∷ ids) s = forget_principals-acls ids (invalidate_principal_roles id s)

abbrev pub has_cached : ℕ → CachedRoles → Bool
has_cached role_id c = mem_id role_id (roles_of c.members)

-- a cached set that has the role, of a principal that does not hold it
abbrev pub is_wrong : ℕ → List PrincipalRoles → CachedRoles → Bool
is_wrong role_id rows c =
    not (any (λ r. r.principal_id == c.principal_id && r.role_id == role_id) rows)
    && has_cached role_id c

-- nobody has the role, by a row or a cached set, no row of acl is for it, and the realm map is gone
abbrev pub IsGone : ℕ → RoleState → Type 0
IsGone role_id s =
    (any (λ r. r.role_id == role_id) s.people.principal_roles ≡ false)
    × (any (λ a. is_id a.role_id role_id) s.people.acls ≡ false)
    × (any (has_cached role_id) s.people.cached_roles ≡ false)
    × (s.hash ≡ none)

-- If no cached role set has the role for a principal that does not hold it: when `delete_role` returns
-- true, no row of principal_roles and of acl has the role, no cached role set has it, and the realm map
-- is not cached.
pub delete_role-IsGone :
    (realm_id role_id : ℕ) (s t : RoleState)
    → any (is_wrong role_id s.people.principal_roles) s.people.cached_roles ≡ false
    → delete_role realm_id role_id s ≡ ok (true, t)
    → IsGone role_id t
unfolding delete_role
delete_role-IsGone realm_id role_id s t right h =
    let (found, looked, done) =
      ok_of_bind (one_or_none (where_true (has_role_id realm_id role_id) s.people.auth_roles)) _
        (true, t) h in
    either found (ok_injective _ (true, t) done)
  where
    ids : List ℕ
    ids = affected role_id s.people.principal_roles

    either : (found : Option RoleRow) → delete_found role_id s found ≡ (true, t) → IsGone role_id t
    either none end = cc
    either (some role) end = rw (← ap (λ o. o.1) end) (
      ap (any (λ r. r.role_id == role_id))
            (forget_principals-principal_roles ids (without_role role_id s.people))
          ∙ any-filtered (λ r. r.role_id == role_id) s.people.principal_roles,
      ap (any (λ a. is_id a.role_id role_id))
            (forget_principals-acls ids (without_role role_id s.people))
          ∙ any-filtered (λ a. is_id a.role_id role_id) s.people.acls,
      forget_principals-any (has_cached role_id) ids (without_role role_id s.people)
          ∙ any-same _ (is_wrong role_id s.people.principal_roles) s.people.cached_roles (λ c.
            ap (λ b. not b && has_cached role_id c)
              (mem_id-affected c.principal_id role_id s.people.principal_roles))
          ∙ right,
      refl,
    )
