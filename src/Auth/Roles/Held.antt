-- ===== src/Auth/Roles/Held.antt =====
-- Whether the roles of a request are roles that the principal holds.
use stateful_abac_policy_eng.Prelude.{
  ℕ, String, Bool, true, false, ◌&&◌, none, some, List, [], ◌∷◌, ◌==◌, ◌≡◌, refl, ap, sym, ◌∙◌,
  arith, ok, mem_id, where_true, Bool-cases, inl, inr, ==_iff, Result-cases, ok_injective,
  err_absurd,
}
use stateful_abac_policy_eng.Auth.{Entry, Principal, anonymous, known}
use stateful_abac_policy_eng.Auth.Roles.{
  PrincipalRoles, CachedRoles, Member, stored_roles, smembers, roles_of, members_of, or_marker,
  Read, get_principal_roles, named_roles, check_access_roles, own_roles, verified, read_members,
}

abbrev pub Within : List ℕ → List ℕ → Type 0
Within ids held = (r : ℕ) → mem_id r ids ≡ true → mem_id r held ≡ true

-- the roles that the table gives the principal
abbrev pub held_roles : List PrincipalRoles → Principal → List ℕ
held_roles rows anonymous = []
held_roles rows (known id own) = stored_roles rows id

-- A principal that was read from the cache has no role but those of the table.
abbrev pub PrincipalHolds : List PrincipalRoles → Principal → Type 0
PrincipalHolds rows anonymous = Unit
PrincipalHolds rows (known id none) = Unit
PrincipalHolds rows (known id (some own)) = Within own (stored_roles rows id)

abbrev pub CacheHolds : List PrincipalRoles → List CachedRoles → Type 0
CacheHolds rows cache = (id : ℕ) → Within (roles_of (smembers cache id)) (stored_roles rows id)

mem_id-where_true :
    (r : ℕ) (test : ℕ → Bool) (ids : List ℕ)
    → mem_id r (where_true test ids) ≡ (test r && mem_id r ids)
mem_id-where_true r test [] = ground arith
mem_id-where_true r test (i ∷ ids) = elim (Bool-cases (i == r)) [
  | inl here ↦
      let same : i ≡ r = (==_iff i r).0 here in
      ground (arith, mem_id-where_true r test ids, ap test same)
  | inr other ↦ ground (arith, mem_id-where_true r test ids)
]

no_member : (r : ℕ) (b : Bool) → mem_id r [] ≡ true → b ≡ true
no_member r b m = cc

right_of_and : (a b : Bool) → (a && b) ≡ true → b ≡ true
right_of_and a b h = ground arith

left_of_and : (a b : Bool) → (a && b) ≡ true → a ≡ true
left_of_and a b h = ground arith

roles_of-members_of : (ids : List ℕ) → roles_of (members_of ids) ≡ ids
roles_of-members_of [] = refl
roles_of-members_of (i ∷ ids) = ap (◌∷◌ i) (roles_of-members_of ids)

read_members-Within :
    (rows : List PrincipalRoles) (cache : List CachedRoles) (id : ℕ) (ms : List Member)
    → Within (roles_of ms) (stored_roles rows id)
    → Within (read_members rows cache id ms).role_ids (stored_roles rows id)
read_members-Within rows cache id [] h r m = m
read_members-Within rows cache id (x ∷ ms) h r m = h r m

get_principal_roles-Within :
    (rows : List PrincipalRoles) (cache : List CachedRoles) (id : ℕ)
    → CacheHolds rows cache
    → Within (get_principal_roles rows cache id).role_ids (stored_roles rows id)
unfolding get_principal_roles
get_principal_roles-Within rows cache id h r m = elim (Bool-cases (id == 0)) [
  | inl zero_id ↦ no_member r _ (rw zero_id at m)
  | inr real ↦ read_members-Within rows cache id (smembers cache id) (h id) r (rw real at m)
]

own_roles-Within :
    (rows : List PrincipalRoles) (cache : List CachedRoles) (p : Principal)
    → PrincipalHolds rows p
    → CacheHolds rows cache
    → Within (own_roles rows cache p).role_ids (held_roles rows p)
own_roles-Within rows cache anonymous ph ch r m = m
own_roles-Within rows cache (known id none) ph ch r m =
    get_principal_roles-Within rows cache id ch r m
own_roles-Within rows cache (known id (some [])) ph ch r m =
    get_principal_roles-Within rows cache id ch r m
own_roles-Within rows cache (known id (some (i ∷ own))) ph ch r m = ph r m

verified-Within :
    (rows : List PrincipalRoles) (p : Principal) (targets : List ℕ)
    → PrincipalHolds rows p
    → Within (verified rows p targets) (held_roles rows p)
verified-Within rows anonymous targets ph r m = m
verified-Within rows (known id none) targets ph r m =
    right_of_and (mem_id r targets) _
      (sym (mem_id-where_true r (λ i. mem_id i targets) (stored_roles rows id)) ∙ m)
verified-Within rows (known id (some own)) targets ph r m =
    ph r (left_of_and (mem_id r own) _ (sym (mem_id-where_true r (λ i. mem_id i own) targets) ∙ m))

cold_read : List PrincipalRoles → List CachedRoles → ℕ → Read
cold_read rows cache id =
    let entry : CachedRoles = record {
      principal_id = id;
      members = or_marker (members_of (stored_roles rows id));
    } in
    record { role_ids = stored_roles rows id; cache = entry ∷ cache }

get_principal_roles-cold :
    (rows : List PrincipalRoles) (cache : List CachedRoles) (id : ℕ)
    → (id == 0) ≡ false
    → smembers cache id ≡ []
    → get_principal_roles rows cache id ≡ cold_read rows cache id
unfolding get_principal_roles cold_read
get_principal_roles-cold rows cache id real cold = rw (real, cold) refl

smembers-cold :
    (rows : List PrincipalRoles) (cache : List CachedRoles) (id : ℕ)
    → smembers (cold_read rows cache id).cache id ≡ or_marker (members_of (stored_roles rows id))
unfolding cold_read
smembers-cold rows cache id = rw ((==_iff id id).1 refl) refl

read_members-or_marker :
    (rows : List PrincipalRoles) (cache : List CachedRoles) (id : ℕ) (ids : List ℕ)
    → (read_members rows cache id (or_marker (members_of ids))).role_ids ≡ ids
read_members-or_marker rows cache id [] = refl
read_members-or_marker rows cache id (i ∷ ids) = ap (◌∷◌ i) (roles_of-members_of ids)

warm_read :
    (rows : List PrincipalRoles) (cache : List CachedRoles) (id : ℕ) (ids : List ℕ)
    → (id == 0) ≡ false
    → smembers cache id ≡ or_marker (members_of ids)
    → (get_principal_roles rows cache id).role_ids ≡ ids
unfolding get_principal_roles
warm_read rows cache id ids real warm = rw (real, warm) (read_members-or_marker rows cache id ids)

-- If the roles of the cached principal and the cached role sets are roles of the table, then
-- every role with which `check_access` decides, whether the request names roles or not, is one that the
-- table principal_roles gives the principal; an anonymous principal has none.
pub check_access_roles-held :
    (rows : List PrincipalRoles) (cache : List CachedRoles) (realm_map : List Entry) (p : Principal)
    (names : List String) (read : Read)
    → PrincipalHolds rows p
    → CacheHolds rows cache
    → check_access_roles rows cache realm_map p names ≡ ok read
    → Within read.role_ids (held_roles rows p)
unfolding check_access_roles
check_access_roles-held rows cache realm_map p [] read ph ch done =
    rw (← ok_injective _ _ done) (own_roles-Within rows cache p ph ch)
check_access_roles-held rows cache realm_map p (n ∷ names) read ph ch done =
    elim (Result-cases (named_roles realm_map (n ∷ names))) [
      | inl failed ↦ err_absurd _ (rw failed at done)
      | inr (targets, found) ↦
          rw (← ok_injective _ _ (rw found at done)) (verified-Within rows p targets ph)
    ]

-- For an id other than 0 whose role set is not cached: `get_principal_roles` returns the roles of the
-- table, and from then on, whatever the table becomes, a read of the cache that the first read
-- left returns those roles again, an empty list included.
pub get_principal_roles-again :
    (rows later_rows : List PrincipalRoles) (cache : List CachedRoles) (id : ℕ)
    → (id == 0) ≡ false
    → smembers cache id ≡ []
    → ((get_principal_roles rows cache id).role_ids ≡ stored_roles rows id)
      × ((get_principal_roles later_rows (get_principal_roles rows cache id).cache id).role_ids
          ≡ stored_roles rows id)
unfolding cold_read
get_principal_roles-again rows later_rows cache id real cold =
    rw (get_principal_roles-cold rows cache id real cold)
      (refl, warm_read later_rows _ id _ real (smembers-cold rows cache id))
