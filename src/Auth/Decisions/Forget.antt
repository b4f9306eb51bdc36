-- ===== src/Auth/Decisions/Forget.antt =====
-- What the invalidation of cached decisions takes away, and what it leaves.
use stateful_abac_policy_eng.Prelude.{
  ℕ, Bool, true, ◌&&◌, ◌||◌, none, List, [], ◌∷◌, ◌==◌, ◌≡◌, refl, ap, arith, if◌then◌else◌,
  Bool-cases, inl, inr, ==_iff,
}
use stateful_abac_policy_eng.Auth.Decisions.{
  CachedDecision, DecisionKey, get_type_level_decision, same_key, same_ids, delete_keys,
  of_principal, near_type, of_realm, invalidate_type_decisions_for_principal,
  invalidate_type_decisions_for_type, invalidate_all_type_decisions,
}

-- Keys that are the same match the same patterns.
abbrev Respects : (DecisionKey → Bool) → Type 0
Respects matches = (k l : DecisionKey) → same_key k l ≡ true → matches k ≡ matches l

get_type_level_decision-delete_keys :
    (matches : DecisionKey → Bool)
    → Respects matches
    → (cache : List CachedDecision) (k : DecisionKey)
    → get_type_level_decision (delete_keys matches cache) k
      ≡ (if matches k then none else get_type_level_decision cache k)
unfolding get_type_level_decision
get_type_level_decision-delete_keys matches same [] k = ground arith
get_type_level_decision-delete_keys matches same (d ∷ ds) k = elim (Bool-cases (same_key d.key k)) [
  | inl here ↦
      ground (arith, get_type_level_decision-delete_keys matches same ds k, same d.key k here)
  | inr other ↦ ground (arith, get_type_level_decision-delete_keys matches same ds k)
]

four_parts :
    (a b c d e : Bool)
    → (a && b && c && d && e) ≡ true
    → (a ≡ true) × (b ≡ true) × (c ≡ true) × (d ≡ true)
four_parts a b c d e h = ground arith

same_key-parts :
    (k l : DecisionKey)
    → same_key k l ≡ true
    → ((k.realm_id == l.realm_id) ≡ true)
      × ((k.principal_id == l.principal_id) ≡ true)
      × ((k.type_id == l.type_id) ≡ true)
      × ((k.action_id == l.action_id) ≡ true)
same_key-parts k l h =
    four_parts (k.realm_id == l.realm_id) (k.principal_id == l.principal_id)
      (k.type_id == l.type_id) (k.action_id == l.action_id) (same_ids k.role_key l.role_key) h

same_test : (m n k : ℕ) → (m == n) ≡ true → (m == k) ≡ (n == k)
same_test m n k h = ap (λ i. i == k) ((==_iff m n).0 h)

-- After the decisions of a principal, of a type or of a whole realm are invalidated, a lookup finds
-- nothing for a key of that principal in the realm, for a key of the realm whose type or action has
-- the id of the type, or for a key of the realm; for every other key it finds what it found before.
pub get_type_level_decision-invalidated :
    (cache : List CachedDecision) (realm_id principal_id type_id : ℕ) (k : DecisionKey)
    → (get_type_level_decision
          (invalidate_type_decisions_for_principal realm_id principal_id cache)
          k
        ≡ (if (k.realm_id == realm_id) && (k.principal_id == principal_id)
            then none
            else get_type_level_decision cache k))
      × (get_type_level_decision (invalidate_type_decisions_for_type realm_id type_id cache) k ≡ (
          if (k.realm_id == realm_id) && ((k.type_id == type_id) || (k.action_id == type_id))
          then none
          else get_type_level_decision cache k))
      × (get_type_level_decision (invalidate_all_type_decisions realm_id cache) k
          ≡ (if k.realm_id == realm_id then none else get_type_level_decision cache k))
unfolding invalidate_type_decisions_for_principal invalidate_type_decisions_for_type
    invalidate_all_type_decisions
get_type_level_decision-invalidated cache realm_id principal_id type_id k = (
  get_type_level_decision-delete_keys (of_principal realm_id principal_id)
      (λ k l h.
        let (a, b, c, d) = same_key-parts k l h in
        rw
          (
            same_test k.realm_id l.realm_id realm_id a,
            same_test k.principal_id l.principal_id principal_id b,
          )
          refl)
      cache k,
  get_type_level_decision-delete_keys (near_type realm_id type_id)
      (λ k l h.
        let (a, b, c, d) = same_key-parts k l h in
        rw
          (
            same_test k.realm_id l.realm_id realm_id a,
            same_test k.type_id l.type_id type_id c,
            same_test k.action_id l.action_id type_id d,
          )
          refl)
      cache k,
  get_type_level_decision-delete_keys (of_realm realm_id)
      (λ k l h.
        let (a, b, c, d) = same_key-parts k l h in same_test k.realm_id l.realm_id realm_id a)
      cache k,
)
