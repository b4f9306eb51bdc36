-- ===== src/Auth/Decisions.antt =====
-- The cached type-level decisions of common/services/cache.py. A key is its five parts, the roles as
-- the sorted list whose text the code writes, which has no colon and is "none" for no role; that an
-- entry expires is left to the caller, who may drop entries.
pub mod Forget
use stateful_abac_policy_eng.Prelude.{
  ℕ, Bool, true, false, not, ◌&&◌, ◌||◌, Option, none, some, List, [], ◌∷◌, leb, ◌==◌,
  if◌then◌else◌, where_true,
}

abbrev pub insert : ℕ → List ℕ → List ℕ
insert n [] = n ∷ []
insert n (m ∷ ms) = let rest = insert n ms in if leb n m then n ∷ m ∷ ms else m ∷ rest

-- `sorted(role_ids)`
abbrev pub sorted : List ℕ → List ℕ
sorted [] = []
sorted (n ∷ ns) = insert n (sorted ns)

abbrev pub same_ids : List ℕ → List ℕ → Bool
same_ids [] [] = true
same_ids (n ∷ ns) (m ∷ ms) = (n == m) && same_ids ns ms
same_ids _ _ = false

pub record DecisionKey : Type 0 where
  pub realm_id : ℕ
  pub principal_id : ℕ
  pub type_id : ℕ
  pub action_id : ℕ
  pub role_key : List ℕ

pub record CachedDecision : Type 0 where
  pub key : DecisionKey
  pub decision : Bool

abbrev pub decision_key : ℕ → ℕ → ℕ → ℕ → List ℕ → DecisionKey
decision_key realm_id principal_id type_id action_id role_ids = record {
  realm_id = realm_id;
  principal_id = principal_id;
  type_id = type_id;
  action_id = action_id;
  role_key = sorted role_ids;
}

abbrev pub same_key : DecisionKey → DecisionKey → Bool
same_key k l =
    (k.realm_id == l.realm_id)
    && (k.principal_id == l.principal_id)
    && (k.type_id == l.type_id)
    && (k.action_id == l.action_id)
    && same_ids k.role_key l.role_key

-- `CacheService.get_type_level_decision`
unfoldable pub get_type_level_decision : List CachedDecision → DecisionKey → Option Bool
get_type_level_decision [] k = none
get_type_level_decision (d ∷ ds) k =
    let rest = get_type_level_decision ds k in if same_key d.key k then some d.decision else rest

-- `CacheService.set_type_level_decision`: the newest entry is found first
abbrev pub set_type_level_decision : List CachedDecision → DecisionKey → Bool → List CachedDecision
set_type_level_decision cache k decision = record { key = k; decision = decision } ∷ cache

-- `type_decision:{realm_id}:{principal_id}:*`
abbrev pub of_principal : ℕ → ℕ → DecisionKey → Bool
of_principal realm_id principal_id k = (k.realm_id == realm_id) && (k.principal_id == principal_id)

-- `type_decision:{realm_id}:*:{type_id}:*`, whose first star may span the colon before the action
abbrev pub near_type : ℕ → ℕ → DecisionKey → Bool
near_type realm_id type_id k =
    (k.realm_id == realm_id) && ((k.type_id == type_id) || (k.action_id == type_id))

abbrev pub of_realm : ℕ → DecisionKey → Bool
of_realm realm_id k = k.realm_id == realm_id

-- `scan_iter(match=pattern)` with a `delete` of each key
abbrev pub delete_keys : (DecisionKey → Bool) → List CachedDecision → List CachedDecision
delete_keys matches cache = where_true (λ d. not (matches d.key)) cache

unfoldable pub invalidate_type_decisions_for_principal :
    ℕ → ℕ → List CachedDecision → List CachedDecision
invalidate_type_decisions_for_principal realm_id principal_id cache =
    delete_keys (of_principal realm_id principal_id) cache

unfoldable pub invalidate_type_decisions_for_type :
    ℕ → ℕ → List CachedDecision → List CachedDecision
invalidate_type_decisions_for_type realm_id type_id cache =
    delete_keys (near_type realm_id type_id) cache

unfoldable pub invalidate_all_type_decisions : ℕ → List CachedDecision → List CachedDecision
invalidate_all_type_decisions realm_id cache = delete_keys (of_realm realm_id) cache
