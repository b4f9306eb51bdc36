-- ===== src/Auth/Access/Cached.antt =====
-- What a cached decision depends on, and what invalidation takes away.
use stateful_abac_policy_eng.Prelude.{
  ℕ, String, Bool, true, false, not, ◌&&◌, Option, none, some, List, [], ◌∷◌, ◌≡◌, refl, ap, sym,
  ◌∙◌, arith, if◌then◌else◌, Result, ok, ◌>>=◌, Option-cases, Result-cases, inl, inr, ok_injective,
  err_absurd, ok_of_bind,
}
use stateful_abac_policy_eng.Json.{Json}
use stateful_abac_policy_eng.Policy.{Resource}
use stateful_abac_policy_eng.Policy.Resources.{get_authorized_resources}
use stateful_abac_policy_eng.Auth.{Ids, resolve_ids}
use stateful_abac_policy_eng.Auth.Roles.{is_empty}
use stateful_abac_policy_eng.Auth.Decisions.{
  CachedDecision, DecisionKey, get_type_level_decision, same_key, same_ids,
}
use stateful_abac_policy_eng.Auth.Access.{
  Request, AccessRequestItem, Outcome, Tables, allowed, is_positive, key_of, decide, uncached,
  by_sql, map_externals, no_mapping, process_access_item, cached_outcome, decision, respond,
  query_of, final_outcome, distinct_ids, is_public_type, after_fallback, all_externals,
  type_level_granted, or_next, Answer,
}

same_ids_refl : (ns : List ℕ) → same_ids ns ns ≡ true
same_ids_refl [] = refl
same_ids_refl (n ∷ ns) = ground (arith, same_ids_refl ns)

same_key_refl : (k : DecisionKey) → same_key k k ≡ true
same_key_refl k = ground (arith, same_ids_refl k.role_key)

-- a request for the same caller in the same realm, whatever the tables and the context
abbrev pub elsewhere : Request → Tables → Json → Request
elsewhere req tables ctx = record req { tables = tables; ctx = ctx }

-- an item that asks for a decision and names no resource
abbrev pub general_item : String → String → AccessRequestItem
general_item action_name type_name = record {
  action_name = action_name;
  resource_type_name = type_name;
  return_type = decision;
  external_resource_ids = [];
}

if-and_false {ℓ} : {A : Type ℓ} → (b : Bool) (x y : A) → (if b && false then x else y) ≡ y
if-and_false true x y = refl
if-and_false false x y = refl

module _ (run : String → Json → Resource → Result (Option Bool))
    (eval : String → Json → Result Bool) (action_name type_name : String) where
  abbrev item : AccessRequestItem
  item = general_item action_name type_name

  -- A general decision is answered by a truth value, which is then in the cache.
  abbrev Remembers : Request → Ids → Outcome → Type 0
  Remembers req found out =
      (b : Bool) × (out.result ≡ respond item (allowed b))
      × (get_type_level_decision out.cache (key_of req found) ≡ some b)

  -- whether an authorized resource has an external id
  abbrev pub has_names : Request → Ids → List ℕ → Bool
  has_names req found rows =
      not (is_empty (all_externals (query_of req found) req.tables.externals (distinct_ids rows)))

  abbrev pub final : Request → Ids → List CachedDecision → List ℕ → Answer → Outcome
  final req found cache rows answer =
      final_outcome run eval req item found cache no_mapping (distinct_ids rows) answer

  abbrev pub finished : Request → Ids → List CachedDecision → List ℕ → Result Outcome
  finished req found cache rows =
      after_fallback run eval req item found (allowed (has_names req found rows))
      >>= (λ answer. ok (final req found cache rows answer))

  -- With no external id everything hangs on `get_authorized_resources` and the rows for the type.
  pub uncached-general :
      (req : Request) (found : Ids) (cache : List CachedDecision)
      → uncached run eval req item found cache ≡ (
          get_authorized_resources run req.ctx req.tables.types req.tables.resources req.tables.acls
            (query_of req found)
            none
          >>= finished req found cache)
  unfolding uncached by_sql map_externals
  uncached-general req found cache = if-and_false (is_public_type run eval req item) _ _

  -- The loop over the rows for the whole type runs where no name was found.
  pub after_fallback-allowed :
      (req : Request) (found : Ids) (b : Bool)
      → after_fallback run eval req item found (allowed b) ≡ (
          or_next (ok b) (type_level_granted run eval req found)
          >>= (λ granted. ok (allowed granted)))
  after_fallback-allowed req found true = refl
  after_fallback-allowed req found false = refl

  uncached-Remembers :
      (req : Request) (found : Ids) (cache : List CachedDecision) (out : Outcome)
      → uncached run eval req item found cache ≡ ok out
      → Remembers req found out
  unfolding get_type_level_decision
  uncached-Remembers req found cache out done =
      let (rows, ran, same) =
        ok_of_bind
          (get_authorized_resources run req.ctx req.tables.types req.tables.resources
            req.tables.acls (query_of req found) none)
          (finished req found cache) out (sym (uncached-general req found cache) ∙ done) in
      let (answer, fell, finish) =
        ok_of_bind (after_fallback run eval req item found (allowed (has_names req found rows)))
          (λ answer. ok (final req found cache rows answer)) out same in
      let (b, granted, is_b) =
        ok_of_bind (or_next (ok (has_names req found rows)) (type_level_granted run eval req found))
          (λ b. ok (allowed b)) answer
          (sym (after_fallback-allowed req found (has_names req found rows)) ∙ fell) in
      let answered : allowed b ≡ answer = ok_injective (allowed b) answer is_b in
      rw (← ok_injective (final req found cache rows answer) out finish) (
        b,
        ap (respond item) (sym answered),
        rw (same_key_refl (key_of req found)) (ap (λ a. some (is_positive a)) (sym answered)),
      )

  decide-Remembers :
      (req : Request) (found : Ids) (cache : List CachedDecision) (out : Outcome)
      → decide run eval req item found cache ≡ ok out
      → Remembers req found out
  decide-Remembers req found cache out done =
      elim (Option-cases (get_type_level_decision cache (key_of req found))) [
        | inl cold ↦ uncached-Remembers req found cache out (rw cold at done)
        | inr (b, warm) ↦ rw (← ok_injective _ _ (rw warm at done)) (b, refl, warm)
      ]

  decide-again :
      (req : Request) (found : Ids) (out : Outcome) (tables : Tables) (ctx : Json)
      → Remembers req found out
      → (again : Outcome) × (decide run eval (elsewhere req tables ctx) item found out.cache
          ≡ ok again)
        × (again.result ≡ out.result)
  decide-again req found out tables ctx (b, answered, kept) =
      rw kept
        (cached_outcome run eval (elsewhere req tables ctx) item out.cache b, refl, sym answered)

-- Once `_process_access_item_with_preresolved` has answered an item that asks for a decision and names
-- no resource, the same item for the same caller, roles and realm gets the same answer from the cache
-- that the first call left, whatever the request context and the tables have become.
pub process_access_item-again :
    (run : String → Json → Resource → Result (Option Bool)) (eval : String → Json → Result Bool)
    (action_name type_name : String) (req : Request) (cache : List CachedDecision) (out : Outcome)
    (tables : Tables) (ctx : Json)
    → process_access_item run eval req (general_item action_name type_name) cache ≡ ok out
    → (again : Outcome) × (process_access_item run eval
          (elsewhere req tables ctx)
          (general_item action_name type_name)
          out.cache
        ≡ ok again)
      × (again.result ≡ out.result)
unfolding process_access_item
process_access_item-again run eval action_name type_name req cache out tables ctx done =
    elim (Result-cases (resolve_ids req.realm_map action_name type_name)) [
      | inl failed ↦ err_absurd _ (rw failed at done)
      | inr (found, resolved) ↦ rw resolved (
          decide-again run eval action_name type_name req found out tables ctx (
            decide-Remembers run eval action_name type_name req found cache out
              (rw resolved at done)))
    ]
