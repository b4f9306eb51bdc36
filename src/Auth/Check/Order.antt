-- ===== src/Auth/Check/Order.antt =====
-- The results of a request belong to its items.
use stateful_abac_policy_eng.Prelude.{
  ℕ, String, Bool, true, false, not, ◌&&◌, Option, none, some, List, [], ◌∷◌, ◌≡◌, refl, sym, ◌∙◌,
  Result, ok, ◌>>=◌, Bool-cases, inl, inr, ok_injective, ok_of_bind, arith,
}
use stateful_abac_policy_eng.Json.{Json}
use stateful_abac_policy_eng.Policy.{Resource}
use stateful_abac_policy_eng.Policy.Resources.{get_authorized_resources}
use stateful_abac_policy_eng.Auth.{Entry, Ids, Principal, resolve_ids, get_realm_id}
use stateful_abac_policy_eng.Auth.Roles.{PrincipalRoles, check_access_roles, is_empty, Read}
use stateful_abac_policy_eng.Auth.Decisions.{CachedDecision}
use stateful_abac_policy_eng.Auth.Access.{
  Request, AccessRequestItem, AccessResponseItem, AuditEntry, Outcome, Tables, is_positive,
  process_access_item, uncached, decide, by_sql, ReturnType, decision, id_list, answer_of,
  not_found, map_externals, no_mapping, type_level_granted, is_public_type, public_outcome, values,
  query_of, resource_filter, final_outcome, after_fallback, final_answer, finish_sql, distinct_ids,
  or_cached, cached_outcome,
}
use stateful_abac_policy_eng.Auth.Check.{
  Answered, Checked, Caches, TypeMapping, process_items, check_access, request_for,
  batch_resolve_external_ids, request_of, checked_with, check_items,
}

-- the result and the audit entry are of the item, and the entry tells what the result does
abbrev Belongs : Request → AccessRequestItem → AccessResponseItem → AuditEntry → Type 0
Belongs req item r a =
    ((r.action_name ≡ item.action_name) × (r.resource_type_name ≡ item.resource_type_name))
    × ((a.action_name ≡ item.action_name) × (a.principal_id ≡ req.principal_id))
    × (a.decision ≡ is_positive r.answer)

positive-answer_of :
    (t : ReturnType) (names : List String) → is_positive (answer_of t names) ≡ not (is_empty names)
positive-answer_of decision names = refl
positive-answer_of id_list names = refl

left_part : (a b : Bool) → (a && b) ≡ true → a ≡ true
left_part a b h = ground arith

-- the results of the items, with those of the first before them
abbrev with_first : Outcome → Answered → Answered
with_first out rest = record {
  results = out.result ∷ rest.results;
  audits = out.audit ∷ rest.audits;
  decisions = rest.decisions;
}

module _ (run : String → Json → Resource → Result (Option Bool))
    (eval : String → Json → Result Bool) where
  not_found-Belongs :
      (req : Request) (item : AccessRequestItem) (cache : List CachedDecision) (b : Bool)
      → not (is_empty item.external_resource_ids) ≡ true
      → Belongs req item
          (not_found run eval req item cache b).result
          (not_found run eval req item cache b).audit
  not_found-Belongs req item cache true asked = (
    (refl, refl),
    (refl, refl),
    sym (positive-answer_of item.return_type item.external_resource_ids ∙ asked),
  )
  not_found-Belongs req item cache false asked =
      ((refl, refl), (refl, refl), sym (positive-answer_of item.return_type []))

  uncached-Belongs :
      (req : Request) (item : AccessRequestItem) (found : Ids) (cache : List CachedDecision)
      (out : Outcome)
      → uncached run eval req item found cache ≡ ok out
      → Belongs req item out.result out.audit
  unfolding uncached by_sql
  uncached-Belongs req item found cache out done =
      let m = map_externals req.type_mappings item.external_resource_ids no_mapping in
      let asked = not (is_empty item.external_resource_ids) in
      elim (Bool-cases (asked && is_empty m.filter_ids)) [
        | inl unknown ↦
            let (b, _, same) =
              ok_of_bind (type_level_granted run eval req found)
                (λ b. ok (not_found run eval req item cache b)) out (rw unknown at done) in
            rw (← ok_injective (not_found run eval req item cache b) out same)
              (not_found-Belongs req item cache b (left_part asked _ unknown))
        | inr some_known ↦ elim (Bool-cases (is_public_type run eval req item && asked)) [
          | inl public ↦
              let o = public_outcome run eval req item cache (values m.external_map) in
              rw (← ok_injective o out (rw (some_known, public) at done))
                ((refl, refl), (refl, refl), refl)
          | inr closed ↦
              let (rows, _, same) =
                ok_of_bind
                  (get_authorized_resources run req.ctx req.tables.types req.tables.resources
                    req.tables.acls (query_of req found) (resource_filter m.filter_ids))
                  (λ rows. finish_sql run eval req item found cache m (distinct_ids rows)) out
                  (rw (some_known, closed) at done) in
              let (answer, _, finish) =
                ok_of_bind
                  (after_fallback run eval req item found (
                    answer_of item.return_type
                      (final_answer run eval req item found m (distinct_ids rows))))
                  (λ answer.
                    ok (final_outcome run eval req item found cache m (distinct_ids rows) answer))
                  out same in
              rw
                (← ok_injective
                  (final_outcome run eval req item found cache m (distinct_ids rows) answer) out
                  finish)
                ((refl, refl), (refl, refl), refl)
        ]
      ]

  or_cached-Belongs :
      (req : Request) (item : AccessRequestItem) (found : Ids) (cache : List CachedDecision)
      (o : Option Bool) (out : Outcome)
      → or_cached run eval req item cache o (uncached run eval req item found cache) ≡ ok out
      → Belongs req item out.result out.audit
  or_cached-Belongs req item found cache none out done =
      uncached-Belongs req item found cache out done
  or_cached-Belongs req item found cache (some b) out done =
      rw (← ok_injective (cached_outcome run eval req item cache b) out done)
        ((refl, refl), (refl, refl), refl)

  process-Belongs :
      (req : Request) (item : AccessRequestItem) (cache : List CachedDecision) (out : Outcome)
      → process_access_item run eval req item cache ≡ ok out
      → Belongs req item out.result out.audit
  unfolding process_access_item
  process-Belongs req item cache out done =
      let (found, _, same) =
        ok_of_bind (resolve_ids req.realm_map item.action_name item.resource_type_name)
          (λ found. decide run eval req item found cache) out done in
      or_cached-Belongs req item found cache _ out same

  -- One result and one audit entry for each item, in the order of the items.
  abbrev pub Each :
      Request → List AccessRequestItem → List AccessResponseItem → List AuditEntry → Type 0
  Each req [] [] [] = Unit
  Each req (item ∷ items) (r ∷ rs) (a ∷ as_) = Belongs req item r a × Each req items rs as_
  Each req _ _ _ = ⊥

  process_items-Each :
      (req : Request) (mappings : List TypeMapping) (items : List AccessRequestItem)
      (cache : List CachedDecision) (answered : Answered)
      → process_items run eval req mappings items cache ≡ ok answered
      → Each req items answered.results answered.audits
  unfolding process_items
  process_items-Each req mappings [] cache answered done = rw (← ok_injective _ answered done) tt
  process_items-Each req mappings (item ∷ items) cache answered done =
      let (out, one, later) =
        ok_of_bind
          (process_access_item run eval (request_for run eval req mappings item) item cache)
          (λ out.
            process_items run eval req mappings items out.cache
            >>= (λ rest. ok (with_first out rest)))
          answered done in
      let (rest, more, same) =
        ok_of_bind (process_items run eval req mappings items out.cache)
          (λ rest. ok (with_first out rest)) answered later in
      rw (← ok_injective (with_first out rest) answered same) (
        process-Belongs (request_for run eval req mappings item) item cache out one,
        process_items-Each req mappings items out.cache rest more,
      )

-- If `check_access` returns, it returns one result and one audit entry for each item, in the order of
-- the items: the result names the item's action and type, and the entry its action and the caller, and
-- the decision that the entry records is whether the result allows anything.
pub check_access-Each :
    (run : String → Json → Resource → Result (Option Bool)) (eval : String → Json → Result Bool)
    (tables : Tables) (rows : List PrincipalRoles) (caches : Caches) (realm_map : List Entry)
    (ctx : Json) (p : Principal) (role_names : List String) (items : List AccessRequestItem)
    (checked : Checked)
    → check_access run eval tables rows caches realm_map ctx p role_names items ≡ ok checked
    → (realm_id : ℕ) × (read : Read) × (check_access_roles rows caches.roles realm_map p role_names
        ≡ ok read)
      × Each run eval
          (request_of run eval tables realm_id realm_map ctx p read.role_ids)
          items
          checked.answered.results
          checked.answered.audits
unfolding check_access check_items
check_access-Each run eval tables rows caches realm_map ctx p role_names items checked done =
    let with_roles : ℕ → Read → Result Checked =
      check_items run eval tables caches realm_map ctx p items in
    let (realm_id, _, with_realm) =
      ok_of_bind (get_realm_id realm_map)
        (λ i. check_access_roles rows caches.roles realm_map p role_names >>= with_roles i) checked
        done in
    let (read, found, with_read) =
      ok_of_bind (check_access_roles rows caches.roles realm_map p role_names) (with_roles realm_id)
        checked with_realm in
    let resolved =
      batch_resolve_external_ids tables.externals caches.externals realm_id items realm_map in
    let req = request_of run eval tables realm_id realm_map ctx p read.role_ids in
    let (answered, ran, same) =
      ok_of_bind (process_items run eval req resolved.mappings items caches.decisions)
        (λ answered. ok (checked_with run eval resolved read answered)) checked with_read in
    (
      realm_id,
      read,
      found,
      rw (← ok_injective (checked_with run eval resolved read answered) checked same)
          (process_items-Each run eval req resolved.mappings items caches.decisions answered ran),
    )
