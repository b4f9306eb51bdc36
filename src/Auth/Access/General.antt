-- ===== src/Auth/Access/General.antt =====
-- What decides an item that names no resource.
use stateful_abac_policy_eng.Prelude.{
  Every, ℕ, String, Bool, true, false, ◌&&◌, ◌||◌, Option, none, some, List, ◌∷◌, ◌++◌, ◌==◌, ◌≡◌,
  refl, ap, ◌∙◌, arith, Result, ok, err, ◌>>=◌, ap₂, any, mem_id, length, any-same,
}
use stateful_abac_policy_eng.Json.{Json}
use stateful_abac_policy_eng.Policy.{Acl, Resource, ExternalId, Query}
use stateful_abac_policy_eng.Policy.Resources.{is_true_sql}
use stateful_abac_policy_eng.Policy.Resources.Exact.{get_authorized_resources-exact, is_authorized}
use stateful_abac_policy_eng.Auth.{Ids, resolve_ids}
use stateful_abac_policy_eng.Auth.Decisions.{CachedDecision, get_type_level_decision}
use stateful_abac_policy_eng.Auth.Access.{
  Request, Outcome, allowed, key_of, query_of, respond, type_level_granted, process_access_item,
  distinct_ids, is_external, or_next, any_grants, type_level_rows, is_blank,
}
use stateful_abac_policy_eng.Auth.Access.Chunks.{chunked_externals-any, mem_id-distinct_ids}
use stateful_abac_policy_eng.Auth.Access.Grants.{
  Evaluates, grants_by, any_grants-any, any_grants-raises, or_next-ok,
}
use stateful_abac_policy_eng.Auth.Access.Cached.{
  general_item, uncached-general, after_fallback-allowed, has_names, final,
}

-- an external id of the type that names one of the resources with `test`
abbrev pub names_one : Query → List Resource → (Resource → Bool) → ExternalId → Bool
names_one q resources test x =
    (x.realm_id == q.realm_id)
    && (x.resource_type_id == q.resource_type_id)
    && any (λ r. (r.id == x.resource_id) && test r) resources

third_part : (a b c d : Bool) → c ≡ d → (a && b && c) ≡ (a && b && d)
third_part a b c d h = ground arith

module _ (run : String → Json → Resource → Result (Option Bool))
    (eval : String → Json → Result Bool) (action_name type_name : String) where
  has_names-any :
      (req : Request) (found : Ids) (rows : List ℕ) (test : Resource → Bool)
      → ((n : ℕ) → mem_id n rows ≡ any (λ r. (r.id == n) && test r) req.tables.resources)
      → has_names run eval action_name type_name req found rows
        ≡ any (names_one (query_of req found) req.tables.resources test) req.tables.externals
  has_names-any req found rows test h =
      let q = query_of req found in
      chunked_externals-any (length (distinct_ids rows)) 29999 q req.tables.externals
        (distinct_ids rows) (omega arith)
      ∙ any-same (is_external q (distinct_ids rows)) (names_one q req.tables.resources test)
          req.tables.externals
          (λ x.
            third_part (x.realm_id == q.realm_id) (x.resource_type_id == q.resource_type_id) _ _
              (mem_id-distinct_ids x.resource_id rows ∙ h x.resource_id))

-- An item that asks for a decision and names no resource, whose action and type the realm map has
-- and for which no decision is cached.
module _ (run : String → Json → Resource → Result (Option Bool))
    (eval : String → Json → Result Bool) (action_name type_name : String) (req : Request)
    (cache : List CachedDecision) (found : Ids) (value : String → Resource → Option Bool)
    (runs : (sql : String) (r : Resource) → run sql req.ctx r ≡ ok (value sql r))
    (true_holds : (sql : String) (r : Resource)
      → is_true_sql (some sql) ≡ true
      → value sql r ≡ some true)
    (resolved : resolve_ids req.realm_map action_name type_name ≡ ok found)
    (cold : get_type_level_decision cache (key_of req found) ≡ none) where
  -- some external id of the type names an authorized resource
  abbrev pub names_authorized : Bool
  names_authorized =
      any
        (names_one (query_of req found) req.tables.resources (
          is_authorized run req.ctx value runs req.tables.types req.tables.acls (query_of req found)
            none))
        req.tables.externals

  -- What is left to do once `get_authorized_resources` has returned.
  general_steps :
      (rows : List ℕ) × (has_names run eval action_name type_name req found rows ≡ names_authorized)
      × (process_access_item run eval req (general_item action_name type_name) cache ≡ (
          or_next (ok names_authorized) (type_level_granted run eval req found)
          >>= (λ granted. ok (allowed granted))
          >>= (λ answer. ok (final run eval action_name type_name req found cache rows answer))))
  unfolding process_access_item
  general_steps =
      let (rows, ran, same) =
        get_authorized_resources-exact run req.ctx value runs true_holds req.tables.types
          req.tables.resources req.tables.acls (query_of req found) none in
      let named : has_names run eval action_name type_name req found rows ≡ names_authorized =
        has_names-any run eval action_name type_name req found rows _ same in
      (
        rows,
        named,
        rw (resolved, cold, uncached-general run eval action_name type_name req found cache, ran)
            (ap
              (λ r. r >>= (λ answer.
                ok (final run eval action_name type_name req found cache rows answer)))
              (after_fallback-allowed run eval action_name type_name req found
                  (has_names run eval action_name type_name req found rows)
                ∙ ap
                    (λ b.
                      or_next (ok b) (type_level_granted run eval req found)
                      >>= (λ granted. ok (allowed granted)))
                    named)),
      )

-- For an item that asks for a decision and names no resource, whose action and type the realm map has and
-- for which no decision is cached, with stored clauses that raise no exception on a resource, give
-- `value` there, and are true everywhere where they read TRUE, and with clauses of the rows for the
-- whole type that raise none by themselves and give `holds`: the code returns an answer, and the answer is true exactly if some external id of the type names an authorized
-- resource (one of the type that is public or that an applying row lets through), or some row for the
-- whole type that the caller holds has a blank clause or one that holds by itself.
pub process_access_item-general :
    (run : String → Json → Resource → Result (Option Bool)) (eval : String → Json → Result Bool)
    (action_name type_name : String) (req : Request) (cache : List CachedDecision) (found : Ids)
    (value : String → Resource → Option Bool)
    (runs : (sql : String) (r : Resource) → run sql req.ctx r ≡ ok (value sql r))
    (true_holds : (sql : String) (r : Resource)
      → is_true_sql (some sql) ≡ true
      → value sql r ≡ some true)
    (holds : String → Bool)
    → Every
        (λ a. Evaluates eval req.ctx holds a.compiled_sql)
        (type_level_rows (query_of req found) req.tables.acls)
    → resolve_ids req.realm_map action_name type_name ≡ ok found
    → get_type_level_decision cache (key_of req found) ≡ none
    → (out : Outcome) × (process_access_item run eval req (general_item action_name type_name) cache
        ≡ ok out)
      × (out.result
          ≡ respond (general_item action_name type_name) (
              allowed (
                any
                  (names_one (query_of req found) req.tables.resources (
                    is_authorized run req.ctx value runs req.tables.types req.tables.acls
                      (query_of req found)
                      none))
                  req.tables.externals
                || any
                    (λ a. grants_by holds a.compiled_sql)
                    (type_level_rows (query_of req found) req.tables.acls))))
process_access_item-general run eval action_name type_name req cache found value runs true_holds
      holds evaluate resolved cold =
    let (rows, named, steps) =
      general_steps run eval action_name type_name req cache found value runs true_holds resolved
        cold in
    let authorized =
      names_authorized run eval action_name type_name req cache found value runs true_holds resolved
        cold in
    let by_row =
      any (λ a. grants_by holds a.compiled_sql)
        (type_level_rows (query_of req found) req.tables.acls) in
    let granted : or_next (ok authorized) (type_level_granted run eval req found)
        ≡ ok (authorized || by_row) =
      ap (or_next (ok authorized)) (
        any_grants-any run eval req.ctx holds (type_level_rows (query_of req found) req.tables.acls)
          evaluate)
      ∙ or_next-ok authorized by_row in
    (
      final run eval action_name type_name req found cache rows (allowed (authorized || by_row)),
      steps
          ∙ ap
              (λ r. r >>= (λ granted. ok (allowed granted)) >>= (λ answer.
                ok (final run eval action_name type_name req found cache rows answer)))
              granted,
      refl,
    )

-- For an item that asks for a decision and names no resource, whose action and type the realm map has
-- and for which no decision is cached, with stored clauses that raise no exception on a resource and are
-- true everywhere where they read TRUE: if no external id of the type names an authorized resource, and
-- the clause of one row for the whole type is not blank and raises by itself, and the rows for the
-- whole type before it do not grant, then the code raises, whatever rows follow, one without a condition
-- among them.
pub process_access_item-raises :
    (run : String → Json → Resource → Result (Option Bool)) (eval : String → Json → Result Bool)
    (action_name type_name : String) (req : Request) (cache : List CachedDecision) (found : Ids)
    (value : String → Resource → Option Bool)
    (runs : (sql : String) (r : Resource) → run sql req.ctx r ≡ ok (value sql r))
    (true_holds : (sql : String) (r : Resource)
      → is_true_sql (some sql) ≡ true
      → value sql r ≡ some true)
    (before after : List Acl) (a : Acl) (sql : String)
    → resolve_ids req.realm_map action_name type_name ≡ ok found
    → get_type_level_decision cache (key_of req found) ≡ none
    → any
        (names_one (query_of req found) req.tables.resources (
          is_authorized run req.ctx value runs req.tables.types req.tables.acls
            (query_of req found)
            none))
        req.tables.externals
      ≡ false
    → type_level_rows (query_of req found) req.tables.acls ≡ before ++ a ∷ after
    → any_grants run eval req.ctx before ≡ ok false
    → a.compiled_sql ≡ some sql
    → is_blank sql ≡ false
    → eval sql req.ctx ≡ err
    → process_access_item run eval req (general_item action_name type_name) cache ≡ err
process_access_item-raises run eval action_name type_name req cache found value runs true_holds
      before after a sql resolved cold nameless at passed clause filled raises =
    let (rows, named, steps) =
      general_steps run eval action_name type_name req cache found value runs true_holds resolved
        cold in
    let fails : type_level_granted run eval req found ≡ err =
      ap (any_grants run eval req.ctx) at
      ∙ any_grants-raises run eval req.ctx before after a sql passed clause filled raises in
    steps
    ∙ ap₂
        (λ b r.
          or_next (ok b) r
          >>= (λ granted. ok (allowed granted))
          >>= (λ answer. ok (final run eval action_name type_name req found cache rows answer)))
        nameless fails
