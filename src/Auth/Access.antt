-- ===== src/Auth/Access.antt =====
-- `AuthService._process_access_item_with_preresolved` of common/application/auth_service.py: the
-- decision of one item of an access request. An absent list of external ids and an empty one are one
-- here, since the code tests them by their truth; the order of a Python set is that of its list.
mod Items
unfoldable pub use Items.{map_externals, is_blank, chunked_externals}
pub use Items.{
  ReturnType, AccessRequestItem, Answer, AccessResponseItem, AuditEntry, Tables, Request, Outcome,
  Mapped, put, add_mapping, no_mapping, values, external_of, externals_of_ids, wants_decision,
  is_general, answer_of, is_positive, respond, audited, query_of, key_of, distinct_ids,
  type_level_rows, is_external, names_of, select_externals, take, drop, all_externals,
  resource_filter, or_none, or_none_ids, or_next, decision, id_list, allowed, ids,
}
pub mod Cached
mod Chunks
pub mod Grants
pub mod General
pub mod Listed
use Prim.Native.Char.{code}
use Prim.Native.String
use stateful_abac_policy_eng.Prelude.{
  ℕ, String, Bool, true, false, not, ◌&&◌, ◌||◌, Option, none, some, List, [], ◌∷◌, ◌++◌, ◌==◌, leb,
  is_none, eq_text, if◌then◌else◌, Result, ok, err, ◌>>=◌, mem_id, where_true, zero, suc, ◌-◌,
  length, any,
}
use stateful_abac_policy_eng.Json.{Json}
use stateful_abac_policy_eng.Policy.{Acl, ExternalId, Resource, ResourceType, Query}
use stateful_abac_policy_eng.Policy.Resources.{get_authorized_resources, applies}
use stateful_abac_policy_eng.Auth.{Entry, find, Ids, resolve_ids}
use stateful_abac_policy_eng.Auth.Roles.{is_empty}
use stateful_abac_policy_eng.Auth.Decisions.{
  CachedDecision, DecisionKey, decision_key, get_type_level_decision, set_type_level_decision,
}

module _ (run : String → Json → Resource → Result (Option Bool))
    (eval : String → Json → Result Bool) where
  -- one row: empty, or `SELECT 1 WHERE ...`
  abbrev pub row_grants : Json → Option String → Result Bool
  row_grants ctx none = ok true
  row_grants ctx (some sql) = if is_blank sql then ok true else eval sql ctx

  abbrev pub any_grants : Json → List Acl → Result Bool
  any_grants ctx [] = ok false
  any_grants ctx (a ∷ rows) = or_next (row_grants ctx a.compiled_sql) (any_grants ctx rows)

  -- the loop over the rows for the whole type
  abbrev pub type_level_granted : Request → Ids → Result Bool
  type_level_granted req found =
      any_grants req.ctx (type_level_rows (query_of req found) req.tables.acls)

  -- no external id is known: only a row for the whole type can grant
  abbrev pub not_found : Request → AccessRequestItem → List CachedDecision → Bool → Outcome
  not_found req item cache true = record {
    result = respond item (answer_of item.return_type item.external_resource_ids);
    audit = audited req item true none (some item.external_resource_ids);
    cache = cache;
  }
  not_found req item cache false = record {
    result = respond item (answer_of item.return_type []);
    audit = audited req item false none none;
    cache = cache;
  }

  abbrev pub public_outcome :
      Request → AccessRequestItem → List CachedDecision → List String → Outcome
  public_outcome req item cache final = record {
    result = respond item (answer_of item.return_type final);
    audit = audited req item (is_positive (answer_of item.return_type final)) none (or_none final);
    cache = cache;
  }

  -- `final_answer`, from the ids that `get_authorized_resources` returns
  abbrev pub final_answer : Request → AccessRequestItem → Ids → Mapped → List ℕ → List String
  final_answer req item found m authorized =
      if is_empty item.external_resource_ids
      then all_externals (query_of req found) req.tables.externals authorized
      else externals_of_ids m.external_map (where_true (λ id. mem_id id authorized) m.filter_ids)

  -- the fallback to the rows for the whole type
  abbrev pub after_fallback : Request → AccessRequestItem → Ids → Answer → Result Answer
  after_fallback req item found answer =
      if is_general item && not (is_positive answer)
      then type_level_granted req found >>= (λ granted. ok (allowed granted))
      else ok answer

  abbrev pub final_outcome :
      Request → AccessRequestItem → Ids → List CachedDecision → Mapped → List ℕ → Answer → Outcome
  final_outcome req item found cache m authorized answer =
      let final = final_answer req item found m authorized in
      record {
        result = respond item answer;
        audit =
            audited req item (is_positive answer)
              (if is_empty item.external_resource_ids then or_none_ids authorized else none)
              (or_none final);
        cache =
            if is_general item
            then set_type_level_decision cache (key_of req found) (is_positive answer)
            else cache;
      }

  -- from the returned ids on
  abbrev pub finish_sql :
      Request → AccessRequestItem → Ids → List CachedDecision → Mapped → List ℕ → Result Outcome
  finish_sql req item found cache m authorized = do
    answer ←
        after_fallback req item found
          (answer_of item.return_type (final_answer req item found m authorized))
    ok (final_outcome req item found cache m authorized answer)

  -- from the statement that calls `get_authorized_resources` on
  unfoldable pub by_sql :
      Request → AccessRequestItem → Ids → List CachedDecision → Mapped → Result Outcome
  by_sql req item found cache m = do
    rows ←
        get_authorized_resources run req.ctx req.tables.types req.tables.resources req.tables.acls
          (query_of req found) (resource_filter m.filter_ids)
    finish_sql req item found cache m (distinct_ids rows)

  abbrev pub is_public_type : Request → AccessRequestItem → Bool
  is_public_type req item =
      is_true_text (find (String.◌++◌ "type_public:" item.resource_type_name) req.realm_map)
    where
      is_true_text : Option String → Bool
      is_true_text none = false
      is_true_text (some s) = eq_text s "true"

  -- after the check of the cache
  unfoldable pub uncached : Request → AccessRequestItem → Ids → List CachedDecision → Result Outcome
  unfolding by_sql map_externals
  uncached req item found cache =
      let m = map_externals req.type_mappings item.external_resource_ids no_mapping in
      let asked = not (is_empty item.external_resource_ids) in
      if asked && is_empty m.filter_ids
      then type_level_granted req found >>= (λ granted. ok (not_found req item cache granted))
      else if is_public_type req item && asked
      then ok (public_outcome req item cache (values m.external_map))
      else by_sql req item found cache m

  abbrev pub cached_outcome : Request → AccessRequestItem → List CachedDecision → Bool → Outcome
  cached_outcome req item cache b = record {
    result = respond item (allowed b);
    audit = audited req item b none none;
    cache = cache;
  }

  abbrev pub or_cached :
      Request
      → AccessRequestItem
      → List CachedDecision
      → Option Bool
      → Result Outcome
      → Result Outcome
  or_cached req item cache (some b) rest = ok (cached_outcome req item cache b)
  or_cached req item cache none rest = rest

  abbrev pub decide : Request → AccessRequestItem → Ids → List CachedDecision → Result Outcome
  decide req item found cache =
      or_cached req item cache
        (if is_general item then get_type_level_decision cache (key_of req found) else none)
        (uncached req item found cache)

  -- `_process_access_item_with_preresolved`
  unfoldable pub process_access_item :
      Request → AccessRequestItem → List CachedDecision → Result Outcome
  unfolding uncached get_type_level_decision resolve_ids
  process_access_item req item cache = do
    found ← resolve_ids req.realm_map item.action_name item.resource_type_name
    decide req item found cache
