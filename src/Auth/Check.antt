-- ===== src/Auth/Check.antt =====
-- `AuthService._batch_resolve_external_ids` over all items of a request, and `AuthService.check_access`
-- (common/application/auth_service.py). The code takes the items of a request with more than one in
-- parallel sessions and returns their results in the order of the items; here they are taken in that
-- order, each with the cached decisions that the one before it left. An exception of one item is that
-- of the request.
pub mod Order
use stateful_abac_policy_eng.Prelude.{
  ℕ, String, Bool, true, false, Option, none, some, List, [], ◌∷◌, ◌++◌, ◌==◌, eq_text,
  if◌then◌else◌, Result, ok, err, ◌>>=◌, mem_text,
}
use stateful_abac_policy_eng.Json.{Json}
use stateful_abac_policy_eng.Policy.{Resource, ExternalId}
use stateful_abac_policy_eng.Auth.{Entry, Ids, Principal, principal_id, resolve_ids, get_realm_id}
use stateful_abac_policy_eng.Auth.Roles.{
  PrincipalRoles, CachedRoles, Read, check_access_roles, is_empty,
}
use stateful_abac_policy_eng.Auth.Decisions.{CachedDecision}
use stateful_abac_policy_eng.Auth.Externals.{CachedExternal, Mapping, Resolved, resolve_type}
use stateful_abac_policy_eng.Auth.Access.{
  AccessRequestItem, AccessResponseItem, AuditEntry, Request, Outcome, Tables, process_access_item,
}

-- an entry of `type_name_to_id`, and one of `all_lookups`
pub record TypeName : Type 0 where
  pub name : String
  pub type_id : ℕ

pub record Lookup : Type 0 where
  pub type_id : ℕ
  pub names : List String

pub record Gathered : Type 0 where
  pub type_names : List TypeName
  pub lookups : List Lookup

-- `type_name_to_id[name] = type_id`
abbrev pub put_type : String → ℕ → List TypeName → List TypeName
put_type name id [] = record { name = name; type_id = id } ∷ []
put_type name id (t ∷ ts) =
    let rest = put_type name id ts in
    if eq_text t.name name then record { name = name; type_id = id } ∷ ts else t ∷ rest

-- the inner loop, which appends the external ids that are new
abbrev pub append_new : List String → List String → List String
append_new names [] = names
append_new names (e ∷ es) = append_new (if mem_text e names then names else names ++ e ∷ []) es

abbrev pub put_lookup : ℕ → List String → List Lookup → List Lookup
put_lookup id es [] = record { type_id = id; names = append_new [] es } ∷ []
put_lookup id es (l ∷ ls) =
    let rest = put_lookup id es ls in
    if l.type_id == id
    then record { type_id = id; names = append_new l.names es } ∷ ls
    else l ∷ rest

-- one item; a ValueError of `resolve_ids` is passed over
abbrev pub gather_item : AccessRequestItem → Result Ids → Gathered → Gathered
gather_item item err g = g
gather_item item (ok found) g = record {
  type_names = put_type item.resource_type_name found.type_id g.type_names;
  lookups = put_lookup found.type_id item.external_resource_ids g.lookups;
}

-- the loop over the items
unfoldable pub gather : List Entry → List AccessRequestItem → Gathered → Gathered
unfolding resolve_ids
gather realm_map [] g = g
gather realm_map (item ∷ items) g = gather realm_map items (
    if is_empty item.external_resource_ids
    then g
    else gather_item item (resolve_ids realm_map item.action_name item.resource_type_name) g)

-- `next((name for name, tid in ... if tid == type_id), None)`
abbrev pub first_name : List TypeName → ℕ → Option String
first_name [] id = none
first_name (t ∷ ts) id =
    let rest = first_name ts id in if t.type_id == id then some t.name else rest

-- an entry of the result, and the cache afterwards
pub record TypeMapping : Type 0 where
  pub type_name : String
  pub mapping : List Mapping

pub record AllResolved : Type 0 where
  pub mappings : List TypeMapping
  pub cache : List CachedExternal

abbrev pub add_type : Option String → List Mapping → List TypeMapping → List TypeMapping
add_type none mapping rest = rest
add_type (some name) mapping rest = record { type_name = name; mapping = mapping } ∷ rest

-- The code reads the cache for every type before it asks the table for any; a type has its own keys,
-- so a type may as well be done with before the next.
unfoldable pub resolve_types :
    List ExternalId → List CachedExternal → ℕ → List TypeName → List Lookup → AllResolved
unfolding resolve_type
resolve_types table cache realm_id type_names [] = record { mappings = []; cache = cache }
resolve_types table cache realm_id type_names (l ∷ ls) =
    let here = resolve_type table cache realm_id l.type_id l.names in
    let rest = resolve_types table here.cache realm_id type_names ls in
    record {
      mappings = add_type (first_name type_names l.type_id) here.mapping rest.mappings;
      cache = rest.cache;
    }

-- `_batch_resolve_external_ids`
unfoldable pub batch_resolve_external_ids :
    List ExternalId → List CachedExternal → ℕ → List AccessRequestItem → List Entry → AllResolved
unfolding gather resolve_types
batch_resolve_external_ids table cache realm_id items realm_map =
    let g = gather realm_map items (record { type_names = []; lookups = [] }) in
    resolve_types table cache realm_id g.type_names g.lookups

-- `preresolved_ext_ids.get(type_name, {})`
abbrev pub mapping_of : List TypeMapping → String → List Mapping
mapping_of [] name = []
mapping_of (t ∷ ts) name =
    let rest = mapping_of ts name in if eq_text t.type_name name then t.mapping else rest

-- what Redis holds
pub record Caches : Type 0 where
  pub roles : List CachedRoles
  pub externals : List CachedExternal
  pub decisions : List CachedDecision

-- the results and audit entries of a request, and what Redis holds afterwards
pub record Answered : Type 0 where
  pub results : List AccessResponseItem
  pub audits : List AuditEntry
  pub decisions : List CachedDecision

pub record Checked : Type 0 where
  pub answered : Answered
  pub caches : Caches

module _ (run : String → Json → Resource → Result (Option Bool))
    (eval : String → Json → Result Bool) where
  abbrev pub request_for : Request → List TypeMapping → AccessRequestItem → Request
  request_for req mappings item = record req {
    type_mappings = mapping_of mappings item.resource_type_name;
  }

  -- the items in their order
  unfoldable pub process_items :
      Request → List TypeMapping → List AccessRequestItem → List CachedDecision → Result Answered
  unfolding process_access_item
  process_items req mappings [] cache = ok (record { results = []; audits = []; decisions = cache })
  process_items req mappings (item ∷ items) cache = do
    out ← process_access_item run eval (request_for req mappings item) item cache
    rest ← process_items req mappings items out.cache
    ok (record {
      results = out.result ∷ rest.results;
      audits = out.audit ∷ rest.audits;
      decisions = rest.decisions;
    })

  abbrev pub request_of : Tables → ℕ → List Entry → Json → Principal → List ℕ → Request
  request_of tables realm_id realm_map ctx p role_ids = record {
    tables = tables;
    realm_id = realm_id;
    realm_map = realm_map;
    principal_id = principal_id p;
    role_ids = role_ids;
    ctx = ctx;
    type_mappings = [];
  }

  abbrev pub checked_with : AllResolved → Read → Answered → Checked
  checked_with resolved read answered = record {
    answered = answered;
    caches = record {
      roles = read.cache;
      externals = resolved.cache;
      decisions = answered.decisions;
    };
  }

  -- once the realm and the roles are known
  unfoldable pub check_items :
      Tables
      → Caches
      → List Entry
      → Json
      → Principal
      → List AccessRequestItem
      → ℕ
      → Read
      → Result Checked
  unfolding batch_resolve_external_ids process_items
  check_items tables caches realm_map ctx p items realm_id read =
      let resolved =
        batch_resolve_external_ids tables.externals caches.externals realm_id items realm_map in
      process_items (request_of tables realm_id realm_map ctx p read.role_ids) resolved.mappings
        items caches.decisions
      >>= (λ answered. ok (checked_with resolved read answered))

  -- `check_access`, from the realm map on; `ctx` is the unified context
  unfoldable pub check_access :
      Tables
      → List PrincipalRoles
      → Caches
      → List Entry
      → Json
      → Principal
      → List String
      → List AccessRequestItem
      → Result Checked
  unfolding get_realm_id check_access_roles check_items
  check_access tables rows caches realm_map ctx p role_names items = do
    realm_id ← get_realm_id realm_map
    read ← check_access_roles rows caches.roles realm_map p role_names
    check_items tables caches realm_map ctx p items realm_id read
