-- ===== src/Auth/Access/Items.antt =====
-- An item of an access request, its answer and its audit entry (common/schemas/auth.py and
-- common/services/audit.py), and the parts of `_process_access_item_with_preresolved` that evaluate
-- no stored clause: the mapping of external ids, the key of the cache and the chunked reverse lookup.
use Prim.Native.Char.{code}
use stateful_abac_policy_eng.Prelude.{
  ℕ, String, Bool, true, false, not, ◌&&◌, ◌||◌, Option, none, some, List, [], ◌∷◌, ◌++◌, ◌==◌, leb,
  is_none, if◌then◌else◌, Result, ok, err, mem_id, where_true, zero, suc, length,
}
use stateful_abac_policy_eng.Json.{Json}
use stateful_abac_policy_eng.Policy.{Acl, ExternalId, Resource, ResourceType, Query}
use stateful_abac_policy_eng.Policy.Resources.{applies}
use stateful_abac_policy_eng.Auth.{Entry, Ids}
use stateful_abac_policy_eng.Auth.Externals.{Mapping, mapped_id}
use stateful_abac_policy_eng.Auth.Roles.{is_empty}
use stateful_abac_policy_eng.Auth.Decisions.{CachedDecision, DecisionKey, decision_key}

-- common/schemas/auth.py
pub data ReturnType : Type 0 where
  decision id_list : ReturnType

pub record AccessRequestItem : Type 0 where
  pub action_name : String
  pub resource_type_name : String
  pub return_type : ReturnType
  pub external_resource_ids : List String

-- `answer`: a truth value or the external ids
pub data Answer : Type 0 where
  allowed : Bool → Answer
  ids : List String → Answer

pub record AccessResponseItem : Type 0 where
  pub action_name : String
  pub resource_type_name : String
  pub answer : Answer

-- common/services/audit.py
pub record AuditEntry : Type 0 where
  pub realm_id : ℕ
  pub principal_id : ℕ
  pub action_name : String
  pub resource_type_name : String
  pub decision : Bool
  pub resource_ids : Option (List ℕ)
  pub external_resource_ids : Option (List String)

-- the tables that the statements read
pub record Tables : Type 0 where
  pub types : List ResourceType
  pub resources : List Resource
  pub acls : List Acl
  pub externals : List ExternalId

-- the arguments beside the item
pub record Request : Type 0 where
  pub tables : Tables
  pub realm_id : ℕ
  pub realm_map : List Entry
  pub principal_id : ℕ
  pub role_ids : List ℕ
  pub ctx : Json
  pub type_mappings : List Mapping

-- the result, the audit entry, and the cached decisions afterwards
pub record Outcome : Type 0 where
  pub result : AccessResponseItem
  pub audit : AuditEntry
  pub cache : List CachedDecision

-- `internal_ids_filter` and `external_map`, a dict in the order of its first insertions
pub record Mapped : Type 0 where
  pub filter_ids : List ℕ
  pub external_map : List Mapping

-- `external_map[res_id] = ext_str`
abbrev pub put : ℕ → String → List Mapping → List Mapping
put id e [] = record { external_id = e; resource_id = id } ∷ []
put id e (n ∷ ns) =
    let rest = put id e ns in
    if n.resource_id == id then record { external_id = e; resource_id = id } ∷ ns else n ∷ rest

abbrev pub add_mapping : Option ℕ → String → Mapped → Mapped
add_mapping none e m = m
add_mapping (some id) e m = record {
  filter_ids = m.filter_ids ++ id ∷ [];
  external_map = put id e m.external_map;
}

-- the loop over `item.external_resource_ids`
unfoldable pub map_externals : List Mapping → List String → Mapped → Mapped
map_externals known [] m = m
map_externals known (e ∷ es) m = map_externals known es (add_mapping (mapped_id known e) e m)

abbrev pub no_mapping : Mapped
no_mapping = record { filter_ids = []; external_map = [] }

abbrev pub values : List Mapping → List String
values [] = []
values (n ∷ ns) = n.external_id ∷ values ns

-- `external_map[mid]`
abbrev pub external_of : List Mapping → ℕ → List String
external_of [] id = []
external_of (n ∷ ns) id =
    let rest = external_of ns id in if n.resource_id == id then n.external_id ∷ [] else rest

abbrev pub externals_of_ids : List Mapping → List ℕ → List String
externals_of_ids m [] = []
externals_of_ids m (id ∷ rest) = external_of m id ++ externals_of_ids m rest

-- `not s.strip()`, for the ASCII white space
unfoldable pub is_blank : String → Bool
is_blank String.[] = true
is_blank (String.◌∷◌ c s) =
    ((leb 9 (code c) && leb (code c) 13) || (leb 28 (code c) && leb (code c) 32)) && is_blank s

abbrev pub or_none : List String → Option (List String)
or_none [] = none
or_none names = some names

abbrev pub or_none_ids : List ℕ → Option (List ℕ)
or_none_ids [] = none
or_none_ids found = some found

abbrev pub wants_decision : ReturnType → Bool
wants_decision decision = true
wants_decision id_list = false

-- `item.return_type == 'decision' and not item.external_resource_ids`
abbrev pub is_general : AccessRequestItem → Bool
is_general item = wants_decision item.return_type && is_empty item.external_resource_ids

-- `len(names) > 0 if item.return_type == 'decision' else names`
abbrev pub answer_of : ReturnType → List String → Answer
answer_of decision names = allowed (not (is_empty names))
answer_of id_list names = ids names

-- `bool(answer) if isinstance(answer, bool) else len(answer) > 0`
abbrev pub is_positive : Answer → Bool
is_positive (allowed b) = b
is_positive (ids names) = not (is_empty names)

abbrev pub respond : AccessRequestItem → Answer → AccessResponseItem
respond item answer = record {
  action_name = item.action_name;
  resource_type_name = item.resource_type_name;
  answer = answer;
}

abbrev pub audited :
    Request → AccessRequestItem → Bool → Option (List ℕ) → Option (List String) → AuditEntry
audited req item granted resource_ids names = record {
  realm_id = req.realm_id;
  principal_id = req.principal_id;
  action_name = item.action_name;
  resource_type_name = item.resource_type_name;
  decision = granted;
  resource_ids = resource_ids;
  external_resource_ids = names;
}

abbrev pub query_of : Request → Ids → Query
query_of req found = record {
  realm_id = req.realm_id;
  principal_id = req.principal_id;
  role_ids = req.role_ids;
  resource_type_id = found.type_id;
  action_id = found.action_id;
}

abbrev pub key_of : Request → Ids → DecisionKey
key_of req found =
    decision_key req.realm_id req.principal_id found.type_id found.action_id req.role_ids

-- `set(...)`
abbrev pub distinct_ids : List ℕ → List ℕ
distinct_ids [] = []
distinct_ids (n ∷ ns) = let rest = distinct_ids ns in if mem_id n rest then rest else n ∷ rest

-- `SELECT compiled_sql FROM acl WHERE ... AND resource_id IS NULL ...`
abbrev pub type_level_rows : Query → List Acl → List Acl
type_level_rows q acls = where_true (λ a. applies q a && is_none a.resource_id) acls

-- `SELECT external_id FROM external_ids WHERE ... AND resource_id IN :ids`
abbrev pub is_external : Query → List ℕ → ExternalId → Bool
is_external q chunk x =
    (x.realm_id == q.realm_id)
    && (x.resource_type_id == q.resource_type_id)
    && mem_id x.resource_id chunk

abbrev pub names_of : List ExternalId → List String
names_of [] = []
names_of (x ∷ xs) = x.external_id ∷ names_of xs

abbrev pub select_externals : Query → List ExternalId → List ℕ → List String
select_externals q externals chunk = names_of (where_true (is_external q chunk) externals)

abbrev pub take : ℕ → List ℕ → List ℕ
take zero ns = []
take (suc k) [] = []
take (suc k) (n ∷ ns) = n ∷ take k ns

abbrev pub drop : ℕ → List ℕ → List ℕ
drop zero ns = ns
drop (suc k) [] = []
drop (suc k) (n ∷ ns) = drop k ns

-- the loop over the chunks of `ids_list`; each takes one id at least, so the length is fuel enough
unfoldable pub chunked_externals : ℕ → ℕ → Query → List ExternalId → List ℕ → List String
chunked_externals zero size q externals found = []
chunked_externals (suc fuel) size q externals [] = []
chunked_externals (suc fuel) size q externals (n ∷ ns) =
    let rest = chunked_externals fuel size q externals (drop size (n ∷ ns)) in
    select_externals q externals (take size (n ∷ ns)) ++ rest

abbrev pub all_externals : Query → List ExternalId → List ℕ → List String
all_externals q externals found = chunked_externals (length found) 30000 q externals found

-- `internal_ids_filter if internal_ids_filter else None`
abbrev pub resource_filter : List ℕ → Option (List ℕ)
resource_filter [] = none
resource_filter found = some found

-- one row of the loop over the rows for the whole type: a row that grants ends it. Where an evaluation
-- raises, the handler names `logger`, which the module does not define, and so it raises too.
abbrev pub or_next : Result Bool → Result Bool → Result Bool
or_next (ok true) rest = ok true
or_next (ok false) rest = rest
or_next err rest = err
