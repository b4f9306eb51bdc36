-- ===== src/Auth/Permitted.antt =====
-- The answer to one item of `AuthService.get_permitted_actions` (common/application/auth_service.py), from
-- the look-up of its type on. A Python set of names is a list without repetition, and an absent list of
-- external ids an empty one.
pub mod Names
use Prim.Native.String
use stateful_abac_policy_eng.Prelude.{
  ℕ, String, Bool, true, false, not, ◌&&◌, ◌||◌, Option, none, some, List, [], ◌∷◌, ◌++◌, ◌==◌,
  eq_text, if◌then◌else◌, Result, ok, err, ◌>>=◌, mem_text, where_true, strip_prefix,
}
use stateful_abac_policy_eng.Json.{Json}
use stateful_abac_policy_eng.Policy.{Acl, Action, ExternalId, Resource, ResourceType, Query}
use stateful_abac_policy_eng.Policy.Permitted.{Permitted, is_blanket, get_permitted_actions_batch}
use stateful_abac_policy_eng.Auth.{Entry, find, int_of}
use stateful_abac_policy_eng.Auth.Roles.{is_empty}

-- common/schemas/auth.py
pub record GetPermittedActionsItem : Type 0 where
  pub resource_type_name : String
  pub external_resource_ids : List String

pub record PermittedActionsResponseItem : Type 0 where
  pub resource_type_name : String
  pub external_resource_id : Option String
  pub actions : List String

-- an entry of `action_id_to_name`, whose latest entry for an id counts
pub record ActionName : Type 0 where
  pub id : ℕ
  pub name : String

abbrev add_action : Option String → String → List ActionName → Result (List ActionName)
add_action none text known = ok known
add_action (some name) text known = do n ← int_of text; ok (record { id = n; name = name } ∷ known)

-- the loop over the keys of the realm map
unfoldable pub action_names : List Entry → List ActionName → Result (List ActionName)
unfolding strip_prefix int_of
action_names [] known = ok known
action_names (e ∷ es) known = do
  more ← add_action (strip_prefix "action:" e.key) e.text known
  action_names es more

-- `action_id_to_name.get(id)`
abbrev pub name_of : List ActionName → ℕ → Option String
name_of [] id = none
name_of (a ∷ known) id = let rest = name_of known id in if a.id == id then some a.name else rest

abbrev type_id_of : Option String → Option ℕ
type_id_of none = none
type_id_of (some s) = if eq_text s "" then none else number (int_of s)
  where
    number : Result ℕ → Option ℕ
    number err = none
    number (ok n) = some n

-- `set.add(name)`
abbrev pub add_name : String → List String → List String
add_name name names = if mem_text name names then names else name ∷ names

-- an entry of `resource_actions`
pub record ResourceActions : Type 0 where
  pub resource_id : ℕ
  pub names : List String

-- `if id not in resource_actions: ... = set()`, and `resource_actions[id].add(name)`
abbrev pub add_resource_action : ℕ → String → List ResourceActions → List ResourceActions
add_resource_action id name [] = record { resource_id = id; names = name ∷ [] } ∷ []
add_resource_action id name (r ∷ rs) =
    let rest = add_resource_action id name rs in
    if r.resource_id == id
    then record { resource_id = id; names = add_name name r.names } ∷ rs
    else r ∷ rest

-- `resource_actions[id]`, or nothing for an id that is no key
abbrev pub actions_at : List ResourceActions → ℕ → List String
actions_at [] id = []
actions_at (r ∷ rs) id =
    let rest = actions_at rs id in if r.resource_id == id then r.names else rest

pub record Collected : Type 0 where
  pub type_level_actions : List String
  pub resource_actions : List ResourceActions

-- one row of the batch
abbrev pub collect_row : Option String → Permitted → Collected → Collected
collect_row none row c = c
collect_row (some name) row c =
    if eq_text name ""
    then c
    else if row.is_type_level
    then record c { type_level_actions = add_name name c.type_level_actions }
    else record c { resource_actions = add_resource_action row.resource_id name c.resource_actions }

-- the loop over the rows of the batch
unfoldable pub collect_rows : List ActionName → List Permitted → Collected → Collected
collect_rows known [] c = c
collect_rows known (row ∷ rows) c =
    collect_rows known rows (collect_row (name_of known row.action_id) row c)

-- `FROM external_ids WHERE ... AND external_id = ANY(:exts)`
abbrev pub named_rows : Query → List String → List ExternalId → List ExternalId
named_rows q asked externals =
    where_true
      (λ x.
        (x.realm_id == q.realm_id)
        && (x.resource_type_id == q.resource_type_id)
        && mem_text x.external_id asked)
      externals

-- `external_to_internal.get(ext)`, over the rows that were found
abbrev pub internal_of : List ExternalId → String → Option ℕ
internal_of [] e = none
internal_of (x ∷ xs) e =
    let rest = internal_of xs e in if eq_text x.external_id e then some x.resource_id else rest

abbrev pub internal_ids : List ExternalId → List ℕ
internal_ids [] = []
internal_ids (x ∷ xs) = x.resource_id ∷ internal_ids xs

-- the names of the actions with the id, which the JOIN finds
abbrev pub joined_names : List Action → ℕ → List String → List String
joined_names [] id names = names
joined_names (a ∷ actions) id names =
    let rest = joined_names actions id names in if a.id == id then add_name a.name rest else rest

-- `SELECT DISTINCT a.name ... WHERE acl.resource_id IS NULL ...`
abbrev pub type_level_names : List Action → List Acl → List String
type_level_names actions [] = []
type_level_names actions (a ∷ acls) =
    joined_names actions a.action_id (type_level_names actions acls)

-- `actions |= resource_actions[id]`
abbrev pub union : List String → List String → List String
union [] names = names
union (n ∷ ns) names = add_name n (union ns names)

-- `if internal_id and internal_id in resource_actions`
abbrev pub actions_of_resource : Option ℕ → List ResourceActions → List String
actions_of_resource none rs = []
actions_of_resource (some id) rs = if id == 0 then [] else actions_at rs id

abbrev pub respond_one :
    GetPermittedActionsItem → Collected → List ExternalId → String → PermittedActionsResponseItem
respond_one item c named e = record {
  resource_type_name = item.resource_type_name;
  external_resource_id = some e;
  actions =
      union (actions_of_resource (internal_of named e) c.resource_actions) c.type_level_actions;
}

abbrev pub respond_each :
    GetPermittedActionsItem
    → Collected
    → List ExternalId
    → List String
    → List PermittedActionsResponseItem
respond_each item c named [] = []
respond_each item c named (e ∷ es) = respond_one item c named e ∷ respond_each item c named es

abbrev pub respond_type : GetPermittedActionsItem → List String → PermittedActionsResponseItem
respond_type item actions = record {
  resource_type_name = item.resource_type_name;
  external_resource_id = none;
  actions = actions;
}

-- the answer when the type is unknown
abbrev pub nothing_permitted :
    GetPermittedActionsItem → List String → List PermittedActionsResponseItem
nothing_permitted item [] = respond_type item [] ∷ []
nothing_permitted item names = each names
  where
    each : List String → List PermittedActionsResponseItem
    each [] = []
    each (e ∷ es) =
        record {
          resource_type_name = item.resource_type_name;
          external_resource_id = some e;
          actions = [];
        }
        ∷ each es

-- the tables that the statements read
pub record Tables : Type 0 where
  pub types : List ResourceType
  pub actions : List Action
  pub resources : List Resource
  pub acls : List Acl
  pub externals : List ExternalId

module _ (eval : String → Json → Result Bool) (ctx : Json) (tables : Tables) where
  -- `if internal_ids:`, the rows of the batch
  abbrev pub batch_rows : Query → List ℕ → List Permitted
  batch_rows q [] = []
  batch_rows q (id ∷ rest) =
      get_permitted_actions_batch eval ctx tables.types tables.actions tables.resources tables.acls
        q (some (id ∷ rest))

  abbrev pub collected : Query → List ActionName → List ExternalId → Collected
  collected q known named = collect_rows known (batch_rows q (internal_ids named)) (record {
    type_level_actions = type_level_names tables.actions (where_true (is_blanket q) tables.acls);
    resource_actions = [];
  })

  -- the item, once its type is known
  unfoldable pub respond_known :
      Query → List ActionName → GetPermittedActionsItem → List PermittedActionsResponseItem
  unfolding collect_rows
  respond_known q known item =
      let named = named_rows q item.external_resource_ids tables.externals in
      let c = collected q known named in
      if is_empty item.external_resource_ids
      then respond_type item c.type_level_actions ∷ []
      else respond_each item c named item.external_resource_ids

  abbrev for_type :
      Query
      → List ActionName
      → GetPermittedActionsItem
      → Option ℕ
      → List PermittedActionsResponseItem
  for_type q known item none = nothing_permitted item item.external_resource_ids
  for_type q known item (some type_id) =
      respond_known (record q { resource_type_id = type_id }) known item

  -- one round of the loop over the items
  unfoldable pub permitted_actions_of :
      Query
      → List Entry
      → List ActionName
      → GetPermittedActionsItem
      → List PermittedActionsResponseItem
  unfolding respond_known int_of
  permitted_actions_of q realm_map known item =
      for_type q known item
        (type_id_of (find (String.◌++◌ "type:" item.resource_type_name) realm_map))
