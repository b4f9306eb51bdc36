-- ===== src/Policy/Conditions.antt =====
-- alembic/versions/58055ca375cf_add_get_authorization_conditions_.py:
-- `get_authorization_conditions`, which turns the rows of an action into one condition for a query.
pub mod Allows
pub mod Merged
pub mod Rounds
pub mod Exact
pub mod Missing
use stateful_abac_policy_eng.Prelude.{
  String, Bool, true, false, ◌&&◌, ◌||◌, not, Option, none, some, List, [], ◌∷◌, ◌++◌, is_none,
  is_id, any, where_true, ◌==◌, if◌then◌else◌, Result, ok, err, ◌>>=◌,
}
use stateful_abac_policy_eng.Json.{
  Json, str, obj, arr, Items, nil, cons, field, end, json_eq, is_null_json,
}
use stateful_abac_policy_eng.Resolve.{resolve_abac_condition, is_json_bool, group}
use stateful_abac_policy_eng.Policy.{Acl, ExternalId, Query, concerns, is_held}

pub data FilterType : Type 0 where
  granted_all denied_all conditions : FilterType

-- The row that the function returns; its column external_ids is always NULL.
pub record Filter : Type 0 where
  pub filter_type : FilterType
  pub conditions_dsl : Option Json
  pub has_context_refs : Bool

abbrev pub granted : Filter
granted = record { filter_type = granted_all; conditions_dsl = none; has_context_refs = false }

abbrev pub denied : Filter
denied = record { filter_type = denied_all; conditions_dsl = none; has_context_refs = false }

-- `conditions IS NULL OR conditions = 'null'::jsonb`
abbrev pub is_unconditional : Option Json → Bool
is_unconditional none = true
is_unconditional (some j) = is_null_json j

abbrev pub applies : Query → Acl → Bool
applies q a = concerns q a && is_held q a

-- A group of rows with the same conditions: the external ids of their resources, and whether one
-- of the rows is for the whole type.
pub record Group : Type 0 where
  pub conditions : Option Json
  pub resource_ids : List String
  pub is_type_level : Bool

abbrev pub same_conditions : Option Json → Option Json → Bool
same_conditions none none = true
same_conditions (some a) (some b) = json_eq a b
same_conditions _ _ = false

-- the external ids that the LEFT JOIN finds for a row
abbrev joins : Acl → ExternalId → Bool
joins a e =
    is_id a.resource_id e.resource_id
    && (a.realm_id == e.realm_id)
    && (a.resource_type_id == e.resource_type_id)

abbrev pub names : List ExternalId → List String
names [] = []
names (e ∷ es) = e.external_id ∷ names es

abbrev pub external_ids_of : List ExternalId → Acl → List String
external_ids_of externals a = names (where_true (joins a) externals)

-- GROUP BY conditions; the order of the groups, which SQL leaves open, is that of their last rows.
unfoldable pub insert_row : List ExternalId → Acl → List Group → List Group
insert_row externals a [] =
    record {
      conditions = a.conditions;
      resource_ids = external_ids_of externals a;
      is_type_level = is_none a.resource_id;
    }
    ∷ []
insert_row externals a (g ∷ gs) =
    if same_conditions g.conditions a.conditions
    then record g {
      resource_ids = external_ids_of externals a ++ g.resource_ids;
      is_type_level = is_none a.resource_id || g.is_type_level;
    }
      ∷ gs
    else g ∷ insert_row externals a gs

unfoldable pub group_rows : List ExternalId → List Acl → List Group
unfolding insert_row
group_rows externals [] = []
group_rows externals (a ∷ rows) = insert_row externals a (group_rows externals rows)

-- the variables of the loop
pub record Collected : Type 0 where
  pub found : List (Option Json)
  pub unconditional_ids : List String
  pub context_refs : Bool

-- the loop goes on, or the function returns 'granted_all'
pub data Round : Type 0 where
  go_on : Collected → Round
  grant_all : Round

abbrev pub strings : List String → Items
strings [] = nil
strings (s ∷ ss) = cons (str s) (strings ss)

-- `jsonb_build_object('op', op, 'source', 'resource', 'attr', 'external_id', 'val', val)`
abbrev pub id_condition : String → Json → Json
id_condition op val = obj (
    field "op" (str op)
      (field "source" (str "resource") (field "attr" (str "external_id") (field "val" val end))))

abbrev pub both : Json → Option Json → Json
both a b = group "and" (some a ∷ b ∷ [])

-- a condition for the resources with these external ids; with none there is nothing to add
abbrev pub scoped : List String → Option Json → List (Option Json)
scoped [] res = []
scoped (e ∷ []) res = some (both (id_condition "=" (str e)) res) ∷ []
scoped ids res = some (both (id_condition "in" (arr (strings ids))) res) ∷ []

-- `v_res_cond != 'true'::jsonb` as the test of an IF: NULL counts as false.
abbrev pub is_partial : Option Json → Bool
is_partial none = false
is_partial (some j) = not (is_json_bool true (some j))

-- after the loop
abbrev pub with_ids : List (Option Json) → List String → List (Option Json)
with_ids found [] = found
with_ids found ids = found ++ some (id_condition "in" (arr (strings ids))) ∷ []

abbrev pub merged : List (Option Json) → Bool → Filter
merged [] refs = denied
merged (x ∷ []) refs = record {
  filter_type = conditions;
  conditions_dsl = x;
  has_context_refs = refs;
}
merged list refs = record {
  filter_type = conditions;
  conditions_dsl = some (group "or" list);
  has_context_refs = refs;
}

unfoldable pub finish : Collected → Filter
finish c = merged (with_ids c.found c.unconditional_ids) c.context_refs

module _ (render : Json → String) (refers_to_context : Json → Bool) (ctx : Json) where
  abbrev pub context_refs_of : Option Json → Bool
  context_refs_of none = false
  context_refs_of (some j) = refers_to_context j

  -- what one group does once its condition is resolved
  abbrev pub after_resolve : Group → Bool → Option Json → Collected → Round
  after_resolve g valid res c =
      if valid && is_json_bool false res
      then go_on c
      else if valid && is_partial res
      then go_on (record c {
        found = c.found ++ (if g.is_type_level then res ∷ [] else scoped g.resource_ids res);
        context_refs = c.context_refs || context_refs_of g.conditions;
      })
      else if g.is_type_level
      then grant_all
      else go_on (record c { unconditional_ids = c.unconditional_ids ++ g.resource_ids })

  abbrev resolve_group : Group → Result (Option Json)
  resolve_group g =
      if is_unconditional g.conditions
      then ok none
      else resolve_abac_condition render ctx g.conditions

  unfoldable pub handle_group : Group → Collected → Result Round
  handle_group g c = do
    res ← resolve_group g
    ok (after_resolve g (not (is_unconditional g.conditions)) res c)

  abbrev pub continue : Result Round → (Collected → Result Filter) → Result Filter
  continue err k = err
  continue (ok grant_all) k = ok granted
  continue (ok (go_on c)) k = k c

  unfoldable pub collect : List Group → Collected → Result Filter
  unfolding finish handle_group
  collect [] c = ok (finish c)
  collect (g ∷ gs) c = continue (handle_group g c) (collect gs)

  abbrev pub is_blanket : Query → Acl → Bool
  is_blanket q a = applies q a && is_unconditional a.conditions && is_none a.resource_id

  abbrev pub nothing_yet : Collected
  nothing_yet = record { found = []; unconditional_ids = []; context_refs = false }

  -- `get_authorization_conditions`
  unfoldable pub get_authorization_conditions : Query → List Acl → List ExternalId → Result Filter
  unfolding collect group_rows
  get_authorization_conditions q acls externals =
      let loop = collect (group_rows externals (where_true (applies q) acls)) nothing_yet in
      if any (is_blanket q) acls then ok granted else loop
