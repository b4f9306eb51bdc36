-- ===== src/Policy/Permitted.antt =====
-- `get_permitted_actions_batch` of alembic/versions/5_get_permitted_actions_batch.py. `eval` is PostgreSQL's
-- evaluation of `SELECT 1 WHERE` a stored clause with the context bound: it raises, or tells
-- whether there is a row. PL/pgSQL's FOUND is part of the state: SELECT INTO and RETURN QUERY set
-- it, EXECUTE does not.
pub mod Blind
use stateful_abac_policy_eng.Prelude.{
  ℕ, String, Bool, true, false, not, ◌&&◌, ◌||◌, Option, none, some, List, [], ◌∷◌, ◌++◌, ◌==◌,
  is_none, if◌then◌else◌, Result, ok, err, mem_id, where_true,
}
use stateful_abac_policy_eng.Json.{Json}
use stateful_abac_policy_eng.Policy.{Acl, Action, Resource, ResourceType, Query, is_held_or_open}
use stateful_abac_policy_eng.Policy.Resources.{
  is_empty_sql, is_true_sql, is_public, in_filter, of_type,
}

-- a row that the function returns
pub record Permitted : Type 0 where
  pub resource_id : ℕ
  pub action_id : ℕ
  pub is_type_level : Bool

-- `array_agg(DISTINCT a.id)` of the actions of the realm
abbrev pub action_ids : ℕ → List Action → List ℕ
action_ids realm_id [] = []
action_ids realm_id (a ∷ actions) =
    let rest = action_ids realm_id actions in
    if (a.realm_id == realm_id) && not (mem_id a.id rest) then a.id ∷ rest else rest

-- `SELECT r.id, unnest(ids), FALSE`
abbrev pub every_action : ℕ → List ℕ → List Permitted
every_action id [] = []
every_action id (a ∷ ids) =
    record { resource_id = id; action_id = a; is_type_level = false } ∷ every_action id ids

abbrev pub public_rows : List ℕ → List Resource → List Permitted
public_rows ids [] = []
public_rows ids (r ∷ rs) = every_action r.id ids ++ public_rows ids rs

-- the rows of the realm and type that the caller holds, whatever their action
abbrev pub is_held_for_type : Query → Acl → Bool
is_held_for_type q a =
    (a.realm_id == q.realm_id) && (a.resource_type_id == q.resource_type_id) && is_held_or_open q a

-- the condition of the second level
abbrev pub is_blanket : Query → Acl → Bool
is_blanket q a =
    is_none a.resource_id
    && (is_empty_sql a.compiled_sql || is_true_sql a.compiled_sql)
    && is_held_for_type q a

abbrev pub blanket_row : ℕ → List Resource → List Permitted
blanket_row action_id [] = []
blanket_row action_id (r ∷ rs) =
    record { resource_id = r.id; action_id = action_id; is_type_level = true }
    ∷ blanket_row action_id rs

-- the CROSS JOIN of the rows with the resources
abbrev pub blanket_rows : List Acl → List Resource → List Permitted
blanket_rows [] rs = []
blanket_rows (a ∷ acls) rs = blanket_row a.action_id rs ++ blanket_rows acls rs

abbrev pub has_rows : List Permitted → Bool
has_rows [] = false
has_rows (p ∷ ps) = true

abbrev pub granted : ℕ → ℕ → Permitted
granted resource_id action_id = record {
  resource_id = resource_id;
  action_id = action_id;
  is_type_level = false;
}

-- `resource_id IS NOT NULL`, and within the filter
abbrev pub is_within : Option (List ℕ) → Option ℕ → Bool
is_within filter none = false
is_within filter (some id) = in_filter filter id

abbrev pub add_row : Option ℕ → ℕ → List Permitted → List Permitted
add_row none action_id rest = rest
add_row (some id) action_id rest = granted id action_id ∷ rest

module _ (eval : String → Json → Result Bool) (ctx : Json) where
  -- `EXECUTE ...` followed by `IF FOUND`: what the statement finds is not asked, only whether it raises
  abbrev pub passes_execute : Option String → Bool → Bool
  passes_execute none found = found
  passes_execute (some sql) found = is_ok (eval sql ctx) && found
    where
      is_ok : Result Bool → Bool
      is_ok (ok b) = true
      is_ok err = false

  -- one row of the third level: is it returned?
  unfoldable pub returns_row : Option String → Bool → Bool
  unfolding is_empty_sql
  returns_row sql found = if is_empty_sql sql then true else passes_execute sql found

  -- the loop of the third level, with FOUND
  unfoldable pub resource_rows : Query → Option (List ℕ) → Bool → List Acl → List Permitted
  unfolding returns_row
  resource_rows q filter found [] = []
  resource_rows q filter found (a ∷ acls) =
      let skipped = resource_rows q filter found acls in
      let after_return = resource_rows q filter true acls in
      if is_held_for_type q a && is_within filter a.resource_id && returns_row a.compiled_sql found
      then add_row a.resource_id a.action_id after_return
      else skipped

  -- `get_permitted_actions_batch`
  unfoldable pub get_permitted_actions_batch :
      List ResourceType
      → List Action
      → List Resource
      → List Acl
      → Query
      → Option (List ℕ)
      → List Permitted
  unfolding resource_rows is_empty_sql is_true_sql
  get_permitted_actions_batch types actions resources acls q filter =
      let asked = where_true (λ r. of_type q r && in_filter filter r.id) resources in
      let blanket = blanket_rows (where_true (is_blanket q) acls) asked in
      if is_public types q.resource_type_id
      then public_rows (action_ids q.realm_id actions) asked
      else blanket ++ resource_rows q filter (has_rows blanket) acls
