-- ===== src/Policy/Resources.antt =====
-- `get_authorized_resources`: the version of alembic/versions/3_auth_resource_filter.py and the one of
-- alembic/versions/130e5b6db576_add_type_level_acl_short_circuit_.py, which replaces it. The rows of
-- the tables are lists, and `run` is PostgreSQL's evaluation of a stored WHERE clause on a resource,
-- with the context bound where the clause says p_ctx: it raises, or gives a truth value or NULL.
pub mod Ids
pub mod Picked
pub mod Exact
use stateful_abac_policy_eng.Prelude.{
  ℕ, String, Bool, true, false, ◌&&◌, ◌||◌, Option, none, some, List, [], ◌∷◌, ◌++◌, is_none, is_id,
  any, mem_id, where_true, ◌==◌, eq_text, if◌then◌else◌, Result, ok, err, ◌>>=◌, upper, trim,
}
use stateful_abac_policy_eng.Json.{Json}
use stateful_abac_policy_eng.Policy.{Acl, Resource, ResourceType, Query, concerns, is_held_or_open}

-- `compiled_sql IS NULL OR trim(compiled_sql) = ''`
unfoldable pub is_empty_sql : Option String → Bool
unfolding trim
is_empty_sql none = true
is_empty_sql (some sql) = eq_text (trim sql) ""

-- `upper(trim(compiled_sql)) = 'TRUE'`
unfoldable pub is_true_sql : Option String → Bool
unfolding trim upper
is_true_sql none = false
is_true_sql (some sql) = eq_text (upper (trim sql)) "TRUE"

-- `SELECT rt.is_public INTO v_is_public`: with no row NULL, which an IF takes for false
abbrev pub is_public : List ResourceType → ℕ → Bool
is_public [] type_id = false
is_public (t ∷ ts) type_id = if t.id == type_id then t.is_public else is_public ts type_id

-- `p_resource_ids IS NULL OR resource.id = ANY(p_resource_ids)`
abbrev pub in_filter : Option (List ℕ) → ℕ → Bool
in_filter none id = true
in_filter (some ids) id = mem_id id ids

abbrev pub of_type : Query → Resource → Bool
of_type q r = (r.realm_id == q.realm_id) && (r.resource_type_id == q.resource_type_id)

abbrev pub ids_of : List Resource → List ℕ
ids_of [] = []
ids_of (r ∷ rs) = r.id ∷ ids_of rs

-- the resources of the type, those of the filter if there is one
abbrev pub all_of_type : Query → Option (List ℕ) → List Resource → List ℕ
all_of_type q filter resources =
    ids_of (where_true (λ r. of_type q r && in_filter filter r.id) resources)

abbrev pub applies : Query → Acl → Bool
applies q a = concerns q a && is_held_or_open q a

abbrev pub keep_id : ℕ → Option Bool → List ℕ → List ℕ
keep_id id (some true) rest = id ∷ rest
keep_id id _ rest = rest

-- `resource.id = rec.resource_id`, for a row that is for one resource
abbrev pub for_resource : Option ℕ → ℕ → Bool
for_resource none id = true
for_resource (some r) id = r == id

module _ (run : String → Json → Resource → Result (Option Bool)) (ctx : Json) where
  abbrev pub clause_of : Option String → Resource → Result (Option Bool)
  clause_of none r = ok (some true)
  clause_of (some sql) r = run sql ctx r

  -- the clause of a row: 'TRUE' where it has none
  unfoldable pub clause : Acl → Resource → Result (Option Bool)
  unfolding is_empty_sql
  clause a r = if is_empty_sql a.compiled_sql then ok (some true) else clause_of a.compiled_sql r

  -- `SELECT resource.id FROM resource WHERE ...`, where an exception ends the function
  unfoldable pub select_ids : Acl → (Resource → Bool) → List Resource → Result (List ℕ)
  unfolding clause
  select_ids a test [] = ok []
  select_ids a test (r ∷ rs) =
      let rest = select_ids a test rs in
      if test r then (do b ← clause a r; ids ← rest; ok (keep_id r.id b ids)) else rest

  abbrev pub is_candidate : Query → Option (List ℕ) → Acl → Resource → Bool
  is_candidate q filter a r =
      (of_type q r && for_resource a.resource_id r.id) && in_filter filter r.id

  -- the loop over the rows, each with its RETURN QUERY EXECUTE
  unfoldable pub run_rows : Query → Option (List ℕ) → List Resource → List Acl → Result (List ℕ)
  unfolding select_ids
  run_rows q filter resources [] = ok []
  run_rows q filter resources (a ∷ rows) = do
    found ← select_ids a (is_candidate q filter a) resources
    rest ← run_rows q filter resources rows
    ok (found ++ rest)

  -- 3_auth_resource_filter.py
  unfoldable pub get_authorized_resources_v3 :
      List ResourceType → List Resource → List Acl → Query → Option (List ℕ) → Result (List ℕ)
  unfolding run_rows
  get_authorized_resources_v3 types resources acls q filter =
      if is_public types q.resource_type_id
      then ok (all_of_type q filter resources)
      else run_rows q filter resources (where_true (applies q) acls)

  -- a row for the whole type with no condition, or with one that says TRUE
  abbrev pub is_blanket : Query → Acl → Bool
  is_blanket q a =
      (concerns q a && is_none a.resource_id)
      && ((is_empty_sql a.compiled_sql || is_true_sql a.compiled_sql) && is_held_or_open q a)

  -- 130e5b6db576_add_type_level_acl_short_circuit_.py
  unfoldable pub get_authorized_resources :
      List ResourceType → List Resource → List Acl → Query → Option (List ℕ) → Result (List ℕ)
  unfolding run_rows is_empty_sql is_true_sql
  get_authorized_resources types resources acls q filter =
      if is_public types q.resource_type_id
      then ok (all_of_type q filter resources)
      else if any (is_blanket q) acls
      then ok (all_of_type q filter resources)
      else run_rows q filter resources (where_true (applies q) acls)
