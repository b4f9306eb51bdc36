-- ===== src/Compile.antt =====
-- alembic/versions/add_not_operator.py: `compile_condition_to_sql`, which writes a condition as the
-- text of a WHERE clause, and the trigger of alembic/versions/1_init.py that stores it. SQL's NULL is
-- `none`, and a raised exception is `err`; `render` is PostgreSQL's output of JSONB as text.
pub mod Literal
pub mod Path
pub mod Clause
pub mod Leaves
pub mod Values
pub mod Agrees
pub mod Sound
pub mod Faults
mod Quote
unfoldable pub use Quote.{quote_literal}
pub use Quote.{◌<>◌, literal_or_null, quoted, joined, text_or_empty, after_first}
use Prim.Native.String
use stateful_abac_policy_eng.Prelude.{
  String, Bool, true, false, not, ◌&&◌, ◌||◌, Option, none, some, List, [], ◌∷◌, eq_text,
  if◌then◌else◌, Result, ok, err, ◌>>=◌, strip_prefix, has_prefix, split_dots, lower,
}
use stateful_abac_policy_eng.Json.{
  Json, null, bool, num, str, arr, obj, Items, nil, cons, Fields, end, field, get, text_of,
}
use stateful_abac_policy_eng.Resolve.{text_at, lower_op, operator_of, is_text}

-- `op IN ('st_dwithin', ...)`, which NULL is not
abbrev pub is_spatial : Option String → Bool
is_spatial op =
    is_text op "st_dwithin"
    || is_text op "st_contains"
    || is_text op "st_within"
    || is_text op "st_intersects"
    || is_text op "st_covers"

abbrev pub is_standard : Option String → Bool
is_standard op =
    is_text op "="
    || is_text op "!="
    || is_text op "<"
    || is_text op ">"
    || is_text op "<="
    || is_text op ">="
    || is_text op "in"
    || is_text op "not_in"

-- `lower(coalesce(cond->>'source', 'resource'))`
abbrev pub source_or_resource : Option String → String
source_or_resource none = "resource"
source_or_resource (some s) = lower s

abbrev pub arrow : Bool → String
arrow spatial = if spatial then "->" else "->>"

abbrev pub resource_column : Bool → Option String → String
resource_column spatial attr =
    if is_text attr "geometry"
    then "resource.geometry"
    else String.◌++◌ "resource.attributes" (String.◌++◌ (arrow spatial) (literal_or_null attr))

-- Step 3, for both kinds of operator.
abbrev pub left_text : String → Bool → String → Option String → String
left_text ctx_var spatial src attr =
    if eq_text src "resource"
    then resource_column spatial attr
    else if eq_text src "principal"
    then String.◌++◌ ctx_var
        (String.◌++◌ "->'principal'" (String.◌++◌ (arrow spatial) (literal_or_null attr)))
    else if eq_text src "context"
    then String.◌++◌ ctx_var
        (String.◌++◌ "->'context'" (String.◌++◌ (arrow spatial) (literal_or_null attr)))
    else resource_column spatial attr

-- The loop over the path: the last step takes the text, or the JSON for a spatial operator.
unfoldable pub steps : String → List String → String
unfolding quote_literal
steps last [] = ""
steps last (key ∷ []) = String.◌++◌ last (quote_literal key)
steps last (key ∷ next ∷ path) =
    String.◌++◌ "->" (String.◌++◌ (quote_literal key) (steps last (next ∷ path)))

-- a loop to the length of an empty path, which is NULL, raises
abbrev pub path_text : String → String → List String → Result (Option String)
path_text root last [] = err
path_text root last (key ∷ path) = ok (some (String.◌++◌ root (steps last (key ∷ path))))

-- A value that begins with a dollar sign. A path of one step of the resource has a branch of its own
-- in the code, which writes the same text.
abbrev pub reference_text :
    String → Bool → String → Option String → Option String → Option String → Result (Option String)
reference_text ctx_var spatial text (some path) _ _ =
    path_text (String.◌++◌ ctx_var "->'principal'") (arrow spatial) (split_dots path)
reference_text ctx_var spatial text none (some path) _ =
    path_text (String.◌++◌ ctx_var "->'context'") (arrow spatial) (split_dots path)
reference_text ctx_var spatial text none none (some path) =
    path_text "resource.attributes" "->>" (split_dots path)
reference_text ctx_var spatial text none none none = ok (some (quote_literal text))

abbrev pub some_text : List (Option String) → Bool
some_text [] = false
some_text (none ∷ ts) = some_text ts
some_text (some t ∷ ts) = true

abbrev pub cast_suffix : Option Json → String
cast_suffix (some (num n)) = "::numeric"
cast_suffix (some (bool b)) = "::boolean"
cast_suffix val = ""

abbrev pub casted : Option Json → Option String → Option String
casted val t = some "(" <> t <> some ")" <> some (cast_suffix val)

-- the geometry on the right, by the form of the value
abbrev pub geometry_text : Option String → Option String → Option String
geometry_text none right = some "ST_SetSRID(ST_GeomFromText(" <> right <> some "), 3857)"
geometry_text (some text) right =
    if has_prefix "$" text
    then some "parse_geometry_to_3857((" <> right <> some ")::text)"
    else if has_prefix "{" text
    then some "ST_Transform(ST_SetSRID(ST_GeomFromGeoJSON(" <> right <> some "), 4326), 3857)"
    else if has_prefix "SRID=3857;" text
    then some "ST_GeomFromEWKT(" <> right <> some ")"
    else if has_prefix "SRID=" text
    then some "ST_Transform(ST_GeomFromEWKT(" <> right <> some "), 3857)"
    else some "ST_SetSRID(ST_GeomFromText(" <> right <> some "), 3857)"

abbrev pub geometry_left : String → String
geometry_left left =
    if eq_text left "resource.geometry"
    then left
    else String.◌++◌ "parse_geometry_to_3857((" (String.◌++◌ left ")::text)")

-- `args #>> '{}'`, or '0'
abbrev pub distance_text : Option String → String
distance_text none = "0"
distance_text (some t) = t

abbrev pub spatial_text : Option String → String → Option String → Option String → Option String
spatial_text op left geometry args =
    if is_text op "st_dwithin"
    then some "ST_DWithin("
      <> some left
      <> some ", "
      <> geometry
      <> some ", "
      <> some (distance_text args)
      <> some ")"
    else op <> some "(" <> some left <> some ", " <> geometry <> some ")"

-- Step 1, after the loop: `not` reads the first element.
abbrev pub group_text : Option String → List (Option String) → Option String
group_text op [] = some "TRUE"
group_text op (t ∷ ts) =
    if is_text op "not"
    then some "NOT (" <> t <> some ")"
    else if is_text op "and"
    then some "(" <> some (joined " AND " (t ∷ ts)) <> some ")"
    else some "(" <> some (joined " OR " (t ∷ ts)) <> some ")"

abbrev pub is_compound : Option String → Bool
is_compound op = is_text op "and" || is_text op "or" || is_text op "not"

module _ (render : Json → String) where
  -- `string_agg(quote_literal(v #>> '{}'), ', ')`, which passes over NULL and is NULL for no text
  abbrev pub aggregated : Items → List (Option String)
  aggregated nil = []
  aggregated (cons j items) = quoted (text_of render j) ∷ aggregated items

  abbrev pub list_text : Items → Option String
  list_text items =
      if some_text (aggregated items) then some (joined ", " (aggregated items)) else none

  -- a value that is no reference, by its type
  abbrev pub literal_text : Option Json → Option String
  literal_text none = none
  literal_text (some (arr items)) = some "(" <> list_text items <> some ")"
  literal_text (some (bool b)) = some (quote_literal (render (bool b)))
  literal_text (some (num n)) = some (render (num n))
  literal_text (some null) = some "NULL"
  literal_text (some j) = quoted (text_of render j)

  abbrev pub value_text : Option Json → Option String
  value_text none = none
  value_text (some j) = text_of render j

  abbrev right_of_text : String → Bool → Option Json → Option String → Result (Option String)
  right_of_text ctx_var spatial val none = ok (literal_text val)
  right_of_text ctx_var spatial val (some text) =
      if has_prefix "$" text
      then reference_text ctx_var spatial text (strip_prefix "$principal." text)
          (strip_prefix "$context." text) (strip_prefix "$resource." text)
      else ok (literal_text val)

  -- Step 4.
  unfoldable pub right_text : String → Bool → Option Json → Result (Option String)
  unfolding strip_prefix has_prefix split_dots
  right_text ctx_var spatial val = right_of_text ctx_var spatial val (value_text val)

  -- `val::text`
  abbrev pub json_text : Option Json → Option String
  json_text none = none
  json_text (some j) = some (render j)

  abbrev pub elements_text : Option Json → Option String
  elements_text val =
      some " = ANY(ARRAY(SELECT jsonb_array_elements_text("
      <> quoted (json_text val)
      <> some "::jsonb)))"

  -- Step 5.
  abbrev pub expression :
      Option String → String → Option String → Option Json → Option String → Option String
  expression op left right val args =
      if is_text op "not_in"
      then some "NOT (" <> casted val (some left) <> elements_text val <> some ")"
      else if is_text op "in"
      then casted val (some left) <> elements_text val
      else if is_standard op
      then casted val (some left) <> some " " <> op <> some " " <> casted val right
      else if is_text op "all"
      then some left <> some " @> " <> some (text_or_empty right)
      else if is_spatial op
      then spatial_text op (geometry_left left) (geometry_text (value_text val) right) args
      else some "TRUE"

  unfoldable pub compile_leaf : String → Json → Result (Option String)
  unfolding right_text quote_literal has_prefix
  compile_leaf ctx_var cond = do
    right ← right_text ctx_var (is_spatial (operator_of render cond)) (get "val" cond)
    ok (
        expression (operator_of render cond)
          (left_text ctx_var (is_spatial (operator_of render cond))
            (source_or_resource (text_at render "source" cond)) (text_at render "attr" cond))
          right (get "val" cond) (value_text (get "args" cond)))

  abbrev grouped : Option String → Result (List (Option String)) → Result (Option String)
  grouped op subs = subs >>= λ ts. ok (group_text op ts)

  abbrev pub dispatched : String → Json → Result (List (Option String)) → Result (Option String)
  dispatched ctx_var cond subs =
      if is_compound (operator_of render cond)
      then grouped (operator_of render cond) subs
      else compile_leaf ctx_var cond

  -- The loop over the elements raises where there is no array.
  unfoldable mutual
    unfolding lower

    pub compile : String → Json → Result (Option String)
    compile ctx_var (obj fs) = dispatched ctx_var (obj fs) (compile_conditions ctx_var fs)
    compile ctx_var cond = dispatched ctx_var cond err

    pub compile_conditions : String → Fields → Result (List (Option String))
    compile_conditions ctx_var end = err
    compile_conditions ctx_var (field k v fs) =
        let rest = compile_conditions ctx_var fs in
        if eq_text k "conditions" then compile_elements ctx_var v else rest

    pub compile_elements : String → Json → Result (List (Option String))
    compile_elements ctx_var (arr items) = compile_items ctx_var items
    compile_elements ctx_var _ = err

    pub compile_items : String → Items → Result (List (Option String))
    compile_items ctx_var nil = ok []
    compile_items ctx_var (cons j items) = do
      t ← compile ctx_var j
      ts ← compile_items ctx_var items
      ok (t ∷ ts)

  unfoldable pub compile_condition_to_sql : String → Option Json → Result (Option String)
  compile_condition_to_sql ctx_var none = ok (some "TRUE")
  compile_condition_to_sql ctx_var (some cond) = compile ctx_var cond

  -- `trg_compile_acl_conditions_func`
  unfoldable pub compiled_sql_of : Option Json → Result (Option String)
  compiled_sql_of none = ok (some "TRUE")
  compiled_sql_of (some null) = ok (some "TRUE")
  compiled_sql_of (some cond) = compile_condition_to_sql "p_ctx" (some cond)
