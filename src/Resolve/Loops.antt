-- ===== src/Resolve/Loops.antt =====
-- The parts of `resolve_abac_condition` (alembic/versions/58055ca375cf_add_get_authorization_conditions_.py)
-- that need no context: SQL's tests under NULL, the loops of 'and' and 'or', the evaluation of a leaf
-- and the answer with what is known put in.
use Prim.Native.String
use stateful_abac_policy_eng.Prelude.{
  String, Bool, true, false, ◌&&◌, ◌||◌, not, Option, none, some, List, [], ◌∷◌, ◌++◌, is_none,
  eq_text, if◌then◌else◌, Result, ok, err, has_prefix, lower,
}
use stateful_abac_policy_eng.Json.{
  Json, null, bool, str, arr, obj, Items, nil, cons, end, field, get, is_null_json, is_bool_json,
  contains,
}

-- `column = 'text'` as the test of an IF: NULL counts as false.
abbrev pub is_text : Option String → String → Bool
is_text none t = false
is_text (some s) t = eq_text s t

-- `to_jsonb` of a Boolean, a strict function: NULL gives NULL.
abbrev pub json_of_bool : Option Bool → Option Json
json_of_bool none = none
json_of_bool (some b) = some (bool b)

-- `to_jsonb(text)` as an argument of `jsonb_build_object`, where NULL becomes JSON's null.
abbrev pub or_null : Option Json → Json
or_null none = null
or_null (some j) = j

abbrev pub or_null_text : Option String → Json
or_null_text none = null
or_null_text (some s) = str s

-- `a = b` on texts, and `a IS DISTINCT FROM b`
abbrev pub equal : Option String → Option String → Option Bool
equal none b = none
equal (some a) none = none
equal (some a) (some b) = some (eq_text a b)

abbrev pub distinct : Option String → Option String → Bool
distinct none none = false
distinct none (some b) = true
distinct (some a) none = true
distinct (some a) (some b) = not (eq_text a b)

-- `v_val @> to_jsonb(v_left_val)`
abbrev pub contained : Option Json → Option String → Option Bool
contained none s = none
contained (some j) none = none
contained (some j) (some s) = some (contains j s)

-- The right side of a leaf: its text where it is known, whether it names a resource attribute,
-- and the value that the answer carries.
pub record Right : Type 0 where
  pub resolved : Option String
  pub is_resource : Bool
  pub subbed : Option Json

pub record Left : Type 0 where
  pub value : Option String
  pub is_resource : Bool

abbrev pub known : Option String → Left
known s = record { value = s; is_resource = false }

-- The list under 'conditions': none, something that `jsonb_array_length` refuses, or the answers
-- of its elements.
pub data Subs : Type 0 where
  missing : Subs
  no_array : Subs
  answers : List (Result (Option Json)) → Subs

abbrev pub is_json_bool : Bool → Option Json → Bool
is_json_bool b none = false
is_json_bool b (some j) = is_bool_json b j

abbrev pub is_json_null : Option Json → Bool
is_json_null none = false
is_json_null (some j) = is_null_json j

-- `to_jsonb(list)` of an array, in which a NULL becomes JSON's null
abbrev pub null_items : List (Option Json) → Items
null_items [] = nil
null_items (x ∷ xs) = cons (or_null x) (null_items xs)

-- `jsonb_build_object('op', op, 'conditions', to_jsonb(list))`
abbrev pub group : String → List (Option Json) → Json
group op list = obj (field "op" (str op) (field "conditions" (arr (null_items list)) end))

-- what follows the loop of an 'and' or 'or'
abbrev pub finish : String → Bool → List (Option Json) → Option Json
finish op empty [] = some (bool empty)
finish op empty (x ∷ []) = x
finish op empty list = some (group op list)

-- The loop of 'and': a false element decides, true and JSON's null are dropped.
unfoldable pub and_loop : List (Result (Option Json)) → List (Option Json) → Result (Option Json)
and_loop [] list = ok (finish "and" true list)
and_loop (err ∷ rest) list = err
and_loop (ok res ∷ rest) list =
    let next = if is_json_bool true res || is_json_null res then list else list ++ res ∷ [] in
    let more = and_loop rest next in if is_json_bool false res then ok (some (bool false)) else more

-- The loop of 'or': a true element decides, false is dropped.
unfoldable pub or_loop : List (Result (Option Json)) → List (Option Json) → Result (Option Json)
or_loop [] list = ok (finish "or" false list)
or_loop (err ∷ rest) list = err
or_loop (ok res ∷ rest) list =
    let next = if is_json_bool false res then list else list ++ res ∷ [] in
    let more = or_loop rest next in if is_json_bool true res then ok (some (bool true)) else more

abbrev pub and_case : Subs → Result (Option Json)
and_case missing = ok (some (bool true))
and_case no_array = err
and_case (answers list) = and_loop list []

abbrev pub or_case : Subs → Result (Option Json)
or_case missing = ok (some (bool false))
or_case no_array = err
or_case (answers list) = or_loop list []

abbrev pub not_case : Option Json → Option Json
not_case res =
    if is_json_bool true res
    then some (bool false)
    else if is_json_bool false res
    then some (bool true)
    else some (obj (field "op" (str "not") (field "condition" (or_null res) end)))

-- `'$context.' || v_attr`
abbrev pub prepend : String → Option String → Option String
prepend p none = none
prepend p (some s) = some (String.◌++◌ p s)

-- a string value that is LIKE '$%'
abbrev pub reference_of : Option Json → Option String
reference_of (some (str s)) = if has_prefix "$" s then some s else none
reference_of _ = none

abbrev pub lower_op : Option String → Option String
lower_op none = none
lower_op (some s) = some (lower s)

-- Step 3, the evaluation of a leaf with no reference to the resource; `none` where it falls
-- through to step 4, and `some none` where it returns NULL.
unfoldable pub evaluate :
    Option String → Option String → Option String → Option Json → Option (Option Json)
evaluate op left right val =
    if (is_none left || is_none right) && is_text op "is_null"
    then some (some (bool (is_none left)))
    else if (is_none left || is_none right) && is_text op "is_not_null"
    then some (some (bool (not (is_none left))))
    else if is_text op "=" || is_text op "=="
    then some (json_of_bool (equal left right))
    else if is_text op "!=" || is_text op "<>"
    then some (some (bool (distinct left right)))
    else if is_text op "in"
    then some (json_of_bool (contained val left))
    else none

-- Step 4, the leaf with what is known put in.
abbrev pub substituted : Json → Left → Right → Json
substituted cond left right = obj (
    field "op" (or_null (get "op" cond)) (
      field "source" (if left.is_resource then str "resource" else str "static") (
        field "attr"
          (if left.is_resource then or_null (get "attr" cond) else or_null_text left.value)
          (field "val" (or_null right.subbed) end))))
