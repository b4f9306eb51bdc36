-- ===== src/Resolve.antt =====
-- alembic/versions/58055ca375cf_add_get_authorization_conditions_.py: `get_value_from_context` and
-- `resolve_abac_condition`, which replace the references of a condition to the request context
-- by their values and evaluate what is then known. SQL's NULL is `none`, and a raised exception
-- is `err`.
mod Loops
unfoldable pub use Loops.{and_loop, or_loop, evaluate}
pub use Loops.{
  is_text, json_of_bool, or_null, or_null_text, equal, distinct, contained, Right, Left, known,
  Subs, missing, no_array, answers, is_json_bool, is_json_null, null_items, group, finish, and_case,
  or_case, not_case, prepend, reference_of, lower_op, substituted,
}
pub mod Meaning
pub mod Values
pub mod Leaf
pub mod Sound
pub mod Faults
use Prim.Native.String
use stateful_abac_policy_eng.Prelude.{
  String, Bool, true, false, ◌&&◌, ◌||◌, not, Option, none, some, List, [], ◌∷◌, ◌++◌, is_none,
  eq_text, if◌then◌else◌, Result, ok, err, ◌>>=◌, strip_prefix, has_prefix, split_dots, lower,
}
use stateful_abac_policy_eng.Json.{
  Json, null, bool, num, str, arr, obj, Items, nil, cons, Fields, end, field, get, is_null_json,
  is_bool_json, text_of, contains,
}

module _ (render : Json → String) where
  -- `v_val::text`, but of a string its characters
  abbrev pub text_of_val : Option Json → Option String
  text_of_val none = none
  text_of_val (some (str s)) = some s
  text_of_val (some j) = some (render j)

  -- `p_cond ->> key`
  abbrev pub text_at : String → Json → Option String
  text_at key cond = elim (get key cond) [ none ↦ none | some j ↦ text_of render j ]

  abbrev pub operator_of : Json → Option String
  operator_of cond = lower_op (text_at "op" cond)

  -- The loop over the path, and the text of what it ends at.
  unfoldable pub walk : Option Json → List String → Option String
  walk none path = none
  walk (some j) [] = text_of render j
  walk (some (obj fs)) (key ∷ path) = walk (get key (obj fs)) path
  walk (some j) (key ∷ path) = none

module _ (render : Json → String) (ctx : Json) where
  abbrev found_at : Option String → Option String → Option String
  found_at (some path) other = walk render (get "context" ctx) (split_dots path)
  found_at none (some path) = walk render (get "principal" ctx) (split_dots path)
  found_at none none = none

  -- `get_value_from_context`
  unfoldable pub get_value_from_context : Option String → Option String
  unfolding walk strip_prefix split_dots
  get_value_from_context none = none
  get_value_from_context (some path) =
      found_at (strip_prefix "$context." path) (strip_prefix "$principal." path)

  -- Step 1, the attribute.
  unfoldable pub left_side : Option String → Option String → Left
  left_side source attr =
      if is_text source "context"
      then known (get_value_from_context (prepend "$context." attr))
      else if is_text source "principal"
      then known (get_value_from_context (prepend "$principal." attr))
      else record { value = none; is_resource = true }

  -- Step 2, the value: a reference that is found, one that is not, or no reference.
  abbrev pub right_of : Option String → Option String → Option Json → Right
  right_of (some s) (some t) val = record {
    resolved = some t;
    is_resource = false;
    subbed = some (str t);
  }
  right_of (some s) none val = record {
    resolved = none;
    is_resource = has_prefix "$resource." s;
    subbed = val;
  }
  right_of none t val = record {
    resolved = text_of_val render val;
    is_resource = false;
    subbed = val;
  }

  unfoldable pub right_side : Option Json → Right
  unfolding get_value_from_context has_prefix
  right_side val = right_of (reference_of val) (get_value_from_context (reference_of val)) val

  abbrev pub or_partly : Option (Option Json) → Json → Option Json
  or_partly (some answer) partly = answer
  or_partly none partly = some partly

  -- steps 1 to 4
  unfoldable pub resolve_leaf : Json → Option Json
  unfolding left_side right_side evaluate
  resolve_leaf cond =
      let left = left_side (text_at render "source" cond) (text_at render "attr" cond) in
      let right = right_side (get "val" cond) in
      let answer = evaluate (operator_of render cond) left.value right.resolved (get "val" cond) in
      or_partly (if not left.is_resource && not right.is_resource then answer else none)
        (substituted cond left right)

  -- The branches on the operator, given what the recursive calls answer.
  unfoldable pub dispatch : Json → Result (Option Json) → Subs → Result (Option Json)
  unfolding resolve_leaf
  dispatch cond inner subs =
      let op = operator_of render cond in
      if is_text op "and"
      then and_case subs
      else if is_text op "or"
      then or_case subs
      else if is_text op "not"
      then inner >>= (λ res. ok (not_case res))
      else ok (resolve_leaf cond)

  -- `resolve_abac_condition` on a value that is not NULL. The recursive calls are made on every
  -- element, and the loops read their answers only as far as the loops of the source go.
  unfoldable mutual
    pub resolve : Json → Result (Option Json)
    resolve null = ok (some null)
    resolve (bool b) = ok (resolve_leaf (bool b))
    resolve (num s) = ok (resolve_leaf (num s))
    resolve (str s) = ok (resolve_leaf (str s))
    resolve (arr xs) = ok (resolve_leaf (arr xs))
    resolve (obj fs) = dispatch (obj fs) (resolve_condition fs) (resolve_conditions fs)

    -- the answer for `p_cond -> 'condition'`, where NULL answers JSON's null
    pub resolve_condition : Fields → Result (Option Json)
    resolve_condition end = ok (some null)
    resolve_condition (field k v fs) =
        let here = resolve v in
        let later = resolve_condition fs in if eq_text k "condition" then here else later

    pub resolve_conditions : Fields → Subs
    resolve_conditions end = missing
    resolve_conditions (field k v fs) =
        let here = resolve_elements v in
        let later = resolve_conditions fs in if eq_text k "conditions" then here else later

    pub resolve_elements : Json → Subs
    resolve_elements (arr xs) = answers (resolve_items xs)
    resolve_elements _ = no_array

    pub resolve_items : Items → List (Result (Option Json))
    resolve_items nil = []
    resolve_items (cons x xs) = resolve x ∷ resolve_items xs

  -- `resolve_abac_condition`
  unfoldable pub resolve_abac_condition : Option Json → Result (Option Json)
  unfolding resolve dispatch
  resolve_abac_condition none = ok (some null)
  resolve_abac_condition (some cond) = resolve cond
