-- ===== src/Json.antt =====
-- JSONB values and the operators of PostgreSQL that the functions under alembic/versions apply to
-- them. A number is kept as the text it prints as, which is all that the functions read of it.
pub mod Equality
use stateful_abac_policy_eng.Prelude.{
  String, Bool, true, false, ◌&&◌, ◌||◌, Option, none, some, List, [], ◌∷◌, eq_text, if◌then◌else◌,
}

-- An array and an object hold JSON values again, so the three types are declared together.
mutual
  pub data Json : Type 0 where
    null : Json
    bool : Bool → Json
    num : String → Json
    str : String → Json
    arr : Items → Json
    obj : Fields → Json

  pub data Items : Type 0 where
    nil : Items
    cons : Json → Items → Items

  pub data Fields : Type 0 where
    end : Fields
    field : String → Json → Fields → Fields

abbrev bool_eq : Bool → Bool → Bool
bool_eq true b = b
bool_eq false true = false
bool_eq false false = true

-- `a = b` on JSONB, whose objects are kept with their keys in one canonical order.
unfoldable mutual
  pub json_eq : Json → Json → Bool
  json_eq null null = true
  json_eq (bool a) (bool b) = bool_eq a b
  json_eq (num a) (num b) = eq_text a b
  json_eq (str a) (str b) = eq_text a b
  json_eq (arr xs) (arr ys) = items_eq xs ys
  json_eq (obj fs) (obj gs) = fields_eq fs gs
  json_eq _ _ = false

  pub items_eq : Items → Items → Bool
  items_eq nil nil = true
  items_eq (cons x xs) (cons y ys) = json_eq x y && items_eq xs ys
  items_eq _ _ = false

  pub fields_eq : Fields → Fields → Bool
  fields_eq end end = true
  fields_eq (field k x fs) (field j y gs) = eq_text k j && json_eq x y && fields_eq fs gs
  fields_eq _ _ = false

-- `object -> key`, on the fields
abbrev pub get_field : String → Fields → Option Json
get_field k end = none
get_field k (field j v fs) = if eq_text j k then some v else get_field k fs

-- `value -> key`: NULL for what is no object
abbrev pub get : String → Json → Option Json
get k (obj fs) = get_field k fs
get k _ = none

abbrev pub is_null_json : Json → Bool
is_null_json null = true
is_null_json _ = false

-- `value = 'true'::jsonb` and `value = 'false'::jsonb`
abbrev pub is_bool_json : Bool → Json → Bool
is_bool_json b (bool c) = bool_eq b c
is_bool_json b _ = false

-- `jsonb_typeof(value) = 'string'`
abbrev pub string_of : Json → Option String
string_of (str s) = some s
string_of _ = none

-- `value ->> key` and `value #>> '{}'`: NULL for JSON's null, the characters of a string, and the
-- printed form of anything else. `render` is PostgreSQL's output function for JSONB.
abbrev pub text_of : (Json → String) → Json → Option String
text_of render null = none
text_of render (str s) = some s
text_of render j = some (render j)

abbrev pub to_items : List Json → Items
to_items [] = nil
to_items (x ∷ xs) = cons x (to_items xs)

-- `array @> to_jsonb(s)`, and between two strings equality
abbrev pub items_contain : Items → String → Bool
items_contain nil s = false
items_contain (cons (str t) xs) s = eq_text t s || items_contain xs s
items_contain (cons _ xs) s = items_contain xs s

abbrev pub contains : Json → String → Bool
contains (arr xs) s = items_contain xs s
contains (str t) s = eq_text t s
contains _ s = false
