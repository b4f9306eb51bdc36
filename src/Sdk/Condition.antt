-- ===== src/Sdk/Condition.antt =====
-- python-sdk/src/stateful_abac_sdk/manifest/constants.py and the condition builders of builder.py.
-- A Python dict that is sent as JSON is a `Json` object, with its keys in the order of insertion.
use stateful_abac_policy_eng.Prelude.{String, Option, none, some}
use stateful_abac_policy_eng.Json.{Json, str, obj, arr, Items, nil, cons, Fields, end, field}

pub data Source : Type 0 where
  resource principal context : Source

pub data Operator : Type 0 where
  equals not_equals less_than greater_than less_than_or_equal greater_than_or_equal : Operator
  in_ and_op or_op not_op : Operator
  st_dwithin st_contains st_within st_intersects st_covers : Operator
  not_in all_op : Operator

-- `Source` and `Operator` are `str` enums, and serialise as their values.
abbrev pub source_value : Source → String
source_value resource = "resource"
source_value principal = "principal"
source_value context = "context"

abbrev pub operator_value : Operator → String
operator_value equals = "="
operator_value not_equals = "!="
operator_value less_than = "<"
operator_value greater_than = ">"
operator_value less_than_or_equal = "<="
operator_value greater_than_or_equal = ">="
operator_value in_ = "in"
operator_value and_op = "and"
operator_value or_op = "or"
operator_value not_op = "not"
operator_value st_dwithin = "st_dwithin"
operator_value st_contains = "st_contains"
operator_value st_within = "st_within"
operator_value st_intersects = "st_intersects"
operator_value st_covers = "st_covers"
operator_value not_in = "not_in"
operator_value all_op = "all"

pub record FluentCondition : Type 0 where
  pub attr : String
  pub source : Source

-- `ConditionBuilder.attr(name)`, which is `FluentCondition(name)`
abbrev pub attr_named : String → FluentCondition
attr_named name = record { attr = name; source = resource }

abbrev pub from_principal : FluentCondition → FluentCondition
from_principal f = record f { source = principal }

abbrev pub from_context : FluentCondition → FluentCondition
from_context f = record f { source = context }

abbrev pub from_resource : FluentCondition → FluentCondition
from_resource f = record f { source = resource }

abbrev with_args : Option Json → Fields
with_args none = end
with_args (some args) = field "args" args end

-- `_build`, and `ConditionBuilder._make_leaf`, which builds the same dict
abbrev pub build : FluentCondition → Operator → Json → Option Json → Json
build f op val args = obj (
    field "op" (str (operator_value op)) (
      field "attr" (str f.attr)
        (field "val" val (field "source" (str (source_value f.source)) (with_args args)))))

abbrev pub and_ : Items → Json
and_ conditions =
    obj (field "op" (str (operator_value and_op)) (field "conditions" (arr conditions) end))

abbrev pub or_ : Items → Json
or_ conditions =
    obj (field "op" (str (operator_value or_op)) (field "conditions" (arr conditions) end))

abbrev pub not_ : Json → Json
not_ condition =
    obj
      (field "op" (str (operator_value not_op)) (field "conditions" (arr (cons condition nil)) end))

-- the methods of `FluentCondition` that take a value
pub data Method : Type 0 where
  eq neq gt lt gte lte is_in not_in_ all_ contains within intersects covers : Method

abbrev pub method_operator : Method → Operator
method_operator eq = equals
method_operator neq = not_equals
method_operator gt = greater_than
method_operator lt = less_than
method_operator gte = greater_than_or_equal
method_operator lte = less_than_or_equal
method_operator is_in = in_
method_operator not_in_ = not_in
method_operator all_ = all_op
method_operator contains = st_contains
method_operator within = st_within
method_operator intersects = st_intersects
method_operator covers = st_covers

abbrev pub call : FluentCondition → Method → Json → Json
call f method val = build f (method_operator method) val none

abbrev pub dwithin : FluentCondition → Json → Json → Json
dwithin f val distance = build f st_dwithin val (some distance)

-- `ConditionBuilder.st_dwithin`, the older spelling, wraps the distance in an object.
abbrev pub legacy_st_dwithin : FluentCondition → Json → Json → Json
legacy_st_dwithin f val distance =
    build f st_dwithin val (some (obj (field "distance" distance end)))

-- A nested use of the builder: what a client writes, and the JSON that it sends.
mutual
  pub data Condition : Type 0 where
    leaf : FluentCondition → Method → Json → Condition
    near : FluentCondition → Json → Json → Condition
    all_of : Conditions → Condition
    any_of : Conditions → Condition
    negated : Condition → Condition

  pub data Conditions : Type 0 where
    nothing : Conditions
    more : Condition → Conditions → Conditions

unfoldable mutual
  pub encode : Condition → Json
  encode (leaf f method val) = call f method val
  encode (near f val distance) = dwithin f val distance
  encode (all_of cs) = and_ (encode_all cs)
  encode (any_of cs) = or_ (encode_all cs)
  encode (negated c) = not_ (encode c)

  pub encode_all : Conditions → Items
  encode_all nothing = nil
  encode_all (more c cs) = cons (encode c) (encode_all cs)
