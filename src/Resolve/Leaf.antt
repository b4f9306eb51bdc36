-- ===== src/Resolve/Leaf.antt =====
-- The answer for one comparison means what the comparison means.
use stateful_abac_policy_eng.Prelude.{
  String, Bool, true, false, ◌||◌, not, Option, none, some, ◌≡◌, refl, ap, ◌∙◌, is_none, eq_text,
  arith, if◌then◌else◌, has_prefix, Bool-cases, inl, inr,
}
use stateful_abac_policy_eng.Json.{contains, Json, null, bool, str, num, obj, arr}
use stateful_abac_policy_eng.Resolve.{
  Right, substituted, right_side, evaluate, resolve_leaf, or_null, reference_of, text_of_val,
  or_partly, known,
}
use stateful_abac_policy_eng.Resolve.Meaning.{
  meaning, compare_values, answer_value, value_of, leaf_holds,
}
use stateful_abac_policy_eng.Sdk.Condition.{
  Source, resource, principal, context, FluentCondition, attr_named, from_principal, from_context,
  Operator, operator_value, build, in_, and_op, or_op, not_op,
}
use stateful_abac_policy_eng.Resolve.Values.{
  is_logical, is_in_op, lower-operator_value, plain_text, answer_leaf-substituted,
  meaning-substituted, attribute_known, reference_known, get_value-plain, right_side-known,
}

module _ (render : Json → String) (other : String → Option String → Option Json → Option Bool)
    (attribute : String → Option String) where
  module _ (ctx : Json) where
    -- `IN` is evaluated on the value as it is written, so a reference there must not be evaluated.
    abbrev pub in_literal : Source → Operator → Json → Bool
    in_literal resource op val = true
    in_literal _ op val = not (is_in_op op) || is_none (reference_of (some val))

    value_of-literal :
        (val : Json)
        → is_none (reference_of (some val)) ≡ true
        → value_of render other attribute ctx val ≡ some val
    unfolding value_of
    value_of-literal (str s) h =
        let p : has_prefix "$" s ≡ false = ground arith in
        let (_, _, no_resource) = plain_text s p in
        rw (get_value-plain render other attribute ctx s p, no_resource)
    value_of-literal null h = refl
    value_of-literal (bool b) h = refl
    value_of-literal (num n) h = refl
    value_of-literal (arr xs) h = refl
    value_of-literal (obj fs) h = refl

    abbrev pub LeafMeans : FluentCondition → Operator → Json → Option Json → Type 0
    LeafMeans f op val args =
        (j : Json) × (resolve_leaf render ctx (build f op val args) ≡ some j)
        × (meaning render other attribute j ≡ leaf_holds render other attribute ctx f op val)

    resource-LeafMeans :
        (name : String) (op : Operator) (val : Json) (args : Option Json)
        → is_logical op ≡ false
        → reference_known render other attribute ctx (reference_of (some val)) ≡ true
        → LeafMeans (record { attr = name; source = resource }) op val args
    unfolding resolve_leaf leaf_holds
    resource-LeafMeans name op val args p q =
        let f = attr_named name in
        let right = right_side render ctx (some val) in
        (
          _,
          refl,
          meaning-substituted render other attribute f op val args
                (record { value = none; is_resource = true }) right p
              ∙ answer_leaf-substituted render other attribute f op val args right true none
              ∙ ap
                  (compare_values render other attribute (some (operator_value op))
                    (attribute name))
                  (right_side-known render other attribute ctx val q).0,
        )

    -- a leaf whose left side is the text `a`, of the principal or the context
    KnownMeans : FluentCondition → Operator → Json → Option Json → String → Right → Type 0
    KnownMeans f op val args a right =
        (j : Json) × (or_partly render ctx
            (if not right.is_resource
              then evaluate (some (operator_value op)) (some a) right.resolved (some val)
              else none)
            (substituted (build f op val args) (known (some a)) right)
          ≡ some j)
        × (meaning render other attribute j
            ≡ compare_values render other attribute (some (operator_value op)) (some a)
                (value_of render other attribute ctx val))

    partly-meaning :
        (f : FluentCondition) (op : Operator) (val : Json) (args : Option Json) (a : String)
        (right : Right)
        → is_logical op ≡ false
        → answer_value render other attribute (some (or_null right.subbed))
          ≡ value_of render other attribute ctx val
        → meaning render other attribute (substituted (build f op val args) (known (some a)) right)
          ≡ compare_values render other attribute
              (some (operator_value op))
              (some a)
              (value_of render other attribute ctx val)
    partly-meaning f op val args a right p same =
        meaning-substituted render other attribute f op val args (known (some a)) right p
        ∙ answer_leaf-substituted render other attribute f op val args right false (some a)
        ∙ ap (compare_values render other attribute (some (operator_value op)) (some a)) same

    evaluated-KnownMeans :
        (f : FluentCondition) (op : Operator) (val : Json) (args : Option Json) (a t : String)
        (subbed : Option Json)
        → is_logical op ≡ false
        → answer_value render other attribute (some (or_null subbed))
          ≡ value_of render other attribute ctx val
        → text_of_val render (value_of render other attribute ctx val) ≡ some t
        → (not (is_in_op op) || is_none (reference_of (some val))) ≡ true
        → KnownMeans f op val args a
            (record { resolved = some t; is_resource = false; subbed = subbed })
    unfolding KnownMeans evaluate compare_values meaning
    evaluated-KnownMeans f Operator.equals val args a t subbed p same text lit =
        (bool (eq_text a t), refl, rw text)
    evaluated-KnownMeans f Operator.not_equals val args a t subbed p same text lit =
        (bool (not (eq_text a t)), refl, rw text)
    evaluated-KnownMeans f in_ val args a t subbed p same text lit =
        (bool (contains val a), refl, rw (value_of-literal val lit))
    evaluated-KnownMeans f and_op val args a t subbed p same text lit = cc
    evaluated-KnownMeans f or_op val args a t subbed p same text lit = cc
    evaluated-KnownMeans f not_op val args a t subbed p same text lit = cc
    evaluated-KnownMeans f op val args a t subbed p same text lit =
        let right : Right = record { resolved = some t; is_resource = false; subbed = subbed } in
        (_, refl, partly-meaning f op val args a right p same)

    known-KnownMeans :
        (f : FluentCondition) (op : Operator) (val : Json) (args : Option Json) (a : String)
        → is_logical op ≡ false
        → reference_known render other attribute ctx (reference_of (some val)) ≡ true
        → (not (is_in_op op) || is_none (reference_of (some val))) ≡ true
        → KnownMeans f op val args a (right_side render ctx (some val))
    unfolding KnownMeans
    known-KnownMeans f op val args a p q lit =
        let (same, texts) = right_side-known render other attribute ctx val q in
        let right = right_side render ctx (some val) in
        elim (Bool-cases right.is_resource) [
          | inl at ↦ rw at (_, refl, partly-meaning f op val args a right p same)
          | inr at ↦
              let (t, found, text) = texts at in
              rw (at, found) (evaluated-KnownMeans f op val args a t right.subbed p same text lit)
        ]

    -- What the resolver needs of a leaf in order to keep its meaning.
    abbrev pub LeafReady : FluentCondition → Operator → Json → Type 0
    LeafReady f op val =
        (attribute_known render other attribute ctx f.source f.attr ≡ true)
        × (reference_known render other attribute ctx (reference_of (some val)) ≡ true)
        × (in_literal f.source op val ≡ true)

    found_attribute : (o : Option String) → not (is_none o) ≡ true → (a : String) × (o ≡ some a)
    found_attribute o h = ground arith

    pub leaf-LeafMeans :
        (source : Source) (name : String) (op : Operator) (val : Json) (args : Option Json)
        → is_logical op ≡ false
        → LeafReady (record { attr = name; source = source }) op val
        → LeafMeans (record { attr = name; source = source }) op val args
    unfolding resolve_leaf leaf_holds KnownMeans
    leaf-LeafMeans resource name op val args p (_, q, _) = resource-LeafMeans name op val args p q
    leaf-LeafMeans principal name op val args p (there, q, lit) =
        let (a, found) = found_attribute _ there in
        rw (lower-operator_value, found)
          (known-KnownMeans (from_principal (attr_named name)) op val args a p q lit)
    leaf-LeafMeans context name op val args p (there, q, lit) =
        let (a, found) = found_attribute _ there in
        rw (lower-operator_value, found)
          (known-KnownMeans (from_context (attr_named name)) op val args a p q lit)
