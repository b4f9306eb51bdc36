-- ===== src/Compile/Agrees.antt =====
-- The comparisons of texts that a client builds, the clauses that stand for them, and their agreement.
use Prim.Native.String
use stateful_abac_policy_eng.Prelude.{
  String, Bool, true, false, ◌||◌, Option, none, some, ◌≡◌, refl, ap, ok, has_prefix, lower,
}
use stateful_abac_policy_eng.Json.{Json, str, arr, Items, nil, cons}
use stateful_abac_policy_eng.Resolve.Values.{lower-operator_value, is_in_op}
use stateful_abac_policy_eng.Resolve.Meaning.{compare_values, json_text, leaf_holds, attribute_at}
use stateful_abac_policy_eng.Sdk.Condition.{
  Source, resource, principal, context, FluentCondition, Operator, operator_value, source_value,
  build, Condition, Conditions, leaf, near, all_of, any_of, negated, nothing, more, method_operator,
  in_, equals, not_equals, less_than, greater_than, less_than_or_equal, greater_than_or_equal,
}
use stateful_abac_policy_eng.Compile.{right_text, compile_leaf, is_spatial, expression}
use stateful_abac_policy_eng.Compile.Clause.{
  Clause, Clauses, truth, compares, among, both, either, no, done, also, print, print_place,
  print_operand, parenthesised, value, comparison, operand_value,
}
use stateful_abac_policy_eng.Compile.Leaves.{
  place_of, operand_of, IsName, IsFound, right_text-operand, left_text-place,
}
use stateful_abac_policy_eng.Compile.Values.{
  place_value-attribute_at, value_of-operand, text_of_val-json_text, IsTexts, equals_any-contained,
}

abbrev pub is_comparison : Operator → Bool
is_comparison equals = true
is_comparison not_equals = true
is_comparison less_than = true
is_comparison greater_than = true
is_comparison less_than_or_equal = true
is_comparison greater_than_or_equal = true
is_comparison _ = false

abbrev pub clause_of_leaf : FluentCondition → Operator → Json → Clause
clause_of_leaf f op (str s) = compares (operator_value op) (place_of f.source f.attr) (operand_of s)
clause_of_leaf f op (arr items) = among (place_of f.source f.attr) items
clause_of_leaf f op _ = truth

-- The clause that a condition stands for.
unfoldable mutual
  pub clause_of : Condition → Clause
  clause_of (leaf f method val) = clause_of_leaf f (method_operator method) val
  clause_of (near f val distance) = truth
  clause_of (all_of nothing) = truth
  clause_of (all_of (more c cs)) = both (clause_of c) (clauses_of cs)
  clause_of (any_of nothing) = truth
  clause_of (any_of (more c cs)) = either (clause_of c) (clauses_of cs)
  clause_of (negated c) = no (clause_of c)

  pub clauses_of : Conditions → Clauses
  clauses_of nothing = done
  clauses_of (more c cs) = also (clause_of c) (clauses_of cs)

module _ (render : Json → String) (ctx : Json) where
  -- A comparison with a text, or IN a list of texts; the list is printed as JSON is, with no dollar
  -- sign first.
  abbrev pub IsLeaf : FluentCondition → Operator → Json → Type 0
  IsLeaf f op (str s) = (is_comparison op ≡ true) × IsName f.source f.attr × IsFound render ctx s
  IsLeaf f op (arr items) =
      (is_in_op op ≡ true)
      × IsName f.source f.attr
      × IsTexts items
      × (has_prefix "$" (render (arr items)) ≡ false)
  IsLeaf f op _ = ⊥

  abbrev pub IsSome : Conditions → Type 0
  IsSome nothing = ⊥
  IsSome (more c cs) = Unit

  -- Comparisons of texts, with `and_`, `or_` of one condition at least, and `not_`.
  unfoldable mutual
    pub IsTextual : Condition → Type 0
    IsTextual (leaf f method val) = IsLeaf f (method_operator method) val
    IsTextual (near f val distance) = ⊥
    IsTextual (all_of cs) = AllTextual cs
    IsTextual (any_of cs) = IsSome cs × AllTextual cs
    IsTextual (negated c) = IsTextual c

    pub AllTextual : Conditions → Type 0
    AllTextual nothing = Unit
    AllTextual (more c cs) = IsTextual c × AllTextual cs

expression-comparison :
    (render : Json → String) (op : Operator) (left right s : String) (args : Option String)
    → is_comparison op ≡ true
    → expression render (some (operator_value op)) left (some right) (some (str s)) args
      ≡ some (
          String.◌++◌ (parenthesised left) (
            String.◌++◌ " "
              (String.◌++◌ (operator_value op) (String.◌++◌ " " (parenthesised right)))))
expression-comparison render equals left right s args h = refl
expression-comparison render not_equals left right s args h = refl
expression-comparison render less_than left right s args h = refl
expression-comparison render greater_than left right s args h = refl
expression-comparison render less_than_or_equal left right s args h = refl
expression-comparison render greater_than_or_equal left right s args h = refl
expression-comparison render _ left right s args h = cc

not_spatial :
    (op : Operator)
    → (is_comparison op || is_in_op op) ≡ true
    → is_spatial (some (operator_value op)) ≡ false
not_spatial equals h = refl
not_spatial not_equals h = refl
not_spatial less_than h = refl
not_spatial greater_than h = refl
not_spatial less_than_or_equal h = refl
not_spatial greater_than_or_equal h = refl
not_spatial in_ h = refl
not_spatial _ h = cc

lower-source_value : (source : Source) → lower (source_value source) ≡ source_value source
unfolding lower
lower-source_value resource = refl
lower-source_value principal = refl
lower-source_value context = refl

is_in : (op : Operator) → is_in_op op ≡ true → op ≡ in_
is_in in_ h = refl
is_in _ h = cc

right_text-list :
    (render : Json → String) (var : String) (items : Items)
    → IsTexts items
    → has_prefix "$" (render (arr items)) ≡ false
    → (t : String) × (right_text render var false (some (arr items)) ≡ ok (some t))
unfolding right_text
right_text-list render var nil h plain = absurd h
right_text-list render var (cons (str s) items) h plain = rw plain (_, refl)
right_text-list render var (cons _ items) h plain = absurd h

-- What is written for a leaf, and that the leaf means it.
module _ (render : Json → String) (ctx : Json) (var : String) where
  pub leaf-print :
      (f : FluentCondition) (op : Operator) (val : Json)
      → IsLeaf render ctx f op val
      → compile_leaf render var (build f op val none)
        ≡ ok (some (print var render (clause_of_leaf f op val)))
  unfolding compile_leaf print print_operand
  leaf-print f op (str s) (compared, name, found) =
      rw
        (
          lower-operator_value op,
          not_spatial op (rw compared refl),
          right_text-operand render ctx var s found,
          lower-source_value f.source,
          left_text-place var f.source f.attr name,
        )
        (ap ok (
          rw (not_spatial op (rw compared refl)) at (
            expression-comparison render op (print_place var (place_of f.source f.attr))
              (print_operand var (operand_of s)) s none compared)))
  leaf-print f op (arr items) (listed, name, texts, plain) =
      let (t, written) = right_text-list render var items texts plain in
      rw (is_in op listed) (
        rw
          (
            lower-operator_value in_,
            written,
            lower-source_value f.source,
            left_text-place var f.source f.attr name,
          )
          refl)
  leaf-print f op _ h = absurd h

  module _ (other : String → Option String → Option Json → Option Bool)
      (attribute : String → Option String) where
    comparison-compare_values :
        (op : Operator) (left right : Option String)
        → is_comparison op ≡ true
        → comparison render other attribute ctx (operator_value op) left right
          ≡ compare_values render other attribute (some (operator_value op)) left (json_text right)
    unfolding compare_values
    comparison-compare_values equals left right h =
        rw (text_of_val-json_text render ctx other attribute right) refl
    comparison-compare_values not_equals left right h =
        rw (text_of_val-json_text render ctx other attribute right) refl
    comparison-compare_values less_than left right h = refl
    comparison-compare_values greater_than left right h = refl
    comparison-compare_values less_than_or_equal left right h = refl
    comparison-compare_values greater_than_or_equal left right h = refl
    comparison-compare_values _ left right h = cc

    pub leaf-value :
        (f : FluentCondition) (op : Operator) (val : Json)
        → IsLeaf render ctx f op val
        → value render other attribute ctx (clause_of_leaf f op val)
          ≡ leaf_holds render other attribute ctx f op val
    unfolding value leaf_holds compare_values
    leaf-value f op (str s) (compared, name, found) =
        rw
          (
            place_value-attribute_at render ctx other attribute f.source f.attr name,
            value_of-operand render ctx other attribute s found,
          )
          (comparison-compare_values op (attribute_at render other attribute ctx f.source f.attr)
            (operand_value render other attribute ctx (operand_of s)) compared)
    leaf-value f op (arr items) (listed, name, texts, plain) = rw (is_in op listed) (
        rw
          (
            place_value-attribute_at render ctx other attribute f.source f.attr name,
            equals_any-contained render ctx other attribute
                (attribute_at render other attribute ctx f.source f.attr) items texts,
          )
          refl)
    leaf-value f op _ h = absurd h
