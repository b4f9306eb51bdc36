-- ===== src/Compile/Clause.antt =====
-- The WHERE clauses that `compile_condition_to_sql` writes for comparisons of texts: their syntax, as
-- it is printed, and the truth value that PostgreSQL gives them for a resource and a context. How an
-- operator other than =, != and = ANY compares is left open, as for conditions: `other` decides it.
use Prim.Native.String
use stateful_abac_policy_eng.Prelude.{
  String, Bool, true, false, Option, some, List, ◌∷◌, eq_text, if◌then◌else◌,
}
use stateful_abac_policy_eng.Json.{Json, arr, Items, nil, cons, get, text_of}
use stateful_abac_policy_eng.Resolve.{walk, equal}
use stateful_abac_policy_eng.Resolve.Meaning.{and3, or3, not3, json_text}
use stateful_abac_policy_eng.Compile.{quote_literal, steps}

-- an attribute of the resource, or a path in the context from `principal` or `context`
pub data Place : Type 0 where
  attribute_of : String → Place
  at_path : String → String → List String → Place

pub data Operand : Type 0 where
  text : String → Operand
  place : Place → Operand

-- a comparison by an operator, a test for an element of a list, and the connectives
mutual
  pub data Clause : Type 0 where
    truth : Clause
    compares : String → Place → Operand → Clause
    among : Place → Items → Clause
    both : Clause → Clauses → Clause
    either : Clause → Clauses → Clause
    no : Clause → Clause

  pub data Clauses : Type 0 where
    done : Clauses
    also : Clause → Clauses → Clauses

abbrev pub parenthesised : String → String
parenthesised s = String.◌++◌ "(" (String.◌++◌ s ")")

module _ (ctx_var : String) where
  unfoldable pub print_place : Place → String
  unfolding quote_literal
  print_place (attribute_of a) =
      String.◌++◌ "resource.attributes" (String.◌++◌ "->>" (quote_literal a))
  print_place (at_path root key path) =
      String.◌++◌ (String.◌++◌ ctx_var (String.◌++◌ "->'" (String.◌++◌ root "'")))
        (steps "->>" (key ∷ path))

  unfoldable pub print_operand : Operand → String
  unfolding print_place
  print_operand (text s) = quote_literal s
  print_operand (place p) = print_place p

  module _ (render : Json → String) where
    unfoldable mutual
      unfolding print_operand

      pub print : Clause → String
      print truth = "TRUE"
      print (compares op p v) =
          String.◌++◌ (parenthesised (print_place p))
            (String.◌++◌ " " (String.◌++◌ op (String.◌++◌ " " (parenthesised (print_operand v)))))
      print (among p items) = String.◌++◌ (parenthesised (print_place p)) (
          String.◌++◌ " = ANY(ARRAY(SELECT jsonb_array_elements_text("
            (String.◌++◌ (quote_literal (render (arr items))) "::jsonb)))"))
      print (both c cs) = parenthesised (String.◌++◌ (print c) (print_rest " AND " cs))
      print (either c cs) = parenthesised (String.◌++◌ (print c) (print_rest " OR " cs))
      print (no c) = String.◌++◌ "NOT (" (String.◌++◌ (print c) ")")

      pub print_rest : String → Clauses → String
      print_rest sep done = ""
      print_rest sep (also c cs) = String.◌++◌ sep (String.◌++◌ (print c) (print_rest sep cs))

module _ (render : Json → String) (other : String → Option String → Option Json → Option Bool)
    (attribute : String → Option String) (ctx : Json) where
  -- `->` of the root and of each key but the last, `->>` of that
  unfoldable pub place_value : Place → Option String
  place_value (attribute_of a) = attribute a
  place_value (at_path root key path) = walk render (get root ctx) (key ∷ path)

  unfoldable pub operand_value : Operand → Option String
  unfolding place_value
  operand_value (text s) = some s
  operand_value (place p) = place_value p

  -- `left = ANY(...)`: an OR of equalities
  abbrev pub equals_any : Option String → Items → Option Bool
  equals_any left nil = some false
  equals_any left (cons j items) = or3 (equal left (text_of render j)) (equals_any left items)

  abbrev pub comparison : String → Option String → Option String → Option Bool
  comparison op left right =
      if eq_text op "="
      then equal left right
      else if eq_text op "!="
      then not3 (equal left right)
      else other op left (json_text right)

  unfoldable mutual
    unfolding operand_value

    pub value : Clause → Option Bool
    value truth = some true
    value (compares op p v) = comparison op (place_value p) (operand_value v)
    value (among p items) = equals_any (place_value p) items
    value (both c cs) = and3 (value c) (value_all cs)
    value (either c cs) = or3 (value c) (value_any cs)
    value (no c) = not3 (value c)

    pub value_all : Clauses → Option Bool
    value_all done = some true
    value_all (also c cs) = and3 (value c) (value_all cs)

    pub value_any : Clauses → Option Bool
    value_any done = some false
    value_any (also c cs) = or3 (value c) (value_any cs)
