-- ===== src/Compile/Sound.antt =====
-- `compile_condition_to_sql` keeps the meaning of the conditions that a client builds from comparisons
-- of texts.
use stateful_abac_policy_eng.Prelude.{
  or-true, String, Bool, true, false, ◌||◌, Option, none, some, List, [], ◌∷◌, ◌≡◌, refl, sym, ◌∙◌,
  ok, lower,
}
use stateful_abac_policy_eng.Json.{Json, str, arr}
use stateful_abac_policy_eng.Resolve.{resolve_abac_condition}
use stateful_abac_policy_eng.Resolve.Values.{is_in_op}
use stateful_abac_policy_eng.Resolve.Meaning.{holds, every_holds, some_holds, meaning}
use stateful_abac_policy_eng.Sdk.Condition.{
  FluentCondition, Operator, operator_value, build, Condition, Conditions, leaf, near, all_of,
  any_of, negated, nothing, more, encode, encode_all, method_operator, in_, equals, not_equals,
  less_than, greater_than, less_than_or_equal, greater_than_or_equal,
}
use stateful_abac_policy_eng.Compile.{
  compile, compile_items, is_compound, compile_condition_to_sql, after_first,
}
use stateful_abac_policy_eng.Compile.Clause.{print, print_rest, value, value_all, value_any}
use stateful_abac_policy_eng.Resolve.Sound.{Ready, resolve_sound}
use stateful_abac_policy_eng.Compile.Agrees.{
  is_comparison, clause_of_leaf, clause_of, clauses_of, IsLeaf, IsTextual, AllTextual, leaf-print,
  leaf-value,
}

module _ (render : Json → String) (ctx : Json) (var : String) where
  -- the texts of a list of conditions
  abbrev texts_of : Conditions → List (Option String)
  texts_of nothing = []
  texts_of (more c cs) = some (print var render (clause_of c)) ∷ texts_of cs

  after_first-texts_of :
      (sep : String) (cs : Conditions)
      → after_first sep (texts_of cs) ≡ print_rest var render sep (clauses_of cs)
  unfolding print clauses_of
  after_first-texts_of sep nothing = refl
  after_first-texts_of sep (more c cs) = rw (after_first-texts_of sep cs) refl

  not_compound :
      (op : Operator)
      → (is_comparison op || is_in_op op) ≡ true
      → is_compound (some (lower (operator_value op))) ≡ false
  unfolding lower
  not_compound equals h = refl
  not_compound not_equals h = refl
  not_compound less_than h = refl
  not_compound greater_than h = refl
  not_compound less_than_or_equal h = refl
  not_compound greater_than_or_equal h = refl
  not_compound in_ h = refl
  not_compound _ h = cc

  leaf_compiles :
      (f : FluentCondition) (op : Operator) (val : Json)
      → IsLeaf render ctx f op val
      → compile render var (build f op val none)
        ≡ ok (some (print var render (clause_of_leaf f op val)))
  unfolding compile
  leaf_compiles f op (str s) h =
      rw (not_compound op (rw h.0 refl)) (leaf-print render ctx var f op (str s) h)
  leaf_compiles f op (arr items) h =
      rw (not_compound op (rw h.0 (or-true (is_comparison op))))
        (leaf-print render ctx var f op (arr items) h)
  leaf_compiles f op _ h = absurd h

  mutual
    unfolding compile encode lower clause_of print IsTextual

    condition_compiles :
        (c : Condition)
        → IsTextual render ctx c
        → compile render var (encode c) ≡ ok (some (print var render (clause_of c)))
    condition_compiles (leaf f method val) h = leaf_compiles f (method_operator method) val h
    condition_compiles (near f val distance) h = absurd h
    condition_compiles (all_of nothing) h = refl
    condition_compiles (all_of (more c cs)) (h, hs) =
        rw (condition_compiles c h, conditions_compile cs hs, after_first-texts_of " AND " cs) refl
    condition_compiles (any_of nothing) h = absurd h.0
    condition_compiles (any_of (more c cs)) (_, (h, hs)) =
        rw (condition_compiles c h, conditions_compile cs hs, after_first-texts_of " OR " cs) refl
    condition_compiles (negated c) h = rw (condition_compiles c h) refl

    conditions_compile :
        (cs : Conditions)
        → AllTextual render ctx cs
        → compile_items render var (encode_all cs) ≡ ok (texts_of cs)
    conditions_compile nothing h = refl
    conditions_compile (more c cs) (h, hs) =
        rw (condition_compiles c h, conditions_compile cs hs) refl

  module _ (other : String → Option String → Option Json → Option Bool)
      (attribute : String → Option String) where
    mutual
      unfolding holds clause_of value IsTextual

      condition_means :
          (c : Condition)
          → IsTextual render ctx c
          → value render other attribute ctx (clause_of c) ≡ holds render other attribute ctx c
      condition_means (leaf f method val) h =
          leaf-value render ctx var other attribute f (method_operator method) val h
      condition_means (near f val distance) h = absurd h
      condition_means (all_of nothing) h = refl
      condition_means (all_of (more c cs)) (h, hs) = rw (condition_means c h, all_mean cs hs) refl
      condition_means (any_of nothing) h = absurd h.0
      condition_means (any_of (more c cs)) (_, (h, hs)) =
          rw (condition_means c h, any_means cs hs) refl
      condition_means (negated c) h = rw (condition_means c h) refl

      all_mean :
          (cs : Conditions)
          → AllTextual render ctx cs
          → value_all render other attribute ctx (clauses_of cs)
            ≡ every_holds render other attribute ctx cs
      all_mean nothing h = refl
      all_mean (more c cs) (h, hs) = rw (condition_means c h, all_mean cs hs) refl

      any_means :
          (cs : Conditions)
          → AllTextual render ctx cs
          → value_any render other attribute ctx (clauses_of cs)
            ≡ some_holds render other attribute ctx cs
      any_means nothing h = refl
      any_means (more c cs) (h, hs) = rw (condition_means c h, any_means cs hs) refl

-- Of a condition that a client builds from comparisons with a text and IN with a list of texts, by
-- `and_`, by `or_` of at least one condition and by `not_`, whose references are found in the
-- context or name an attribute of the resource without a dot, and whose attributes have no dot (or,
-- of the resource, are not the geometry): `compile_condition_to_sql` returns the text of a clause,
-- without an exception and not NULL, and the clause has for every resource, in three-valued logic,
-- the truth value that the condition has.
pub compile_condition_to_sql_sound :
    (render : Json → String) (other : String → Option String → Option Json → Option Bool)
    (attribute : String → Option String) (ctx : Json) (var : String) (c : Condition)
    → IsTextual render ctx c
    → (compile_condition_to_sql render var (some (encode c))
        ≡ ok (some (print var render (clause_of c))))
      × (value render other attribute ctx (clause_of c) ≡ holds render other attribute ctx c)
unfolding compile_condition_to_sql
compile_condition_to_sql_sound render other attribute ctx var c h =
    (condition_compiles render ctx var c h, condition_means render ctx var other attribute c h)

-- Where such a condition is also ready for the resolver, the clause and the answer of
-- `resolve_abac_condition` agree: for every resource they have one truth value.
pub compile-resolve :
    (render : Json → String) (other : String → Option String → Option Json → Option Bool)
    (attribute : String → Option String) (ctx : Json) (var : String) (c : Condition)
    → IsTextual render ctx c
    → Ready render other attribute ctx c
    → (compile_condition_to_sql render var (some (encode c))
        ≡ ok (some (print var render (clause_of c))))
      × ((j : Json) × (resolve_abac_condition render ctx (some (encode c)) ≡ ok (some j))
          × (meaning render other attribute j ≡ value render other attribute ctx (clause_of c)))
compile-resolve render other attribute ctx var c h ready =
    let (written, means) = compile_condition_to_sql_sound render other attribute ctx var c h in
    let (j, answered, same) = resolve_sound render other attribute ctx c ready in
    (written, (j, answered, same ∙ sym means))
