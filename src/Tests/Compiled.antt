-- ===== src/Tests/Compiled.antt =====
-- Compiled conditions, and the results about them.
use Prim.Native.String
use stateful_abac_policy_eng.Prelude.{String, true, none, some, [], ◌∷◌, ◌≡◌, refl, ok, has_prefix}
use stateful_abac_policy_eng.Json.{Json, str, arr, cons, nil}
use stateful_abac_policy_eng.Policy.Resources.{clause}
use stateful_abac_policy_eng.Resolve.{walk, resolve_abac_condition, get_value_from_context}
use stateful_abac_policy_eng.Resolve.Meaning.{holds, meaning}
use stateful_abac_policy_eng.Sdk.Condition.{
  Condition, leaf, near, all_of, negated, more, nothing, attr_named, eq, is_in, encode, call,
}
use stateful_abac_policy_eng.Compile.{
  compile_condition_to_sql, compiled_sql_of, steps, compile, compile_leaf,
}
use stateful_abac_policy_eng.Compile.Path.{read_path, read_path-steps}
use stateful_abac_policy_eng.Compile.Clause.{print, value}
use stateful_abac_policy_eng.Compile.Agrees.{clause_of, IsTextual}
use stateful_abac_policy_eng.Compile.Leaves.{IsFound}
use stateful_abac_policy_eng.Compile.Sound.{compile_condition_to_sql_sound, compile-resolve}
use stateful_abac_policy_eng.Compile.Faults.{compiled_sql_of-empty_list, compile-distance}
use stateful_abac_policy_eng.Tests.Rules.{
  print as json_text, no_other, owned, ann_context, run_clause, role_row, document_7,
}

-- `owner == $principal.username and not (level in ["low", "o'hara"])`
abbrev owner_not_low : Condition
owner_not_low = all_of (
    more (leaf (attr_named "owner") eq (str "$principal.username")) (
      more
        (negated
          (leaf (attr_named "level") is_in (arr (cons (str "low") (cons (str "o'hara") nil)))))
        nothing))

owner_not_low-IsTextual : IsTextual json_text ann_context owner_not_low
unfolding has_prefix IsTextual IsFound walk
owner_not_low-IsTextual = ((refl, refl, ((refl, refl))), ((refl, refl, tt, refl), tt))

compiled_owner :
    compile_condition_to_sql json_text "p_ctx" (some (encode owner_not_low))
    ≡ ok (
        some
          "((resource.attributes->>'owner') = (p_ctx->'principal'->>'username') AND NOT ((resource.attributes->>'level') = ANY(ARRAY(SELECT jsonb_array_elements_text('?'::jsonb)))))")
unfolding compile_condition_to_sql encode compile compile_leaf steps
compiled_owner = refl

compile_condition_to_sql_sound_example :
    (compile_condition_to_sql json_text "p_ctx" (some (encode owner_not_low))
      ≡ ok (some (print "p_ctx" json_text (clause_of owner_not_low))))
    × (value json_text no_other owned ann_context (clause_of owner_not_low)
        ≡ holds json_text no_other owned ann_context owner_not_low)
compile_condition_to_sql_sound_example =
    compile_condition_to_sql_sound json_text no_other owned ann_context "p_ctx" owner_not_low
      owner_not_low-IsTextual

abbrev owner_only : Condition
owner_only = all_of (more (leaf (attr_named "owner") eq (str "$principal.username")) nothing)

compile-resolve_example :
    (compile_condition_to_sql json_text "p_ctx" (some (encode owner_only))
      ≡ ok (some (print "p_ctx" json_text (clause_of owner_only))))
    × ((j : Json) × (resolve_abac_condition json_text ann_context (some (encode owner_only))
          ≡ ok (some j))
        × (meaning json_text no_other owned j
            ≡ value json_text no_other owned ann_context (clause_of owner_only)))
unfolding get_value_from_context has_prefix IsTextual IsFound
compile-resolve_example =
    compile-resolve json_text no_other owned ann_context "p_ctx" owner_only
      ((refl, refl, (refl, refl)), tt) ((refl, refl, refl), tt)

quoted_steps : steps "->>" ("a" ∷ "it's" ∷ []) ≡ "->'a'->>'it''s'"
unfolding steps
quoted_steps = refl

read_path-steps_example :
    read_path 2 (String.◌++◌ (steps "->>" ("a" ∷ "it's" ∷ [])) ") = 1")
    ≡ some ("a" ∷ "it's" ∷ [], ") = 1")
unfolding has_prefix
read_path-steps_example = read_path-steps "a" ("it's" ∷ []) ") = 1" refl

compiled_sql_of-empty_list_example :
    (compiled_sql_of json_text (some (call (attr_named "owner") eq (arr nil))) ≡ ok none)
    × ((record role_row { compiled_sql = none }).compiled_sql ≡ none
        → clause run_clause ann_context (record role_row { compiled_sql = none }) document_7
          ≡ ok (some true))
unfolding has_prefix
compiled_sql_of-empty_list_example =
    compiled_sql_of-empty_list json_text (attr_named "owner") run_clause ann_context
      (record role_row { compiled_sql = none }) document_7 refl

compile-distance_example :
    (before : String) × ((distance : String)
      → compile_condition_to_sql json_text "p_ctx"
          (some (encode (near (attr_named "geometry") (str "POINT(1 2)") (str distance))))
        ≡ ok (some (String.◌++◌ before (String.◌++◌ distance ")"))))
unfolding has_prefix
compile-distance_example =
    compile-distance json_text (attr_named "geometry") "POINT(1 2)" "p_ctx" refl
