-- ===== src/Compile/Faults.antt =====
-- Conditions that `compile_condition_to_sql` does not write as they are meant.
use Prim.Native.String
use stateful_abac_policy_eng.Prelude.{
  String, Bool, true, false, Option, none, some, ◌≡◌, refl, sym, ap, ◌∙◌, Result, ok, has_prefix,
  lower, Bool-cases, inl, inr,
}
use stateful_abac_policy_eng.Json.{Json, str, arr, nil}
use stateful_abac_policy_eng.Policy.{Acl, Resource}
use stateful_abac_policy_eng.Policy.Resources.{clause}
use stateful_abac_policy_eng.Sdk.Condition.{FluentCondition, source_value, near, encode, eq, call}
use stateful_abac_policy_eng.Compile.{
  right_text, left_text, compile_leaf, compile, compile_condition_to_sql, compiled_sql_of,
  geometry_left, geometry_text, quote_literal,
}
use stateful_abac_policy_eng.Compile.Literal.{append_assoc}

-- A test of any attribute for equality with an empty list, where the list is printed with no dollar sign
-- first: the trigger stores NULL for it, and the clause of a row whose stored text is NULL lets
-- every resource through.
pub compiled_sql_of-empty_list :
    (render : Json → String) (f : FluentCondition)
    (run : String → Json → Resource → Result (Option Bool)) (ctx : Json) (a : Acl) (r : Resource)
    → has_prefix "$" (render (arr nil)) ≡ false
    → (compiled_sql_of render (some (call f eq (arr nil))) ≡ ok none)
      × (a.compiled_sql ≡ none → clause run ctx a r ≡ ok (some true))
unfolding compiled_sql_of compile_condition_to_sql compile compile_leaf right_text lower clause
compiled_sql_of-empty_list render f run ctx a r plain = (rw plain refl, λ h. rw h refl)

-- A text put before the last of five.
last_of_five :
    (a b c g e t : String)
    → String.◌++◌ a (String.◌++◌ b (String.◌++◌ c (String.◌++◌ g (String.◌++◌ e t))))
      ≡ String.◌++◌ (String.◌++◌ a (String.◌++◌ b (String.◌++◌ c (String.◌++◌ g e)))) t
last_of_five a b c g e t = sym (
    append_assoc a (String.◌++◌ b (String.◌++◌ c (String.◌++◌ g e))) t
    ∙ ap (String.◌++◌ a) (
        append_assoc b (String.◌++◌ c (String.◌++◌ g e)) t
        ∙ ap (String.◌++◌ b)
            (append_assoc c (String.◌++◌ g e) t ∙ ap (String.◌++◌ c) (append_assoc g e t))))

geometry_some : (s right : String) → (g : String) × (geometry_text (some s) (some right) ≡ some g)
geometry_some s right = elim (Bool-cases (has_prefix "$" s)) [
  | inl dollar ↦ rw dollar (_, refl)
  | inr a ↦ elim (Bool-cases (has_prefix "{" s)) [
    | inl json ↦ rw (a, json) (_, refl)
    | inr b ↦ elim (Bool-cases (has_prefix "SRID=3857;" s)) [
      | inl metric ↦ rw (a, b, metric) (_, refl)
      | inr c ↦ elim (Bool-cases (has_prefix "SRID=" s)) [
        | inl other ↦ rw (a, b, c, other) (_, refl)
        | inr d ↦ rw (a, b, c, d) (_, refl)
      ]
    ]
  ]
]

-- The distance of a `dwithin` is written as it is, without quotes: for a text that is no reference,
-- the clause ends in the characters of the distance and a parenthesis, whatever they are.
pub compile-distance :
    (render : Json → String) (f : FluentCondition) (s var : String)
    → has_prefix "$" s ≡ false
    → (before : String) × ((distance : String)
        → compile_condition_to_sql render var (some (encode (near f (str s) (str distance))))
          ≡ ok (some (String.◌++◌ before (String.◌++◌ distance ")"))))
unfolding compile_condition_to_sql compile compile_leaf right_text lower encode
compile-distance render f s var plain =
    let left = geometry_left (left_text var true (lower (source_value f.source)) (some f.attr)) in
    let (g, made) = geometry_some s (quote_literal s) in
    (
      String.◌++◌ "ST_DWithin(" (String.◌++◌ left (String.◌++◌ ", " (String.◌++◌ g ", "))),
      λ distance.
          rw (plain, rw plain at made)
            (ap (λ t. ok (some t))
              (last_of_five "ST_DWithin(" left ", " g ", " (String.◌++◌ distance ")"))),
    )
