-- ===== src/Resolve/Sound.antt =====
-- The resolver's answer for a condition that the SDK builds means what the condition means.
use stateful_abac_policy_eng.Prelude.{
  String, Bool, true, false, ◌||◌, Option, none, some, List, [], ◌∷◌, ◌++◌, ◌≡◌, refl, ap, sym, ◌∙◌,
  arith, Result, ok, Bool-cases, inl, inr, lower,
}
use stateful_abac_policy_eng.Json.{Json, null, bool, is_bool_json, is_null_json}
use stateful_abac_policy_eng.Resolve.{
  resolve, resolve_items, resolve_abac_condition, resolve_leaf, dispatch, and_loop, or_loop,
  null_items, group,
}
use stateful_abac_policy_eng.Resolve.Meaning.{
  meaning, every, some_item, holds, every_holds, some_holds, leaf_holds, and3, or3,
}
use stateful_abac_policy_eng.Resolve.Values.{is_logical}
use stateful_abac_policy_eng.Resolve.Leaf.{LeafReady, leaf-LeafMeans}
use stateful_abac_policy_eng.Sdk.Condition.{
  FluentCondition, Operator, build, and_op, or_op, not_op, st_dwithin, method_operator, Method,
  Condition, leaf, near, all_of, any_of, negated, Conditions, nothing, more, encode, encode_all,
}

abbrev pub somes : List Json → List (Option Json)
somes [] = []
somes (j ∷ js) = some j ∷ somes js

pub somes-append : (js : List Json) (j : Json) → somes js ++ some j ∷ [] ≡ somes (js ++ j ∷ [])
somes-append [] j = refl
somes-append (i ∷ js) j = ap (◌∷◌ (some i)) (somes-append js j)

pub and3_assoc : (a b c : Option Bool) → and3 (and3 a b) c ≡ and3 a (and3 b c)
and3_assoc a b c = ground arith

pub or3_assoc : (a b c : Option Bool) → or3 (or3 a b) c ≡ or3 a (or3 b c)
or3_assoc a b c = ground arith

and3-true : (a : Option Bool) → and3 a (some true) ≡ a
and3-true a = ground arith

and3-false : (a : Option Bool) → and3 a (some false) ≡ some false
and3-false a = ground arith

or3-false : (a : Option Bool) → or3 a (some false) ≡ a
or3-false a = ground arith

or3-true : (a : Option Bool) → or3 a (some true) ≡ some true
or3-true a = ground arith

resolve-leaf :
    (render : Json → String) (ctx : Json) (f : FluentCondition) (op : Operator) (val : Json)
    (args : Option Json)
    → is_logical op ≡ false
    → resolve render ctx (build f op val args) ≡ ok (resolve_leaf render ctx (build f op val args))
unfolding resolve dispatch lower
resolve-leaf render ctx f and_op val args h = cc
resolve-leaf render ctx f or_op val args h = cc
resolve-leaf render ctx f not_op val args h = cc
resolve-leaf render ctx f _ val args h = refl

module _ (render : Json → String) (other : String → Option String → Option Json → Option Bool)
    (attribute : String → Option String) where
  abbrev means : Json → Option Bool
  means = meaning render other attribute

  -- AND and OR over a list of answers
  abbrev all_mean : List Json → Option Bool
  all_mean [] = some true
  all_mean (j ∷ js) = and3 (means j) (all_mean js)

  abbrev one_means : List Json → Option Bool
  one_means [] = some false
  one_means (j ∷ js) = or3 (means j) (one_means js)

  all_mean-append :
      (js : List Json) (j : Json) → all_mean (js ++ j ∷ []) ≡ and3 (all_mean js) (means j)
  all_mean-append [] j = and3-true (means j)
  all_mean-append (i ∷ js) j =
      ap (and3 (means i)) (all_mean-append js j)
      ∙ sym (and3_assoc (means i) (all_mean js) (means j))

  one_means-append :
      (js : List Json) (j : Json) → one_means (js ++ j ∷ []) ≡ or3 (one_means js) (means j)
  one_means-append [] j = or3-false (means j)
  one_means-append (i ∷ js) j =
      ap (or3 (means i)) (one_means-append js j)
      ∙ sym (or3_assoc (means i) (one_means js) (means j))

  every-null_items :
      (js : List Json) → every render other attribute (null_items (somes js)) ≡ all_mean js
  unfolding meaning
  every-null_items [] = refl
  every-null_items (j ∷ js) = ap (and3 (means j)) (every-null_items js)

  some_item-null_items :
      (js : List Json) → some_item render other attribute (null_items (somes js)) ≡ one_means js
  unfolding meaning
  some_item-null_items [] = refl
  some_item-null_items (j ∷ js) = ap (or3 (means j)) (some_item-null_items js)

  -- what the answer `o` of a loop means
  abbrev pub Answers : Option Bool → Result (Option Json) → Type 0
  Answers truth r = (j : Json) × (r ≡ ok (some j)) × (means j ≡ truth)

  finish_and : (js : List Json) → Answers (all_mean js) (and_loop [] (somes js))
  unfolding meaning lower and_loop
  finish_and [] = (bool true, refl, refl)
  finish_and (j ∷ []) = (j, refl, sym (and3-true (means j)))
  finish_and (i ∷ j ∷ js) = (group "and" (somes (i ∷ j ∷ js)), refl, every-null_items (i ∷ j ∷ js))

  finish_or : (js : List Json) → Answers (one_means js) (or_loop [] (somes js))
  unfolding meaning lower or_loop
  finish_or [] = (bool false, refl, refl)
  finish_or (j ∷ []) = (j, refl, sym (or3-false (means j)))
  finish_or (i ∷ j ∷ js) =
      (group "or" (somes (i ∷ j ∷ js)), refl, some_item-null_items (i ∷ j ∷ js))

  pub false-means : (j : Json) → is_bool_json false j ≡ true → means j ≡ some false
  unfolding meaning
  false-means (bool true) h = cc
  false-means (bool false) h = refl
  false-means _ h = cc

  pub true-means : (j : Json) → is_bool_json true j ≡ true → means j ≡ some true
  unfolding meaning
  true-means (bool true) h = refl
  true-means _ h = cc

  dropped_means : (j : Json) → (is_bool_json true j || is_null_json j) ≡ true → means j ≡ some true
  unfolding meaning
  dropped_means (bool true) h = refl
  dropped_means null h = refl
  dropped_means (bool false) h = cc
  dropped_means _ h = cc

  -- One round of the loop of 'and', from what the rest answers with the element dropped or kept.
  and_step :
      (j : Json) (tail : List (Result (Option Json))) (js : List Json) (rest : Option Bool)
      → Answers (and3 (all_mean js) rest) (and_loop tail (somes js))
      → Answers (and3 (all_mean (js ++ j ∷ [])) rest) (and_loop tail (somes (js ++ j ∷ [])))
      → Answers
          (and3 (all_mean js) (and3 (means j) rest))
          (and_loop (ok (some j) ∷ tail) (somes js))
  unfolding and_loop meaning
  and_step j tail js rest dropped kept = elim (Bool-cases (is_bool_json false j)) [
    | inl f ↦ rw (f, false-means j f) (bool false, refl, sym (and3-false (all_mean js)))
    | inr t ↦ elim (Bool-cases (is_bool_json true j || is_null_json j)) [
      | inl d ↦ rw (t, d, dropped_means j d) dropped
      | inr k ↦ rw (t, k, somes-append js j) (rw (all_mean-append, and3_assoc) at kept)
    ]
  ]

  or_step :
      (j : Json) (tail : List (Result (Option Json))) (js : List Json) (rest : Option Bool)
      → Answers (or3 (one_means js) rest) (or_loop tail (somes js))
      → Answers (or3 (one_means (js ++ j ∷ [])) rest) (or_loop tail (somes (js ++ j ∷ [])))
      → Answers (or3 (one_means js) (or3 (means j) rest)) (or_loop (ok (some j) ∷ tail) (somes js))
  unfolding or_loop meaning
  or_step j tail js rest dropped kept = elim (Bool-cases (is_bool_json true j)) [
    | inl t ↦ rw (t, true-means j t) (bool true, refl, sym (or3-true (one_means js)))
    | inr f ↦ elim (Bool-cases (is_bool_json false j)) [
      | inl d ↦ rw (f, d, false-means j d) dropped
      | inr k ↦ rw (f, k, somes-append js j) (rw (one_means-append, or3_assoc) at kept)
    ]
  ]

  module _ (ctx : Json) where
    -- What the resolver needs of a condition: every leaf ready, and no use of `not_`.
    abbrev mutual
      pub Ready : Condition → Type 0
      Ready (leaf f method val) =
          LeafReady render other attribute ctx f (method_operator method) val
      Ready (near f val distance) = LeafReady render other attribute ctx f st_dwithin val
      Ready (all_of cs) = AllReady cs
      Ready (any_of cs) = AllReady cs
      Ready (negated c) = ⊥

      pub AllReady : Conditions → Type 0
      AllReady nothing = Unit
      AllReady (more c cs) = Ready c × AllReady cs

    method-not_logical : (m : Method) → is_logical (method_operator m) ≡ false
    method-not_logical Method.eq = refl
    method-not_logical _ = refl

    leaf-Answers :
        (f : FluentCondition) (op : Operator) (val : Json) (args : _)
        → is_logical op ≡ false
        → LeafReady render other attribute ctx f op val
        → Answers
            (leaf_holds render other attribute ctx f op val)
            (resolve render ctx (build f op val args))
    leaf-Answers f op val args p ready =
        let (j, answered, same) =
          leaf-LeafMeans render other attribute ctx f.source f.attr op val args p ready in
        rw (resolve-leaf render ctx f op val args p) (j, ap ok answered, same)

    mutual
      unfolding resolve encode holds dispatch lower

      condition-Answers :
          (c : Condition)
          → Ready c
          → Answers (holds render other attribute ctx c) (resolve render ctx (encode c))
      condition-Answers (leaf f method val) h =
          leaf-Answers f (method_operator method) val none (method-not_logical method) h
      condition-Answers (near f val distance) h =
          leaf-Answers f st_dwithin val (some distance) refl h
      condition-Answers (all_of cs) h = every-Answers cs h []
      condition-Answers (any_of cs) h = some-Answers cs h []
      condition-Answers (negated c) h = absurd h

      every-Answers :
          (cs : Conditions)
          → AllReady cs
          → (js : List Json)
          → Answers
              (and3 (all_mean js) (every_holds render other attribute ctx cs))
              (and_loop (resolve_items render ctx (encode_all cs)) (somes js))
      every-Answers nothing h js = rw (and3-true (all_mean js)) (finish_and js)
      every-Answers (more c cs) (h, hs) js =
          let (j, answered, same) = condition-Answers c h in
          rw (answered, ← same)
            (and_step j (resolve_items render ctx (encode_all cs)) js _ (every-Answers cs hs js)
              (every-Answers cs hs (js ++ j ∷ [])))

      some-Answers :
          (cs : Conditions)
          → AllReady cs
          → (js : List Json)
          → Answers
              (or3 (one_means js) (some_holds render other attribute ctx cs))
              (or_loop (resolve_items render ctx (encode_all cs)) (somes js))
      some-Answers nothing h js = rw (or3-false (one_means js)) (finish_or js)
      some-Answers (more c cs) (h, hs) js =
          let (j, answered, same) = condition-Answers c h in
          rw (answered, ← same)
            (or_step j (resolve_items render ctx (encode_all cs)) js _ (some-Answers cs hs js)
              (some-Answers cs hs (js ++ j ∷ [])))

-- Of every condition that a client builds with the fluent builder and that is ready, that is, it
-- uses no `not_`, each attribute it reads from the principal or the context is present, each
-- reference among its values is found (or is a reference to the resource) with a text that is not
-- itself a reference to the resource, and IN on an attribute of the principal or the context has a
-- literal list: the resolver returns a condition, without an exception and not NULL, and for every
-- resource the returned condition, read with no context, has the truth value, in three-valued
-- logic, that the built condition has for that resource under the context.
pub resolve_sound :
    (render : Json → String) (other : String → Option String → Option Json → Option Bool)
    (attribute : String → Option String) (ctx : Json) (c : Condition)
    → Ready render other attribute ctx c
    → (j : Json) × (resolve_abac_condition render ctx (some (encode c)) ≡ ok (some j))
      × (meaning render other attribute j ≡ holds render other attribute ctx c)
unfolding resolve_abac_condition
resolve_sound render other attribute ctx c ready =
    condition-Answers render other attribute ctx c ready
