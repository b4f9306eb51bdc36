-- ===== src/Policy/Conditions/Merged.antt =====
-- The filter that is made of what the loop has collected, and what it lets through.
use mathlib.Core.List.{append-nil}
use stateful_abac_policy_eng.Prelude.{
  String, Bool, true, false, ◌&&◌, ◌||◌, Option, some, List, [], ◌∷◌, ◌++◌, ◌≡◌, refl, ap, ◌∙◌, sym,
  arith, or-false, any, any-append, mem_text, eq_text, has_prefix, strip_prefix-none, lower,
}
use stateful_abac_policy_eng.Json.{Json, str, arr}
use stateful_abac_policy_eng.Resolve.{null_items}
use stateful_abac_policy_eng.Resolve.Meaning.{meaning, some_item, compare_values, answer_leaf}
use stateful_abac_policy_eng.Resolve.Sound.{somes, somes-append}
use stateful_abac_policy_eng.Policy.Conditions.{
  Filter, Collected, strings, id_condition, both, scoped, finish, with_ids, merged,
}
use stateful_abac_policy_eng.Policy.Conditions.Allows.{
  is_true, is_true-or3, is_true-both, eq_text_comm, items_contain-strings, filter_allows,
}

-- the condition on the external ids that need no further condition
abbrev ids_condition : List String → List Json
ids_condition [] = []
ids_condition ids = id_condition "in" (arr (strings ids)) ∷ []

with_ids-somes :
    (js : List Json) (ids : List String) → with_ids (somes js) ids ≡ somes (js ++ ids_condition ids)
with_ids-somes js [] = sym (ap somes (append-nil js))
with_ids-somes js (i ∷ ids) = somes-append js (id_condition "in" (arr (strings (i ∷ ids))))

pub somes-append_list : (js ks : List Json) → somes js ++ somes ks ≡ somes (js ++ ks)
somes-append_list [] ks = refl
somes-append_list (j ∷ js) ks = ap (◌∷◌ (some j)) (somes-append_list js ks)

-- The Boolean identities of the four ways in which a round can end.
pub grant_bools : (b c r : Bool) → c ≡ true → true ≡ (b || (c || r))
grant_bools b c r h = ground arith

pub ids_bools :
    (p m k both_ids c r : Bool)
    → both_ids ≡ (m || k)
    → c ≡ true
    → ((p || both_ids) || r) ≡ ((p || m) || ((k && c) || r))
ids_bools p m k both_ids c r h t = ground arith

pub skip_bools : (b x c r : Bool) → c ≡ false → (b || r) ≡ (b || ((x && c) || r))
skip_bools b x c r h = ground arith

pub found_bools :
    (p m x c all_found r : Bool)
    → all_found ≡ (p || (x && c))
    → ((all_found || m) || r) ≡ ((p || m) || ((x && c) || r))
found_bools p m x c all_found r h = ground arith

abbrev pub gathered : List Json → List String → Bool → Collected
gathered js ids refs = record { found = somes js; unconditional_ids = ids; context_refs = refs }

unfoldable pub scoped_json : List String → Json → List Json
scoped_json [] j = []
scoped_json (i ∷ []) j = both (id_condition "=" (str i)) (some j) ∷ []
scoped_json ids j = both (id_condition "in" (arr (strings ids))) (some j) ∷ []

pub scoped-somes : (ids : List String) (j : Json) → scoped ids (some j) ≡ somes (scoped_json ids j)
unfolding scoped_json
scoped-somes [] j = refl
scoped-somes (i ∷ []) j = refl
scoped-somes (i ∷ k ∷ ids) j = refl

module _ (render : Json → String) (other : String → Option String → Option Json → Option Bool)
    (attribute : String → Option String) (ctx : Json) (e : String)
    (external_id : attribute "external_id" ≡ some e) where
  abbrev pass : Json → Bool
  pass j = is_true (meaning render other attribute j)

  abbrev allows : Filter → Bool
  allows = filter_allows render other attribute ctx e

  meaning-id_in :
      (ids : List String)
      → meaning render other attribute (id_condition "in" (arr (strings ids)))
        ≡ some (mem_text e ids)
  unfolding meaning answer_leaf compare_values lower
  meaning-id_in ids = rw (external_id, items_contain-strings)

  meaning-id_equal :
      (s : String)
      → has_prefix "$resource." s ≡ false
      → meaning render other attribute (id_condition "=" (str s)) ≡ some (mem_text e (s ∷ []))
  unfolding meaning answer_leaf compare_values lower
  meaning-id_equal s h =
      rw (external_id, strip_prefix-none "$resource." s h)
        (ap some (eq_text_comm e s ∙ sym (or-false (eq_text s e))))

  pass-both :
      (a j : Json) (b : Bool)
      → meaning render other attribute a ≡ some b
      → pass (both a (some j)) ≡ (b && pass j)
  unfolding meaning lower
  pass-both a j b h = rw h (is_true-both b (meaning render other attribute j))

  some_item-passes :
      (js : List Json)
      → is_true (some_item render other attribute (null_items (somes js))) ≡ any pass js
  unfolding meaning
  some_item-passes [] = refl
  some_item-passes (j ∷ js) =
      is_true-or3 (meaning render other attribute j) _ ∙ ap (λ b. pass j || b) (some_item-passes js)

  merged-allows : (js : List Json) (refs : Bool) → allows (merged (somes js) refs) ≡ any pass js
  unfolding meaning lower
  merged-allows [] refs = refl
  merged-allows (j ∷ []) refs = sym (or-false (pass j))
  merged-allows (i ∷ j ∷ js) refs = some_item-passes (i ∷ j ∷ js)

  ids_condition-passes : (ids : List String) → any pass (ids_condition ids) ≡ mem_text e ids
  ids_condition-passes [] = refl
  ids_condition-passes (i ∷ ids) = or-false _ ∙ ap is_true (meaning-id_in (i ∷ ids))

  pub finish-allows :
      (js : List Json) (ids : List String) (refs : Bool)
      → allows (finish (gathered js ids refs)) ≡ (any pass js || mem_text e ids)
  unfolding finish
  finish-allows js ids refs =
      ap (λ list. allows (merged list refs)) (with_ids-somes js ids)
      ∙ merged-allows (js ++ ids_condition ids) refs
      ∙ any-append pass js (ids_condition ids)
      ∙ ap (λ b. any pass js || b) (ids_condition-passes ids)

  pub scoped-passes :
      (ids : List String) (j : Json)
      → any (has_prefix "$resource.") ids ≡ false
      → any pass (scoped_json ids j) ≡ (mem_text e ids && pass j)
  unfolding scoped_json
  scoped-passes [] j h = refl
  scoped-passes (i ∷ []) j h =
      or-false _ ∙ pass-both _ j (mem_text e (i ∷ [])) (meaning-id_equal i (ground arith))
  scoped-passes (i ∷ k ∷ ids) j h =
      or-false _ ∙ pass-both _ j (mem_text e (i ∷ k ∷ ids)) (meaning-id_in (i ∷ k ∷ ids))
