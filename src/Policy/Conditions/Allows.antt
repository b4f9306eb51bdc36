-- ===== src/Policy/Conditions/Allows.antt =====
-- What a filter, a group of rows and a row let through of one resource, and the parts of the proof
-- that they agree which do not concern the loop.
use stateful_abac_policy_eng.Prelude.{
  String, Bool, true, false, ◌&&◌, ◌||◌, Option, none, some, List, [], ◌∷◌, ◌≡◌, refl, ap, ◌∙◌,
  arith, is_none, any, mem_text, mem_text-append, if◌then◌else◌, Result, ok, err, eq_text, eq_iff,
  Bool-cases, inl, inr,
}
use stateful_abac_policy_eng.Json.{Json, items_contain}
use stateful_abac_policy_eng.Json.Equality.{json_eq_sound}
use stateful_abac_policy_eng.Resolve.{resolve_abac_condition}
use stateful_abac_policy_eng.Resolve.Meaning.{meaning, and3, or3}
use stateful_abac_policy_eng.Policy.{Acl, ExternalId}
use stateful_abac_policy_eng.Policy.Conditions.{
  Filter, FilterType, granted_all, denied_all, conditions, Group, is_unconditional, external_ids_of,
  insert_row, group_rows, strings, same_conditions,
}

-- a WHERE clause keeps a row on which it is true, and drops it on false and on NULL
abbrev pub is_true : Option Bool → Bool
is_true none = false
is_true (some b) = b

pub is_true-or3 : (a b : Option Bool) → is_true (or3 a b) ≡ (is_true a || is_true b)
is_true-or3 a b = ground arith

pub is_true-both :
    (b : Bool) (m : Option Bool) → is_true (and3 (some b) (and3 m (some true))) ≡ (b && is_true m)
is_true-both b m = ground arith

pub eq_text_comm : (s t : String) → eq_text s t ≡ eq_text t s
eq_text_comm s t = ground (arith, eq_iff s t, eq_iff t s)

pub items_contain-strings :
    (e : String) (ids : List String) → items_contain (strings ids) e ≡ mem_text e ids
items_contain-strings e [] = refl
items_contain-strings e (s ∷ ids) = ap (λ b. eq_text s e || b) (items_contain-strings e ids)

same_conditions_sound : (a b : Option Json) → same_conditions a b ≡ true → a ≡ b
same_conditions_sound none none h = refl
same_conditions_sound (some a) (some b) h = ap some (json_eq_sound a b h)
same_conditions_sound _ _ h = cc

-- a row joins a group with the same conditions
merge_row :
    (n t m k both_ids c d rest : Bool)
    → both_ids ≡ (m || k)
    → c ≡ d
    → ((((n || t) || both_ids) && c) || rest) ≡ (((n || m) && d) || (((t || k) && c) || rest))
merge_row n t m k both_ids c d rest p q = ground arith

or_left_comm : (a b c : Bool) → (a || (b || c)) ≡ (b || (a || c))
or_left_comm a b c = ground arith

module _ (render : Json → String) (other : String → Option String → Option Json → Option Bool)
    (attribute : String → Option String) (ctx : Json) (e : String) where
  abbrev pub passes : Option Json → Bool
  passes none = false
  passes (some j) = is_true (meaning render other attribute j)

  -- whether the query that a client makes of the filter returns the resource
  abbrev pub filter_allows : Filter → Bool
  filter_allows f = by_type f.filter_type
    where
      by_type : FilterType → Bool
      by_type granted_all = true
      by_type denied_all = false
      by_type conditions = passes f.conditions_dsl

  abbrev answer_passes : Result (Option Json) → Bool
  answer_passes (ok res) = passes res
  answer_passes err = false

  -- whether the condition of a row, once resolved, is true of the resource
  abbrev pub condition_passes : Option Json → Bool
  condition_passes c =
      if is_unconditional c then true else answer_passes (resolve_abac_condition render ctx c)

  -- whether the row is for the resource: for its whole type, or for a resource with the external id
  abbrev pub covers : List ExternalId → Acl → Bool
  covers externals a = is_none a.resource_id || mem_text e (external_ids_of externals a)

  abbrev pub row_passes : List ExternalId → Acl → Bool
  row_passes externals a = covers externals a && condition_passes a.conditions

  abbrev pub group_passes : Group → Bool
  group_passes g = (g.is_type_level || mem_text e g.resource_ids) && condition_passes g.conditions

  any-insert_row :
      (externals : List ExternalId) (a : Acl) (gs : List Group)
      → any group_passes (insert_row externals a gs)
        ≡ (row_passes externals a || any group_passes gs)
  unfolding insert_row
  any-insert_row externals a [] = refl
  any-insert_row externals a (g ∷ gs) =
      elim (Bool-cases (same_conditions g.conditions a.conditions)) [
        | inl same ↦ rw same (
            merge_row (is_none a.resource_id) g.is_type_level
              (mem_text e (external_ids_of externals a)) (mem_text e g.resource_ids) _ _ _ _
              (mem_text-append e (external_ids_of externals a) g.resource_ids)
              (ap condition_passes (same_conditions_sound g.conditions a.conditions same)))
        | inr differ ↦
            rw (differ, any-insert_row externals a gs)
              (or_left_comm (group_passes g) (row_passes externals a) (any group_passes gs))
      ]

  -- Grouping the rows changes nothing of what they let through together.
  pub any-group_rows :
      (externals : List ExternalId) (rows : List Acl)
      → any group_passes (group_rows externals rows) ≡ any (row_passes externals) rows
  unfolding group_rows
  any-group_rows externals [] = refl
  any-group_rows externals (a ∷ rows) =
      any-insert_row externals a (group_rows externals rows)
      ∙ ap (λ b. row_passes externals a || b) (any-group_rows externals rows)
