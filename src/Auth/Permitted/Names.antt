-- ===== src/Auth/Permitted/Names.antt =====
-- Which actions an answer names.
use stateful_abac_policy_eng.Prelude.{
  ℕ, String, Bool, true, false, not, ◌&&◌, ◌||◌, Option, none, some, List, [], ◌∷◌, ◌==◌, ◌≡◌, refl,
  ap, sym, ◌∙◌, arith, eq_text, eq_iff, if◌then◌else◌, mem_text, any, where_true, Bool-cases, inl,
  inr, ==_iff, or_assoc, or-false, Result,
}
use stateful_abac_policy_eng.Json.{Json}
use stateful_abac_policy_eng.Policy.{Query, ExternalId}
use stateful_abac_policy_eng.Policy.Permitted.{Permitted, is_blanket}
use stateful_abac_policy_eng.Auth.Roles.{is_empty}
use stateful_abac_policy_eng.Auth.Permitted.{
  ActionName, name_of, add_name, ResourceActions, add_resource_action, actions_at, Collected,
  collect_row, collect_rows, union, actions_of_resource, respond_one, respond_each, respond_known,
  named_rows, internal_of, internal_ids, batch_rows, collected, type_level_names,
  GetPermittedActionsItem, PermittedActionsResponseItem, Tables,
}

mem_text-add_name :
    (n m : String) (ns : List String) → mem_text n (add_name m ns) ≡ (eq_text m n || mem_text n ns)
mem_text-add_name n m ns = elim (Bool-cases (mem_text m ns)) [
  | inl there ↦ elim (Bool-cases (eq_text m n)) [
    | inl same ↦
        let is_n : mem_text n ns ≡ true =
          ap (λ s. mem_text s ns) (sym ((eq_iff m n).0 same)) ∙ there in
        rw (there, same, is_n) refl
    | inr other ↦ rw (there, other) refl
  ]
  | inr new ↦ rw new refl
]

mem_text-union :
    (n : String) (ns ms : List String) → mem_text n (union ns ms) ≡ (mem_text n ns || mem_text n ms)
mem_text-union n [] ms = refl
mem_text-union n (m ∷ ns) ms =
    mem_text-add_name n m (union ns ms)
    ∙ rw (mem_text-union n ns ms) (sym (or_assoc (eq_text m n) (mem_text n ns) (mem_text n ms)))

apart : (r id i : ℕ) → (r == id) ≡ false → (r == i) ≡ true → (id == i) ≡ false
apart r id i h k = ground arith

actions_at-add_resource_action :
    (n : String) (i id : ℕ) (name : String) (rs : List ResourceActions)
    → mem_text n (actions_at (add_resource_action id name rs) i)
      ≡ (((id == i) && eq_text name n) || mem_text n (actions_at rs i))
actions_at-add_resource_action n i id name [] = ground arith
actions_at-add_resource_action n i id name (r ∷ rs) = elim (Bool-cases (r.resource_id == id)) [
  | inl same ↦
      let key : (r.resource_id == i) ≡ (id == i) =
        ap (λ k. k == i) ((==_iff r.resource_id id).0 same) in
      elim (Bool-cases (id == i)) [
        | inl here ↦ rw (same, key, here) (mem_text-add_name n name r.names)
        | inr other ↦ rw (same, key, other) refl
      ]
  | inr differ ↦ elim (Bool-cases (r.resource_id == i)) [
    | inl here ↦ rw (differ, here, apart r.resource_id id i differ here) refl
    | inr other ↦ rw (differ, other) (actions_at-add_resource_action n i id name rs)
  ]
]

-- whether the row is of an action with the name, as far as the realm map knows the action
abbrev pub has_name : String → Option String → Bool
has_name n none = false
has_name n (some name) = not (eq_text name "") && eq_text name n

abbrev pub names_type : List ActionName → String → Permitted → Bool
names_type known n row = row.is_type_level && has_name n (name_of known row.action_id)

abbrev pub names_resource : List ActionName → ℕ → String → Permitted → Bool
names_resource known i n row =
    (not row.is_type_level && (row.resource_id == i)) && has_name n (name_of known row.action_id)

swap_or : (a b c : Bool) → (a || (b || c)) ≡ ((b || a) || c)
swap_or a b c = ground arith

collect_row-type :
    (n : String) (o : Option String) (row : Permitted) (c : Collected)
    → mem_text n (collect_row o row c).type_level_actions
      ≡ ((row.is_type_level && has_name n o) || mem_text n c.type_level_actions)
collect_row-type n none row c = ground arith
collect_row-type n (some name) row c = elim (Bool-cases (eq_text name "")) [
  | inl empty ↦ rw empty (ground arith)
  | inr text ↦ elim (Bool-cases row.is_type_level) [
    | inl whole ↦ rw (text, whole) (mem_text-add_name n name c.type_level_actions)
    | inr one ↦ rw (text, one) refl
  ]
]

collect_row-resource :
    (n : String) (i : ℕ) (o : Option String) (row : Permitted) (c : Collected)
    → mem_text n (actions_at (collect_row o row c).resource_actions i) ≡ (
        ((not row.is_type_level && (row.resource_id == i)) && has_name n o)
        || mem_text n (actions_at c.resource_actions i))
collect_row-resource n i none row c = ground arith
collect_row-resource n i (some name) row c = elim (Bool-cases (eq_text name "")) [
  | inl empty ↦ rw empty (ground arith)
  | inr text ↦ elim (Bool-cases row.is_type_level) [
    | inl whole ↦ rw (text, whole) refl
    | inr one ↦
        rw (text, one) (actions_at-add_resource_action n i row.resource_id name c.resource_actions)
  ]
]

move_first : (a b c d : Bool) → d ≡ (b || c) → (a || d) ≡ ((b || a) || c)
move_first a b c d h = ground arith

collect_rows-type :
    (n : String) (known : List ActionName) (rows : List Permitted) (c : Collected)
    → mem_text n (collect_rows known rows c).type_level_actions
      ≡ (any (names_type known n) rows || mem_text n c.type_level_actions)
unfolding collect_rows
collect_rows-type n known [] c = refl
collect_rows-type n known (row ∷ rows) c =
    collect_rows-type n known rows (collect_row (name_of known row.action_id) row c)
    ∙ move_first _ _ _ _ (collect_row-type n (name_of known row.action_id) row c)

collect_rows-resource :
    (n : String) (i : ℕ) (known : List ActionName) (rows : List Permitted) (c : Collected)
    → mem_text n (actions_at (collect_rows known rows c).resource_actions i)
      ≡ (any (names_resource known i n) rows || mem_text n (actions_at c.resource_actions i))
unfolding collect_rows
collect_rows-resource n i known [] c = refl
collect_rows-resource n i known (row ∷ rows) c =
    collect_rows-resource n i known rows (collect_row (name_of known row.action_id) row c)
    ∙ move_first _ _ _ _ (collect_row-resource n i (name_of known row.action_id) row c)

-- whether the batch has a row of the resource; the code takes the id 0 for no resource
abbrev pub names_at : List ActionName → Option ℕ → String → List Permitted → Bool
names_at known none n rows = false
names_at known (some i) n rows = not (i == 0) && any (names_resource known i n) rows

-- the actions listed for an external id, the first of its name if it was asked for twice
abbrev pub listed_for : String → List PermittedActionsResponseItem → List String
listed_for e [] = []
listed_for e (r ∷ rs) =
    let rest = listed_for e rs in if is_for r.external_resource_id then r.actions else rest
  where
    is_for : Option String → Bool
    is_for none = false
    is_for (some s) = eq_text s e

listed_for-respond_each :
    (item : GetPermittedActionsItem) (c : Collected) (named : List ExternalId) (e : String)
    (es : List String)
    → mem_text e es ≡ true
    → listed_for e (respond_each item c named es) ≡ (respond_one item c named e).actions
listed_for-respond_each item c named e [] there = cc
listed_for-respond_each item c named e (d ∷ es) there = elim (Bool-cases (eq_text d e)) [
  | inl same ↦ rw same (ap (λ s. (respond_one item c named s).actions) ((eq_iff d e).0 same))
  | inr other ↦ rw other (listed_for-respond_each item c named e es (rw other at there))
]

not_empty : (e : String) (es : List String) → mem_text e es ≡ true → is_empty es ≡ false
not_empty e [] there = cc
not_empty e (d ∷ es) there = refl

module _ (eval : String → Json → Result Bool) (ctx : Json) (tables : Tables) where
  at_resource :
      (q : Query) (known : List ActionName) (named : List ExternalId) (n : String) (o : Option ℕ)
      → mem_text n
          (actions_of_resource o (collected eval ctx tables q known named).resource_actions)
        ≡ names_at known o n (batch_rows eval ctx tables q (internal_ids named))
  at_resource q known named n none = refl
  at_resource q known named n (some i) = elim (Bool-cases (i == 0)) [
    | inl none_such ↦ rw none_such refl
    | inr real ↦ rw real (collect_rows-resource n i known _ _ ∙ or-false _)
  ]

-- For an item of a known type and an external id that it asks for: the answer lists an action for that
-- id exactly if the batch has, for the resource that the id names, a row of an action with that name, or
-- a row for the whole type of one, or the direct query for the whole type finds the name; an id
-- that names no resource gets the actions of the whole type alone.
pub respond_known-listed :
    (eval : String → Json → Result Bool) (ctx : Json) (tables : Tables) (q : Query)
    (known : List ActionName) (item : GetPermittedActionsItem) (e n : String)
    → mem_text e item.external_resource_ids ≡ true
    → mem_text n (listed_for e (respond_known eval ctx tables q known item)) ≡ (
        names_at known
          (internal_of (named_rows q item.external_resource_ids tables.externals) e)
          n
          (batch_rows eval ctx tables q
            (internal_ids (named_rows q item.external_resource_ids tables.externals)))
        || (any (names_type known n) (
              batch_rows eval ctx tables q
                (internal_ids (named_rows q item.external_resource_ids tables.externals)))
            || mem_text n
                (type_level_names tables.actions (where_true (is_blanket q) tables.acls))))
unfolding respond_known
respond_known-listed eval ctx tables q known item e n there =
    let named = named_rows q item.external_resource_ids tables.externals in
    let c = collected eval ctx tables q known named in
    rw
      (
        not_empty e item.external_resource_ids there,
        listed_for-respond_each item c named e item.external_resource_ids there,
      )
      (mem_text-union n (actions_of_resource (internal_of named e) c.resource_actions)
          c.type_level_actions
        ∙ rw (at_resource eval ctx tables q known named n (internal_of named e)) (
            rw
              (collect_rows-type n known (batch_rows eval ctx tables q (internal_ids named))
                (record {
                  type_level_actions =
                      type_level_names tables.actions (where_true (is_blanket q) tables.acls);
                  resource_actions = [];
                }))
              refl))
