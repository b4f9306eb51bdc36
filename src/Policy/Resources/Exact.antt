-- ===== src/Policy/Resources/Exact.antt =====
-- Which resources `get_authorized_resources` returns, in both versions.
use stateful_abac_policy_eng.Prelude.{
  ℕ, String, Bool, true, false, ◌&&◌, ◌||◌, Option, none, some, List, [], ◌∷◌, is_none, any, mem_id,
  where_true, ◌==◌, if◌then◌else◌, Result, ok, ◌≡◌, refl, Bool-cases, or-true, any-same, inl, inr,
  ◌∙◌, sym,
}
use stateful_abac_policy_eng.Json.{Json}
use stateful_abac_policy_eng.Policy.{Acl, Resource, ResourceType, Query, concerns, is_held_or_open}
use stateful_abac_policy_eng.Policy.Resources.{
  is_empty_sql, is_true_sql, is_public, in_filter, of_type, all_of_type, applies, for_resource,
  get_authorized_resources_v3, is_blanket, get_authorized_resources,
}
use stateful_abac_policy_eng.Policy.Conditions.Allows.{is_true}
use stateful_abac_policy_eng.Policy.Resources.Ids.{
  is_one, all_ones, mem_id-ids_of, none_for_all, blanket_parts, lets_first,
}
use stateful_abac_policy_eng.Policy.Resources.Picked.{
  value_of, clause_holds, run_ids, run_rows-run_ids, row_lets, is_let, mem_id-run_ids,
}

module _ (run : String → Json → Resource → Result (Option Bool)) (ctx : Json)
    (value : String → Resource → Option Bool)
    (runs : (sql : String) (r : Resource) → run sql ctx r ≡ ok (value sql r)) where
  -- the resources that the function should return
  abbrev pub is_authorized :
      List ResourceType → List Acl → Query → Option (List ℕ) → Resource → Bool
  is_authorized types acls q filter r =
      (of_type q r && in_filter filter r.id)
      && (is_public types q.resource_type_id || any (λ a. row_lets run ctx value runs q a r) acls)

  mem_id-all_of_type :
      (n : ℕ) (types : List ResourceType) (acls : List Acl) (q : Query) (filter : Option (List ℕ))
      (resources : List Resource)
      → ((r : Resource)
          → (is_public types q.resource_type_id
              || any (λ a. row_lets run ctx value runs q a r) acls)
            ≡ true)
      → mem_id n (all_of_type q filter resources)
        ≡ any (is_one n (is_authorized types acls q filter)) resources
  mem_id-all_of_type n types acls q filter resources h =
      mem_id-ids_of n (λ r. of_type q r && in_filter filter r.id) resources
      ∙ any-same (is_one n (λ r. of_type q r && in_filter filter r.id))
          (is_one n (is_authorized types acls q filter)) resources
          (λ r. all_ones (r.id == n) (of_type q r && in_filter filter r.id) _ (h r))

  mem_id-rows :
      (n : ℕ) (types : List ResourceType) (acls : List Acl) (q : Query) (filter : Option (List ℕ))
      (resources : List Resource)
      → is_public types q.resource_type_id ≡ false
      → mem_id n (run_ids run ctx value runs q filter resources (where_true (applies q) acls))
        ≡ any (is_one n (is_authorized types acls q filter)) resources
  mem_id-rows n types acls q filter resources closed =
      mem_id-run_ids run ctx value runs n q filter resources acls
      ∙ any-same (is_one n (is_let run ctx value runs q filter acls))
          (is_one n (is_authorized types acls q filter)) resources (λ r. rw closed refl)

  v3_exact :
      (types : List ResourceType) (resources : List Resource) (acls : List Acl) (q : Query)
      (filter : Option (List ℕ))
      → (ids : List ℕ) × (get_authorized_resources_v3 run ctx types resources acls q filter
          ≡ ok ids)
        × ((n : ℕ) → mem_id n ids ≡ any (is_one n (is_authorized types acls q filter)) resources)
  unfolding get_authorized_resources_v3
  v3_exact types resources acls q filter = elim (Bool-cases (is_public types q.resource_type_id)) [
    | inl public ↦ rw public (
      all_of_type q filter resources,
      refl,
      λ n. mem_id-all_of_type n types acls q filter resources (λ r. rw public refl),
    )
    | inr closed ↦ rw closed (
      run_ids run ctx value runs q filter resources (where_true (applies q) acls),
      run_rows-run_ids run ctx value runs q filter resources (where_true (applies q) acls),
      λ n. mem_id-rows n types acls q filter resources closed,
    )
  ]

  module _
      (true_holds : (sql : String) (r : Resource)
        → is_true_sql (some sql) ≡ true
        → value sql r ≡ some true) where
    true_clause :
        (sql : Option String) (r : Resource)
        → (is_empty_sql sql || is_true_sql sql) ≡ true
        → is_true (if is_empty_sql sql then some true else value_of run ctx value runs sql r) ≡ true
    unfolding is_empty_sql
    true_clause none r h = refl
    true_clause (some sql) r h = elim (Bool-cases (is_empty_sql (some sql))) [
      | inl empty ↦ rw empty refl
      | inr text ↦ rw text (rw (true_holds sql r (rw text at h)) refl)
    ]

    blanket_lets :
        (q : Query) (r : Resource) (acls : List Acl)
        → any (is_blanket run ctx q) acls ≡ true
        → any (λ a. row_lets run ctx value runs q a r) acls ≡ true
    blanket_lets q r [] h = cc
    blanket_lets q r (a ∷ acls) h = elim (Bool-cases (is_blanket run ctx q a)) [
      | inl here ↦
          let (all_types, clear, applied) =
            blanket_parts (concerns q a) (is_none a.resource_id)
              (is_empty_sql a.compiled_sql || is_true_sql a.compiled_sql) (is_held_or_open q a)
              here in
          lets_first (concerns q a && is_held_or_open q a) (for_resource a.resource_id r.id)
            (clause_holds run ctx value runs a r)
            (any (λ b. row_lets run ctx value runs q b r) acls) applied
            (none_for_all a.resource_id r.id all_types) (true_clause a.compiled_sql r clear)
      | inr other_row ↦
          let later = blanket_lets q r acls (rw other_row at h) in
          rw later (or-true (row_lets run ctx value runs q a r))
    ]

    v2_exact :
        (types : List ResourceType) (resources : List Resource) (acls : List Acl) (q : Query)
        (filter : Option (List ℕ))
        → (ids : List ℕ) × (get_authorized_resources run ctx types resources acls q filter ≡ ok ids)
          × ((n : ℕ) → mem_id n ids ≡ any (is_one n (is_authorized types acls q filter)) resources)
    unfolding get_authorized_resources
    v2_exact types resources acls q filter =
        elim (Bool-cases (is_public types q.resource_type_id)) [
          | inl public ↦ rw public (
            all_of_type q filter resources,
            refl,
            λ n. mem_id-all_of_type n types acls q filter resources (λ r. rw public refl),
          )
          | inr closed ↦ rw closed (elim (Bool-cases (any (is_blanket run ctx q) acls)) [
            | inl blanket ↦ rw blanket (
              all_of_type q filter resources,
              refl,
              λ n. mem_id-all_of_type n types acls q filter resources (λ r.
                  rw (blanket_lets q r acls blanket)
                    (or-true (is_public types q.resource_type_id))),
            )
            | inr rows ↦ rw rows (
              run_ids run ctx value runs q filter resources (where_true (applies q) acls),
              run_rows-run_ids run ctx value runs q filter resources (where_true (applies q) acls),
              λ n. mem_id-rows n types acls q filter resources closed,
            )
          ])
        ]

-- The parameters are PostgreSQL's evaluation of a stored WHERE clause, here one that raises no
-- exception on any resource and gives `value`, and that is true everywhere for a clause that reads
-- TRUE. Then `get_authorized_resources` with the type-level short circuit returns a list of ids, and an
-- id is in it exactly if a resource has it that is of the queried realm and type and within the
-- filter, and either the type is public or some row of the action that the principal holds (directly,
-- by a role, or as anybody) is for the whole type or for this resource and its clause is empty or
-- true of it.
pub get_authorized_resources-exact :
    (run : String → Json → Resource → Result (Option Bool)) (ctx : Json)
    (value : String → Resource → Option Bool)
    (runs : (sql : String) (r : Resource) → run sql ctx r ≡ ok (value sql r))
    (true_holds : (sql : String) (r : Resource)
      → is_true_sql (some sql) ≡ true
      → value sql r ≡ some true)
    (types : List ResourceType) (resources : List Resource) (acls : List Acl) (q : Query)
    (filter : Option (List ℕ))
    → (ids : List ℕ) × (get_authorized_resources run ctx types resources acls q filter ≡ ok ids)
      × ((n : ℕ)
          → mem_id n ids
            ≡ any
                (λ r. (r.id == n) && is_authorized run ctx value runs types acls q filter r)
                resources)
get_authorized_resources-exact run ctx value runs true_holds types resources acls q filter =
    v2_exact run ctx value runs true_holds types resources acls q filter

-- For a stored clause evaluated as in `get_authorized_resources-exact`, the version with the type-level
-- short circuit and the version before it both return a list, and the two lists have the same ids.
pub get_authorized_resources-v3 :
    (run : String → Json → Resource → Result (Option Bool)) (ctx : Json)
    (value : String → Resource → Option Bool)
    (runs : (sql : String) (r : Resource) → run sql ctx r ≡ ok (value sql r))
    (true_holds : (sql : String) (r : Resource)
      → is_true_sql (some sql) ≡ true
      → value sql r ≡ some true)
    (types : List ResourceType) (resources : List Resource) (acls : List Acl) (q : Query)
    (filter : Option (List ℕ))
    → (new_ids : List ℕ) × (old_ids : List ℕ) × (get_authorized_resources run ctx types resources
          acls q filter
        ≡ ok new_ids)
      × (get_authorized_resources_v3 run ctx types resources acls q filter ≡ ok old_ids)
      × ((n : ℕ) → mem_id n new_ids ≡ mem_id n old_ids)
get_authorized_resources-v3 run ctx value runs true_holds types resources acls q filter =
    let (new_ids, new_run, new_same) =
      v2_exact run ctx value runs true_holds types resources acls q filter in
    let (old_ids, old_run, old_same) = v3_exact run ctx value runs types resources acls q filter in
    (new_ids, old_ids, new_run, old_run, λ n. new_same n ∙ sym (old_same n))
