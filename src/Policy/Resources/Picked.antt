-- ===== src/Policy/Resources/Picked.antt =====
-- The ids that the loop over the rows finds.
use stateful_abac_policy_eng.Prelude.{
  ℕ, String, Bool, true, ◌&&◌, Option, none, some, List, [], ◌∷◌, ◌++◌, any, mem_id, mem_id-append,
  where_true, ◌==◌, if◌then◌else◌, Result, ok, ◌≡◌, refl, Bool-cases, any-never, any-or, any-same,
  inl, inr, ap, ◌∙◌, sym,
}
use stateful_abac_policy_eng.Json.{Json}
use stateful_abac_policy_eng.Policy.{Acl, Resource, Query}
use stateful_abac_policy_eng.Policy.Resources.{
  is_empty_sql, in_filter, of_type, applies, for_resource, keep_id, clause_of, clause, select_ids,
  is_candidate, run_rows,
}
use stateful_abac_policy_eng.Policy.Conditions.Allows.{is_true}
use stateful_abac_policy_eng.Policy.Resources.Ids.{
  is_one, if-ok, one_more, none_more, never_one, mem_id-kept,
}

module _ (run : String → Json → Resource → Result (Option Bool)) (ctx : Json)
    (value : String → Resource → Option Bool)
    (runs : (sql : String) (r : Resource) → run sql ctx r ≡ ok (value sql r)) where
  abbrev pub value_of : Option String → Resource → Option Bool
  value_of none r = some true
  value_of (some sql) r = value sql r

  -- the value of the clause of a row on a resource
  abbrev clause_value : Acl → Resource → Option Bool
  clause_value a r = if is_empty_sql a.compiled_sql then some true else value_of a.compiled_sql r

  abbrev pub clause_holds : Acl → Resource → Bool
  clause_holds a r = is_true (clause_value a r)

  clause_of-value :
      (sql : Option String) (r : Resource) → clause_of run ctx sql r ≡ ok (value_of sql r)
  clause_of-value none r = refl
  clause_of-value (some sql) r = runs sql r

  clause-value : (a : Acl) (r : Resource) → clause run ctx a r ≡ ok (clause_value a r)
  unfolding clause
  clause-value a r =
      ap (λ c. if is_empty_sql a.compiled_sql then ok (some true) else c)
        (clause_of-value a.compiled_sql r)
      ∙ if-ok (is_empty_sql a.compiled_sql) (some true) (value_of a.compiled_sql r)

  abbrev picked : Acl → (Resource → Bool) → List Resource → List ℕ
  picked a test [] = []
  picked a test (r ∷ rs) =
      let rest = picked a test rs in if test r then keep_id r.id (clause_value a r) rest else rest

  select_ids-picked :
      (a : Acl) (test : Resource → Bool) (resources : List Resource)
      → select_ids run ctx a test resources ≡ ok (picked a test resources)
  unfolding select_ids
  select_ids-picked a test [] = refl
  select_ids-picked a test (r ∷ rs) = rw (select_ids-picked a test rs) (
      rw (clause-value a r)
        (if-ok (test r) (keep_id r.id (clause_value a r) (picked a test rs)) (picked a test rs)))

  mem_id-picked :
      (n : ℕ) (a : Acl) (test : Resource → Bool) (resources : List Resource)
      → mem_id n (picked a test resources)
        ≡ any (is_one n (λ r. test r && clause_holds a r)) resources
  mem_id-picked n a test [] = refl
  mem_id-picked n a test (r ∷ rs) =
      mem_id-kept n r.id (test r) (clause_value a r) (picked a test rs) _
        (mem_id-picked n a test rs)

  abbrev pub run_ids : Query → Option (List ℕ) → List Resource → List Acl → List ℕ
  run_ids q filter resources [] = []
  run_ids q filter resources (a ∷ rows) =
      picked a (is_candidate run ctx q filter a) resources ++ run_ids q filter resources rows

  pub run_rows-run_ids :
      (q : Query) (filter : Option (List ℕ)) (resources : List Resource) (rows : List Acl)
      → run_rows run ctx q filter resources rows ≡ ok (run_ids q filter resources rows)
  unfolding run_rows
  run_rows-run_ids q filter resources [] = refl
  run_rows-run_ids q filter resources (a ∷ rows) =
      rw (select_ids-picked a (is_candidate run ctx q filter a) resources)
        (rw (run_rows-run_ids q filter resources rows) refl)

  -- a row lets a resource of the type through
  abbrev pub row_lets : Query → Acl → Resource → Bool
  row_lets q a r = applies q a && (for_resource a.resource_id r.id && clause_holds a r)

  -- the resources the loop over the rows should return
  abbrev pub is_let : Query → Option (List ℕ) → List Acl → Resource → Bool
  is_let q filter acls r = (of_type q r && in_filter filter r.id) && any (λ a. row_lets q a r) acls

  pub mem_id-run_ids :
      (n : ℕ) (q : Query) (filter : Option (List ℕ)) (resources : List Resource) (acls : List Acl)
      → mem_id n (run_ids q filter resources (where_true (applies q) acls))
        ≡ any (is_one n (is_let q filter acls)) resources
  mem_id-run_ids n q filter resources [] =
      sym (any-never (is_one n (is_let q filter [])) resources (λ r. never_one (r.id == n) _))
  mem_id-run_ids n q filter resources (a ∷ acls) = elim (Bool-cases (applies q a)) [
    | inl applies_here ↦
        let rows = where_true (applies q) acls in
        let here = is_candidate run ctx q filter a in
        rw applies_here (
          mem_id-append n (picked a here resources) (run_ids q filter resources rows)
          ∙ rw (mem_id-picked n a here resources) (
              rw (mem_id-run_ids n q filter resources acls) (
                any-or (is_one n (λ r. here r && clause_holds a r))
                  (is_one n (is_let q filter acls)) (is_one n (is_let q filter (a ∷ acls)))
                  resources
                  (λ r.
                    one_more (r.id == n) (of_type q r) (for_resource a.resource_id r.id)
                      (in_filter filter r.id) (clause_holds a r) (any (λ b. row_lets q b r) acls)
                      (applies q a) applies_here))))
    | inr other_row ↦ rw other_row (
        mem_id-run_ids n q filter resources acls
        ∙ any-same (is_one n (is_let q filter acls)) (is_one n (is_let q filter (a ∷ acls)))
            resources
            (λ r.
              none_more (r.id == n) (of_type q r && in_filter filter r.id)
                (for_resource a.resource_id r.id && clause_holds a r)
                (any (λ b. row_lets q b r) acls) (applies q a) other_row))
  ]
