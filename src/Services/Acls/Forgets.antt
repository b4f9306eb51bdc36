-- ===== src/Services/Acls/Forgets.antt =====
-- Every call of `ACLService` forgets the cached decisions of the types whose rows it changes.
use stateful_abac_policy_eng.Prelude.{
  ℕ, String, Bool, true, false, not, ◌&&◌, Option, none, some, List, [], ◌∷◌, ◌==◌, ◌≡◌, refl, sym,
  ap, ◌∙◌, Result, ok, where_true, any, Bool-cases, inl, inr, ok_of_bind, err_absurd, arith,
  ok_injective, ==_iff, ==_self, cons_head, true_false,
}
use stateful_abac_policy_eng.Json.{Json}
use stateful_abac_policy_eng.Policy.{Acl}
use stateful_abac_policy_eng.Auth.Decisions.{DecisionKey}
use stateful_abac_policy_eng.Services.Acls.Rows.{
  AclState, RuleKey, has_key, same_column, passes_check, violates_index, column_of, same_row,
  delete_row, one_or_none,
}
use stateful_abac_policy_eng.Services.Acls.Operations.{
  forget_type, with_rows, delete_rows, insert_acl, set_conditions, new_row,
}
use stateful_abac_policy_eng.Services.Acls.Kept.{one_or_none-found}
use stateful_abac_policy_eng.Services.Acls.Fresh.{
  of_type, rows_behind, IsFresh, is_behind, IsForeign, forgotten, where_true-append_one,
  where_true-kept, where_true-replace_row,
}

pub settle :
    (realm_id type_id : ℕ) (k : DecisionKey) (s u : AclState)
    → (is_behind realm_id type_id k ≡ false → rows_behind k u ≡ rows_behind k s)
    → IsFresh k s (forget_type realm_id type_id u)
settle realm_id type_id k s u h = elim (Bool-cases (is_behind realm_id type_id k)) [
  | inl behind ↦ inl (forgotten realm_id type_id u.decisions k behind)
  | inr other ↦ inr (h other)
]

pub IsForeign-row :
    (realm_id type_id : ℕ) (k : DecisionKey) (a : Acl)
    → (a.realm_id == realm_id) ≡ true
    → (a.resource_type_id == type_id) ≡ true
    → is_behind realm_id type_id k ≡ false
    → IsForeign k a
IsForeign-row realm_id type_id k a realm type other =
    ground (arith, ==_iff a.realm_id realm_id, ==_iff a.resource_type_id type_id)

found-true : (p : Acl → Bool) (a : Acl) (rows : List Acl) → where_true p rows ≡ a ∷ [] → p a ≡ true
found-true p a [] h = cc
found-true p a (b ∷ rows) h = elim (Bool-cases (p b)) [
  | inl kept ↦ ap p (sym (cons_head b a (where_true p rows) [] (rw kept at h))) ∙ kept
  | inr dropped ↦ found-true p a rows (rw dropped at h)
]

-- what the search found passes its test
pub one_or_none-true :
    (p : Acl → Bool) (a : Acl) (rows : List Acl)
    → one_or_none (where_true p rows) ≡ ok (some a)
    → p a ≡ true
one_or_none-true p a rows h = found-true p a rows (one_or_none-found (where_true p rows) a h)

six_parts : (a b c d e f : Bool) → (a && b && c && d && e && f) ≡ true → (a ≡ true) × (b ≡ true)
six_parts a b c d e f h = ground arith

pub has_key-type :
    (k : RuleKey) (a : Acl)
    → has_key k a ≡ true
    → ((a.realm_id == k.realm_id) ≡ true) × ((a.resource_type_id == k.resource_type_id) ≡ true)
has_key-type k a h =
    six_parts (a.realm_id == k.realm_id) (a.resource_type_id == k.resource_type_id)
      (a.action_id == k.action_id) (same_column a.principal_id k.principal_id)
      (same_column a.role_id k.role_id) (same_column a.resource_id k.resource_id) h

-- The row of a key is foreign where the key's type is.
pub IsForeign-key :
    (key : RuleKey) (k : DecisionKey) (a : Acl)
    → has_key key a ≡ true
    → is_behind key.realm_id key.resource_type_id k ≡ false
    → IsForeign k a
IsForeign-key key k a h other =
    let (realm, type) = has_key-type key a h in
    IsForeign-row key.realm_id key.resource_type_id k a realm type other

same_row-IsForeign :
    (k : DecisionKey) (b a : Acl) → IsForeign k a → same_row b a ≡ true → IsForeign k b
same_row-IsForeign k b a h same =
    ground (arith, ==_iff b.realm_id a.realm_id, ==_iff b.resource_type_id a.resource_type_id)

pub delete_row-behind :
    (k : DecisionKey) (a : Acl) (s : AclState)
    → IsForeign k a
    → rows_behind k (with_rows s (delete_row a s.acls)) ≡ rows_behind k s
delete_row-behind k a s h =
    where_true-kept (of_type k.realm_id k.type_id) (λ b. not (same_row b a)) s.acls
      λ b wanted. elim (Bool-cases (same_row b a)) [
        | inl same ↦
            true_false (of_type k.realm_id k.type_id b) wanted (same_row-IsForeign k b a h same)
        | inr other ↦ rw other refl
      ]

pub delete_rows-behind :
    (key : RuleKey) (k : DecisionKey) (s : AclState)
    → is_behind key.realm_id key.resource_type_id k ≡ false
    → rows_behind k (delete_rows key s) ≡ rows_behind k s
delete_rows-behind key k s other =
    where_true-kept (of_type k.realm_id k.type_id) (λ b. not (has_key key b)) s.acls
      λ b wanted. elim (Bool-cases (has_key key b)) [
        | inl same ↦
            true_false (of_type k.realm_id k.type_id b) wanted (IsForeign-key key k b same other)
        | inr free ↦ rw free refl
      ]

module _ (compile : Option Json → Result (Option String)) where
  pub set_conditions-behind :
      (k : DecisionKey) (a : Acl) (c : Option Json) (s : AclState) (out : Acl × AclState)
      → set_conditions compile a c s ≡ ok out
      → IsForeign k a
      → rows_behind k out.1 ≡ rows_behind k s
  set_conditions-behind k a none s out h foreign = rw (← ok_injective (a, s) out h) refl
  set_conditions-behind k a (some c) s out h foreign =
      let (sql, compiled, done) = ok_of_bind (compile (some c)) _ out h in
      rw (← ok_injective _ out done) (
        where_true-replace_row (of_type k.realm_id k.type_id)
          (record a { conditions = some c; compiled_sql = sql }) s.acls foreign
          λ b same. same_row-IsForeign k b a foreign same)

  pub insert_acl-behind :
      (key : RuleKey) (k : DecisionKey) (c : Option Json) (s : AclState) (out : Acl × AclState)
      → insert_acl compile key c s ≡ ok out
      → is_behind key.realm_id key.resource_type_id k ≡ false
      → rows_behind k out.1 ≡ rows_behind k s
  insert_acl-behind key k c s out h other =
      let (sql, compiled, done) = ok_of_bind (compile (column_of c)) _ out h in
      elim (Bool-cases
        (passes_check key.principal_id key.role_id && not (any (violates_index key) s.acls))) [
          | inl passes ↦
              let new : Acl = new_row s.next_id key c sql in
              rw (← ok_injective _ out (rw passes at done)) (
                where_true-append_one (of_type k.realm_id k.type_id) s.acls new (
                  IsForeign-row key.realm_id key.resource_type_id k new (==_self key.realm_id)
                    (==_self key.resource_type_id) other))
          | inr fails ↦ err_absurd out (rw fails at done)
        ]

  pub written_type :
      (a : Acl) (c : Option Json) (s : AclState) (made : Acl × AclState)
      → set_conditions compile a c s ≡ ok made
      → made.0.resource_type_id ≡ a.resource_type_id
  written_type a none s made h = rw (← ok_injective (a, s) made h) refl
  written_type a (some c) s made h =
      let (sql, compiled, done) = ok_of_bind (compile (some c)) _ made h in
      rw (← ok_injective _ made done) refl
