-- ===== src/Services/Acls/Faults.antt =====
-- Where `ACLService` reaches another row, or another realm, than the call names.
use stateful_abac_policy_eng.Prelude.{
  ℕ, String, false, not, ◌&&◌, Option, none, some, List, [], ◌∷◌, ◌++◌, ◌==◌, ◌≡◌, ◌≢◌, refl, ◌∙◌,
  eq_text, Result, ok, any, Bool-cases, inl, inr, ok_of_bind, err_absurd, ok_injective, arith,
}
use stateful_abac_policy_eng.Json.{Json}
use stateful_abac_policy_eng.Policy.{Acl}
use stateful_abac_policy_eng.Auth.Decisions.{DecisionKey, get_type_level_decision}
use stateful_abac_policy_eng.Auth.Decisions.Forget.{get_type_level_decision-invalidated}
use stateful_abac_policy_eng.Services.Acls.Rows.{
  AclState, RuleKey, passes_check, violates_index, column_of, one_or_none, AclCreate,
  required_resource, given, in_realm, for_resource, resolve_external, delete_row,
}
use stateful_abac_policy_eng.Services.Acls.Operations.{
  create_acl, insert_acl, rows_of, AclAnswer, delete_acl_by_key, map_acl_to_dict, forget_type,
  with_rows, new_row,
}
use stateful_abac_policy_eng.Services.Acls.Batch.{AclBatchDeleteItem, delete_all}

-- When `delete_acl_by_key` is asked for the row of an external id that the table does not have, for a
-- type other than 0: the row for the whole type is deleted, if it is the one that a search without
-- a resource finds; and an item of a batch that deletes by such an id deletes what the item without
-- the id does.
pub delete_acl_by_key-unknown :
    (realm_id : ℕ) (k : RuleKey) (e : String) (s : AclState) (a : Acl)
    → k.resource_type_id ≢ 0
    → eq_text e "" ≡ false
    → resolve_external s.external_ids realm_id k.resource_type_id e ≡ none
    → one_or_none (rows_of (in_realm realm_id (for_resource none k)) s) ≡ ok (some a)
    → (delete_acl_by_key realm_id (for_resource none k) (some e) s
        ≡ ok (
          some (map_acl_to_dict s a),
          forget_type realm_id k.resource_type_id (with_rows s (delete_row a s.acls)),
        ))
      × ((d : AclBatchDeleteItem) (rest : List AclBatchDeleteItem)
          → d.resource_type_id ≡ k.resource_type_id
          → delete_all realm_id (record d { resource_external_id = some e } ∷ rest) s
            ≡ delete_all realm_id (record d { resource_external_id = none } ∷ rest) s)
unfolding delete_acl_by_key
delete_acl_by_key-unknown realm_id k e s a typed named unknown found =
    let other : (k.resource_type_id == 0) ≡ false = ground (arith, typed) in
    (rw (other, named, unknown, found) refl, λ d rest same. rw (named, same, unknown) refl)

module _ (compile : Option Json → Result (Option String)) where
  -- When `create_acl` returns for a body that names another realm than the call does, and the realm of
  -- the call has no row of the body's key: a row of the realm of the body is added, and no decision
  -- cached for that realm is forgotten.
  pub create_acl-foreign :
      (realm_id : ℕ) (c : AclCreate) (s : AclState) (out : AclAnswer × AclState)
      (resource_id : Option ℕ) (k : DecisionKey)
      → c.key.realm_id ≢ realm_id
      → required_resource s.external_ids realm_id c.key.resource_type_id
          (given c.resource_external_id)
          c.key.resource_id
        ≡ ok resource_id
      → one_or_none (rows_of (in_realm realm_id (for_resource resource_id c.key)) s) ≡ ok none
      → create_acl compile realm_id c s ≡ ok out
      → k.realm_id ≡ c.key.realm_id
      → ((sql : Option String) × (out.1.acls
            ≡ (s.acls ++ new_row s.next_id (for_resource resource_id c.key) c.conditions sql ∷ [])))
        × (get_type_level_decision out.1.decisions k ≡ get_type_level_decision s.decisions k)
  unfolding create_acl
  create_acl-foreign realm_id c s out resource_id k other known free h at =
      let key = for_resource resource_id c.key in
      let (made, inserted, done) =
        ok_of_bind (insert_acl compile key c.conditions s) _ out (rw (known, free) at h) in
      let (sql, compiled, stored) = ok_of_bind (compile (column_of c.conditions)) _ made inserted in
      elim (Bool-cases
        (passes_check key.principal_id key.role_id && not (any (violates_index key) s.acls))) [
          | inl passes ↦
              let made_is = ok_injective _ made (rw passes at stored) in
              let away : (k.realm_id == realm_id) ≡ false = ground (arith, other, at) in
              rw (← ok_injective _ out done, ← made_is)
                (
                  (sql, refl),
                  (get_type_level_decision-invalidated s.decisions realm_id 0 c.key.resource_type_id
                        k).1
                      ∙ rw away refl,
                )
          | inr fails ↦ err_absurd made (rw fails at stored)
        ]
