-- ===== src/Services/Acls/Upserts.antt =====
-- What `create_acl` and `delete_acl_by_key` do to the map from a key to conditions.
use stateful_abac_policy_eng.Prelude.{
  ℕ, String, false, not, ◌&&◌, Option, none, some, List, [], ◌∷◌, ◌++◌, ◌≡◌, refl, ap, ◌∙◌,
  if◌then◌else◌, Result, ok, any, Bool-cases, inl, inr, ok_of_bind, err_absurd, ok_injective,
  any-none,
}
use stateful_abac_policy_eng.Json.{Json}
use stateful_abac_policy_eng.Policy.{Acl}
use stateful_abac_policy_eng.Services.Acls.Rows.{
  AclState, RuleKey, has_key, same_rule, passes_check, violates_index, column_of, value_of_column,
  replace_row, one_or_none, AclCreate, required_resource, given, in_realm, for_resource,
}
use stateful_abac_policy_eng.Services.Acls.Operations.{
  create_acl, upsert, insert_acl, set_conditions, new_row, rows_of, AclAnswer,
}
use stateful_abac_policy_eng.Services.Acls.Distinct.{same_rule_flip}
use stateful_abac_policy_eng.Services.Acls.Replaced.{Owns-found}
use stateful_abac_policy_eng.Services.Acls.Kept.{Inv, one_or_none-found, one_or_none-missing}
use stateful_abac_policy_eng.Services.Acls.Forgets.{one_or_none-true}
use stateful_abac_policy_eng.Services.Acls.AsMap.{
  stored, written, same_rule_self, same_rule_eq, stored-append_one, stored-append_new,
  stored-missing, stored-found, stored-replace_row_self, stored-replace_row, same_row_self,
  other_key,
}

written-new : (c : Option Json) → value_of_column (column_of c) ≡ written c none
written-new none = refl
written-new (some c) = refl

-- the key itself, or another
by_key {ℓ} : (P : RuleKey → Type ℓ) (k l : RuleKey) → P k → (same_rule k l ≡ false → P l) → P l
by_key P k l here other = elim (Bool-cases (same_rule k l)) [
  | inl same ↦ rw (same_rule_eq k l same) here
  | inr free ↦ other free
]

-- The map `after` is the map `before` with new conditions at the key.
abbrev pub IsWrite : RuleKey → Option Json → List Acl → List Acl → RuleKey → Type 0
IsWrite k c before after l =
    stored l after ≡ (if same_rule k l then some (written c (stored k before)) else stored l before)

module _ (compile : Option Json → Result (Option String)) where
  insert_acl-stored :
      (k l : RuleKey) (c : Option Json) (s : AclState) (out : Acl × AclState)
      → one_or_none (rows_of k s) ≡ ok none
      → insert_acl compile k c s ≡ ok out
      → IsWrite k c s.acls out.1.acls l
  insert_acl-stored k l c s out missing h =
      let (sql, compiled, done) = ok_of_bind (compile (column_of c)) _ out h in
      elim (Bool-cases
        (passes_check k.principal_id k.role_id && not (any (violates_index k) s.acls))) [
          | inl passes ↦
              let new : Acl = new_row s.next_id k c sql in
              let free = any-none (has_key k) s.acls (one_or_none-missing (rows_of k s) missing) in
              rw (← ok_injective _ out (rw passes at done)) (
                by_key (IsWrite k c s.acls (s.acls ++ new ∷ [])) k l
                  (rw (same_rule_self k, stored-missing k s.acls free)
                    (stored-append_new k s.acls new free (same_rule_self k)
                      ∙ ap some (written-new c)))
                  λ other. rw other (stored-append_one l s.acls new (same_rule_flip l k ∙ other)))
          | inr fails ↦ err_absurd out (rw fails at done)
        ]

  set_conditions-stored :
      (k l : RuleKey) (a : Acl) (c : Option Json) (s : AclState) (out : Acl × AclState)
      → one_or_none (rows_of k s) ≡ ok (some a)
      → set_conditions compile a c s ≡ ok out
      → Inv s
      → IsWrite k c s.acls out.1.acls l
  set_conditions-stored k l a none s out search h v =
      let found = stored-found k s.acls a (one_or_none-found (rows_of k s) a search) in
      rw (← ok_injective (a, s) out h) (
        by_key (IsWrite k none s.acls s.acls) k l (rw (same_rule_self k, found) refl)
          λ other. rw other refl)
  set_conditions-stored k l a (some c) s out search h v =
      let (sql, compiled, done) = ok_of_bind (compile (some c)) _ out h in
      let new : Acl = record a { conditions = some c; compiled_sql = sql } in
      let found = one_or_none-found (rows_of k s) a search in
      let keyed = one_or_none-true (has_key k) a s.acls search in
      let owns = Owns-found (has_key k) a s.acls v.distinct found in
      rw (← ok_injective _ out done) (
        by_key (IsWrite k (some c) s.acls (replace_row new s.acls)) k l
          (rw (same_rule_self k) (
            stored-replace_row_self k a new s.acls (λ b. refl) (same_row_self a) keyed keyed owns
              found))
          λ other. rw other (
            stored-replace_row l a new s.acls (λ b. refl) (other_key k l a keyed other)
              (other_key k l a keyed other) owns))

  upsert-stored :
      (realm_id : ℕ) (k l : RuleKey) (c : Option Json) (s : AclState) (found : Option Acl)
      (out : AclAnswer × AclState)
      → one_or_none (rows_of k s) ≡ ok found
      → upsert compile realm_id k c s found ≡ ok out
      → Inv s
      → IsWrite k c s.acls out.1.acls l
  upsert-stored realm_id k l c s none out search h v =
      let (made, inserted, done) = ok_of_bind (insert_acl compile k c s) _ out h in
      rw (← ok_injective _ out done) (insert_acl-stored k l c s made search inserted)
  upsert-stored realm_id k l c s (some a) out search h v =
      let (made, written, done) = ok_of_bind (set_conditions compile a c s) _ out h in
      rw (← ok_injective _ out done) (set_conditions-stored k l a c s made search written v)

  -- When `create_acl` returns for a body that names the realm of the call, in tables in which no two
  -- rows of acl have one key or one id: the row of the body's key, with the resource of its external
  -- id, has the body's conditions, or those it had where the body has none, and the conditions of
  -- every other key are as they were.
  pub create_acl-IsWrite :
      (realm_id : ℕ) (c : AclCreate) (s : AclState) (out : AclAnswer × AclState)
      (resource_id : Option ℕ) (l : RuleKey)
      → Inv s
      → c.key.realm_id ≡ realm_id
      → required_resource s.external_ids realm_id c.key.resource_type_id
          (given c.resource_external_id)
          c.key.resource_id
        ≡ ok resource_id
      → create_acl compile realm_id c s ≡ ok out
      → IsWrite (for_resource resource_id c.key) c.conditions s.acls out.1.acls l
  unfolding create_acl
  create_acl-IsWrite realm_id c s out resource_id l v realm known h =
      let key = for_resource resource_id c.key in
      let (found, search, done) =
        ok_of_bind (one_or_none (rows_of (in_realm realm_id key) s)) _ out (rw known at h) in
      upsert-stored realm_id key l c.conditions s found out (rw (← realm) at search) done v
