-- ===== src/Services/Acls/Stale.antt =====
-- The freshness of cached decisions over a batch, and over every call.
use stateful_abac_policy_eng.Prelude.{
  ℕ, String, Bool, true, false, ◌&&◌, Option, none, some, List, [], ◌∷◌, ◌++◌, map, ◌==◌, ◌≡◌, refl,
  ap, ◌∙◌, Result, ok, err, where_true, Bool-cases, inl, inr, ok_of_bind, arith, ok_injective,
  ==_flip, mem_id, mem_id-append,
}
use stateful_abac_policy_eng.Json.{Json}
use stateful_abac_policy_eng.Policy.{Acl}
use stateful_abac_policy_eng.Auth.Decisions.{DecisionKey}
use stateful_abac_policy_eng.Services.Acls.Rows.{
  AclState, RuleKey, has_key, one_or_none, AclCreate, given, in_realm, for_resource,
}
use stateful_abac_policy_eng.Services.Acls.Operations.{
  set_conditions, rows_of, create_acl, update_acl, delete_acl, delete_acl_by_key,
}
use stateful_abac_policy_eng.Services.Acls.Batch.{
  BatchAclOperation, AclBatchUpdateItem, batch_acls, create_all, create_one, update_all, update_one,
  delete_all, affected_types, key_of_update, created_resource,
}
use stateful_abac_policy_eng.Services.Acls.Calls.{
  Call, creates, updates, deletes, deletes_key, batches, step, IsLocal, AllInRealm, after,
  after_batch,
}
use stateful_abac_policy_eng.Services.Acls.Fresh.{
  rows_behind, IsFresh, is_behind, forget_types-forgotten, forget_types-acls, of_type,
}
use stateful_abac_policy_eng.Services.Acls.Forgets.{
  one_or_none-true, IsForeign-key, set_conditions-behind,
}
use stateful_abac_policy_eng.Services.Acls.Steps.{
  delete_acl-IsFresh, delete_acl_by_key-IsFresh, not_first, delete_all-behind, write_found-behind,
  create_acl-IsFresh, update_acl-IsFresh,
}

after-IsFresh {ℓ} :
    {A : Type ℓ} (k : DecisionKey) (s : AclState) (r : Result (A × AclState))
    → ((out : A × AclState) → r ≡ ok out → IsFresh k s out.1)
    → IsFresh k s (after s r)
after-IsFresh k s (ok out) h = h out refl
after-IsFresh k s err h = inr refl

after_batch-IsFresh :
    (k : DecisionKey) (s : AclState) (r : Result AclState)
    → ((t : AclState) → r ≡ ok t → IsFresh k s t)
    → IsFresh k s (after_batch s r)
after_batch-IsFresh k s (ok t) h = h t refl
after_batch-IsFresh k s err h = inr refl

-- The three lists of types that a batch affects.
three_lists :
    (b : Bool) (n : ℕ) (xs ys zs : List ℕ)
    → (b && mem_id n (xs ++ (ys ++ zs))) ≡ false
    → ((b && mem_id n xs) ≡ false) × ((b && mem_id n ys) ≡ false) × ((b && mem_id n zs) ≡ false)
three_lists b n xs ys zs h = ground (arith, mem_id-append n xs (ys ++ zs), mem_id-append n ys zs)

module _ (compile : Option Json → Result (Option String)) where
  create_one-behind :
      (realm_id : ℕ) (c : AclCreate) (k : DecisionKey) (s : AclState) (o : Option (Option ℕ))
      (t : AclState)
      → c.key.realm_id ≡ realm_id
      → create_one compile realm_id c s o ≡ ok t
      → is_behind realm_id c.key.resource_type_id k ≡ false
      → rows_behind k t ≡ rows_behind k s
  create_one-behind realm_id c k s none t realm h other = rw (← ok_injective s t h) refl
  create_one-behind realm_id c k s (some resource_id) t realm h other =
      let key = for_resource resource_id c.key in
      let (found, search, done) =
        ok_of_bind (one_or_none (rows_of (in_realm realm_id key) s)) _ t h in
      write_found-behind compile key c.conditions k s found t (rw (← realm) at search) done
        (rw (← realm) at other)

  create_all-behind :
      (realm_id : ℕ) (cs : List AclCreate) (k : DecisionKey) (s t : AclState)
      → AllInRealm realm_id cs
      → create_all compile realm_id cs s ≡ ok t
      → ((k.realm_id == realm_id) && mem_id k.type_id (map (λ d. d.key.resource_type_id) cs))
        ≡ false
      → rows_behind k t ≡ rows_behind k s
  create_all-behind realm_id [] k s t local h other = rw (← ok_injective s t h) refl
  create_all-behind realm_id (c ∷ cs) k s t (realm, local) h other =
      let o =
        created_resource s realm_id c.key.resource_type_id (given c.resource_external_id)
          c.key.resource_id in
      let (u, first, rest) = ok_of_bind (create_one compile realm_id c s o) _ t h in
      let (here, later) =
        not_first (k.realm_id == realm_id) true (c.key.resource_type_id == k.type_id)
          (mem_id k.type_id (map (λ d. d.key.resource_type_id) cs)) other in
      create_all-behind realm_id cs k u t local rest later
      ∙ create_one-behind realm_id c k s o u realm first
          (rw (==_flip k.type_id c.key.resource_type_id) here)

  update_one-behind :
      (key : RuleKey) (d : AclBatchUpdateItem) (k : DecisionKey) (s : AclState) (found : Option Acl)
      (t : AclState)
      → one_or_none (rows_of key s) ≡ ok found
      → update_one compile d s found ≡ ok t
      → is_behind key.realm_id key.resource_type_id k ≡ false
      → rows_behind k t ≡ rows_behind k s
  update_one-behind key d k s none t search h other = rw (← ok_injective s t h) refl
  update_one-behind key d k s (some a) t search h other =
      let (made, written, done) = ok_of_bind (set_conditions compile a d.conditions s) _ t h in
      rw (← ok_injective made.1 t done) (
        set_conditions-behind compile k a d.conditions s made written
          (IsForeign-key key k a (one_or_none-true (has_key key) a s.acls search) other))

  update_all-behind :
      (realm_id : ℕ) (ds : List AclBatchUpdateItem) (k : DecisionKey) (s t : AclState)
      → update_all compile realm_id ds s ≡ ok t
      → ((k.realm_id == realm_id) && mem_id k.type_id (map (λ d. d.resource_type_id) ds)) ≡ false
      → rows_behind k t ≡ rows_behind k s
  update_all-behind realm_id [] k s t h other = rw (← ok_injective s t h) refl
  update_all-behind realm_id (d ∷ ds) k s t h other =
      let key = key_of_update s realm_id d in
      let (found, search, h₁) = ok_of_bind (one_or_none (rows_of key s)) _ t h in
      let (u, first, rest) = ok_of_bind (update_one compile d s found) _ t h₁ in
      let (here, later) =
        not_first (k.realm_id == realm_id) true (d.resource_type_id == k.type_id)
          (mem_id k.type_id (map (λ d. d.resource_type_id) ds)) other in
      update_all-behind realm_id ds k u t rest later
      ∙ update_one-behind key d k s found u search first
          (rw (==_flip k.type_id d.resource_type_id) here)

  batch_acls-IsFresh :
      (realm_id : ℕ) (o : BatchAclOperation) (k : DecisionKey) (s t : AclState)
      → AllInRealm realm_id o.create
      → batch_acls compile realm_id o s ≡ ok t
      → IsFresh k s t
  unfolding batch_acls
  batch_acls-IsFresh realm_id o k s t local h =
      let (u, made, h₁) = ok_of_bind (create_all compile realm_id o.create s) _ t h in
      let (w, written, done) = ok_of_bind (update_all compile realm_id o.update u) _ t h₁ in
      let left = delete_all realm_id o.delete w in
      rw (← ok_injective _ t done)
        (elim (Bool-cases ((k.realm_id == realm_id) && mem_id k.type_id (affected_types o))) [
          | inl affected ↦ inl (forget_types-forgotten realm_id (affected_types o) left k affected)
          | inr other ↦
              let (a, b, c) =
                three_lists (k.realm_id == realm_id) k.type_id
                  (map (λ d. d.key.resource_type_id) o.create)
                  (map (λ d. d.resource_type_id) o.update) (map (λ d. d.resource_type_id) o.delete)
                  other in
              inr (
                ap (where_true (of_type k.realm_id k.type_id))
                  (forget_types-acls realm_id (affected_types o) left)
                ∙ delete_all-behind realm_id o.delete k w c
                ∙ update_all-behind realm_id o.update k u w written b
                ∙ create_all-behind realm_id o.create k s u local made a)
        ])

  -- For a call of `ACLService` whose body names the realm of the call: afterwards no decision is
  -- cached for a realm and type, unless the rows of acl of that realm and type are as they were.
  pub step-IsFresh :
      (c : Call) (k : DecisionKey) (s : AclState) → IsLocal c → IsFresh k s (step compile c s)
  unfolding step
  step-IsFresh (creates realm_id c) k s local =
      after-IsFresh k s (create_acl compile realm_id c s)
        λ out h. create_acl-IsFresh compile realm_id c k s out local h
  step-IsFresh (updates realm_id id c) k s local =
      after-IsFresh k s (update_acl compile realm_id id c s)
        λ out h. update_acl-IsFresh compile realm_id id c k s out h
  step-IsFresh (deletes realm_id id) k s local =
      after-IsFresh k s (delete_acl realm_id id s) λ out h. delete_acl-IsFresh realm_id id k s out h
  step-IsFresh (deletes_key realm_id key e) k s local =
      after-IsFresh k s (delete_acl_by_key realm_id key e s)
        λ out h. delete_acl_by_key-IsFresh realm_id key e k s out h
  step-IsFresh (batches realm_id o) k s local =
      after_batch-IsFresh k s (batch_acls compile realm_id o s)
        λ t h. batch_acls-IsFresh realm_id o k s t local h
