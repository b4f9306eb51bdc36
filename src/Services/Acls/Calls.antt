-- ===== src/Services/Acls/Calls.antt =====
-- The calls of `ACLService` in sequence, and what every one of them keeps. A call that raises leaves
-- the tables as they were.
use stateful_abac_policy_eng.Prelude.{
  ℕ, String, Option, none, some, List, [], ◌∷◌, ◌≡◌, refl, Result, ok, err, where_true, ok_of_bind,
  ok_injective,
}
use stateful_abac_policy_eng.Json.{Json}
use stateful_abac_policy_eng.Policy.{Acl}
use stateful_abac_policy_eng.Services.Acls.Rows.{
  one_or_none, AclState, RuleKey, AclCreate, has_key, in_realm, for_resource, required_resource,
  given,
}
use stateful_abac_policy_eng.Services.Acls.Operations.{
  create_acl, update_acl, delete_acl, delete_acl_by_key, insert_acl, set_conditions, upsert,
  rows_of, same_id, AclRead, AclAnswer, update_found,
}
use stateful_abac_policy_eng.Services.Acls.Batch.{
  BatchAclOperation, AclBatchUpdateItem, batch_acls, create_all, create_one, update_all, update_one,
  delete_all, affected_types, write_found, key_of_update, created_resource,
}
use stateful_abac_policy_eng.Services.Acls.Kept.{
  Inv, forget_type-Inv, set_conditions-Inv, insert_acl-Inv, delete_acl-Inv, delete_acl_by_key-Inv,
  delete_all-Inv, forget_types-Inv,
}

pub data Call : Type 0 where
  creates : ℕ → AclCreate → Call
  updates : ℕ → ℕ → Option Json → Call
  deletes : ℕ → ℕ → Call
  deletes_key : ℕ → RuleKey → Option String → Call
  batches : ℕ → BatchAclOperation → Call

abbrev pub AllInRealm : ℕ → List AclCreate → Type 0
AllInRealm realm_id [] = Unit
AllInRealm realm_id (c ∷ cs) = (c.key.realm_id ≡ realm_id) × AllInRealm realm_id cs

-- The body of a call names the realm of its address.
abbrev pub IsLocal : Call → Type 0
IsLocal (creates realm_id c) = c.key.realm_id ≡ realm_id
IsLocal (batches realm_id o) = AllInRealm realm_id o.create
IsLocal _ = Unit

abbrev pub AllLocal : List Call → Type 0
AllLocal [] = Unit
AllLocal (c ∷ cs) = IsLocal c × AllLocal cs

-- the tables after a call
abbrev pub after {ℓ} : {A : Type ℓ} → AclState → Result (A × AclState) → AclState
after s (ok (a, t)) = t
after s err = s

abbrev pub after_batch : AclState → Result AclState → AclState
after_batch s (ok t) = t
after_batch s err = s

-- the outcomes of a call that may raise
after-Inv {ℓ} :
    {A : Type ℓ} (s : AclState) (r : Result (A × AclState))
    → Inv s
    → ((out : A × AclState) → r ≡ ok out → Inv out.1)
    → Inv (after s r)
after-Inv s (ok out) v k = k out refl
after-Inv s err v k = v

after_batch-Inv :
    (s : AclState) (r : Result AclState)
    → Inv s
    → ((t : AclState) → r ≡ ok t → Inv t)
    → Inv (after_batch s r)
after_batch-Inv s (ok t) v k = k t refl
after_batch-Inv s err v k = v

module _ (compile : Option Json → Result (Option String)) where
  unfoldable pub step : Call → AclState → AclState
  step (creates realm_id c) s = after s (create_acl compile realm_id c s)
  step (updates realm_id id c) s = after s (update_acl compile realm_id id c s)
  step (deletes realm_id id) s = after s (delete_acl realm_id id s)
  step (deletes_key realm_id k e) s = after s (delete_acl_by_key realm_id k e s)
  step (batches realm_id o) s = after_batch s (batch_acls compile realm_id o s)

  unfoldable pub run : List Call → AclState → AclState
  run [] s = s
  run (c ∷ cs) s = run cs (step c s)

  upsert-Inv :
      (realm_id : ℕ) (k : RuleKey) (c : Option Json) (s : AclState) (found : Option Acl)
      (out : AclAnswer × AclState)
      → one_or_none (rows_of k s) ≡ ok found
      → upsert compile realm_id k c s found ≡ ok out
      → Inv s
      → Inv out.1
  upsert-Inv realm_id k c s none out search h v =
      let (made, inserted, done) = ok_of_bind (insert_acl compile k c s) _ out h in
      rw (← ok_injective _ out done) (
        forget_type-Inv realm_id k.resource_type_id made.1
          (insert_acl-Inv compile k c s made search inserted v))
  upsert-Inv realm_id k c s (some a) out search h v =
      let (made, written, done) = ok_of_bind (set_conditions compile a c s) _ out h in
      rw (← ok_injective _ out done) (
        forget_type-Inv realm_id k.resource_type_id made.1
          (set_conditions-Inv compile (has_key k) a c s made search written v))

  create_acl-Inv :
      (realm_id : ℕ) (c : AclCreate) (s : AclState) (out : AclAnswer × AclState)
      → c.key.realm_id ≡ realm_id
      → create_acl compile realm_id c s ≡ ok out
      → Inv s
      → Inv out.1
  unfolding create_acl
  create_acl-Inv realm_id c s out realm h v =
      let (resource_id, known, h₁) =
        ok_of_bind
          (required_resource s.external_ids realm_id c.key.resource_type_id
            (given c.resource_external_id) c.key.resource_id)
          _ out h in
      let (found, search, h₂) =
        ok_of_bind (one_or_none (rows_of (in_realm realm_id (for_resource resource_id c.key)) s)) _
          out h₁ in
      upsert-Inv realm_id (for_resource resource_id c.key) c.conditions s found out
        (rw (← realm) at search) h₂ v

  update_found-Inv :
      (realm_id acl_id : ℕ) (c : Option Json) (s : AclState) (found : Option Acl)
      (out : Option AclRead × AclState)
      → one_or_none (where_true (same_id realm_id acl_id) s.acls) ≡ ok found
      → update_found compile realm_id c s found ≡ ok out
      → Inv s
      → Inv out.1
  update_found-Inv realm_id acl_id c s none out search h v = rw (← ok_injective _ out h) v
  update_found-Inv realm_id acl_id c s (some a) out search h v =
      let (made, written, done) = ok_of_bind (set_conditions compile a c s) _ out h in
      rw (← ok_injective _ out done) (
        forget_type-Inv realm_id made.0.resource_type_id made.1
          (set_conditions-Inv compile (same_id realm_id acl_id) a c s made search written v))

  update_acl-Inv :
      (realm_id acl_id : ℕ) (c : Option Json) (s : AclState) (out : Option AclRead × AclState)
      → update_acl compile realm_id acl_id c s ≡ ok out
      → Inv s
      → Inv out.1
  unfolding update_acl
  update_acl-Inv realm_id acl_id c s out h v =
      let (found, search, done) =
        ok_of_bind (one_or_none (where_true (same_id realm_id acl_id) s.acls)) _ out h in
      update_found-Inv realm_id acl_id c s found out search done v

  write_found-Inv :
      (k : RuleKey) (c : Option Json) (s : AclState) (found : Option Acl) (t : AclState)
      → one_or_none (rows_of k s) ≡ ok found
      → write_found compile k c s found ≡ ok t
      → Inv s
      → Inv t
  write_found-Inv k c s none t search h v =
      let (made, inserted, done) = ok_of_bind (insert_acl compile k c s) _ t h in
      rw (← ok_injective made.1 t done) (insert_acl-Inv compile k c s made search inserted v)
  write_found-Inv k c s (some a) t search h v =
      let (made, written, done) = ok_of_bind (set_conditions compile a c s) _ t h in
      rw (← ok_injective made.1 t done)
        (set_conditions-Inv compile (has_key k) a c s made search written v)

  create_one-Inv :
      (realm_id : ℕ) (c : AclCreate) (s : AclState) (o : Option (Option ℕ)) (t : AclState)
      → c.key.realm_id ≡ realm_id
      → create_one compile realm_id c s o ≡ ok t
      → Inv s
      → Inv t
  create_one-Inv realm_id c s none t realm h v = rw (← ok_injective s t h) v
  create_one-Inv realm_id c s (some resource_id) t realm h v =
      let k = for_resource resource_id c.key in
      let (found, search, done) =
        ok_of_bind (one_or_none (rows_of (in_realm realm_id k) s)) _ t h in
      write_found-Inv k c.conditions s found t (rw (← realm) at search) done v

  create_all-Inv :
      (realm_id : ℕ) (cs : List AclCreate) (s t : AclState)
      → AllInRealm realm_id cs
      → create_all compile realm_id cs s ≡ ok t
      → Inv s
      → Inv t
  create_all-Inv realm_id [] s t local h v = rw (← ok_injective s t h) v
  create_all-Inv realm_id (c ∷ cs) s t (realm, local) h v =
      let o =
        created_resource s realm_id c.key.resource_type_id (given c.resource_external_id)
          c.key.resource_id in
      let (u, first, rest) = ok_of_bind (create_one compile realm_id c s o) _ t h in
      create_all-Inv realm_id cs u t local rest (create_one-Inv realm_id c s o u realm first v)

  update_one-Inv :
      (k : RuleKey) (d : AclBatchUpdateItem) (s : AclState) (found : Option Acl) (t : AclState)
      → one_or_none (rows_of k s) ≡ ok found
      → update_one compile d s found ≡ ok t
      → Inv s
      → Inv t
  update_one-Inv k d s none t search h v = rw (← ok_injective s t h) v
  update_one-Inv k d s (some a) t search h v =
      let (made, written, done) = ok_of_bind (set_conditions compile a d.conditions s) _ t h in
      rw (← ok_injective made.1 t done)
        (set_conditions-Inv compile (has_key k) a d.conditions s made search written v)

  update_all-Inv :
      (realm_id : ℕ) (ds : List AclBatchUpdateItem) (s t : AclState)
      → update_all compile realm_id ds s ≡ ok t
      → Inv s
      → Inv t
  update_all-Inv realm_id [] s t h v = rw (← ok_injective s t h) v
  update_all-Inv realm_id (d ∷ ds) s t h v =
      let k = key_of_update s realm_id d in
      let (found, search, h₁) = ok_of_bind (one_or_none (rows_of k s)) _ t h in
      let (u, first, rest) = ok_of_bind (update_one compile d s found) _ t h₁ in
      update_all-Inv realm_id ds u t rest (update_one-Inv k d s found u search first v)

  batch_acls-Inv :
      (realm_id : ℕ) (o : BatchAclOperation) (s t : AclState)
      → AllInRealm realm_id o.create
      → batch_acls compile realm_id o s ≡ ok t
      → Inv s
      → Inv t
  unfolding batch_acls
  batch_acls-Inv realm_id o s t local h v =
      let (u, made, h₁) = ok_of_bind (create_all compile realm_id o.create s) _ t h in
      let (w, written, done) = ok_of_bind (update_all compile realm_id o.update u) _ t h₁ in
      rw (← ok_injective _ t done) (
        forget_types-Inv realm_id (affected_types o) (delete_all realm_id o.delete w) (
          delete_all-Inv realm_id o.delete w (
            update_all-Inv realm_id o.update u w written
              (create_all-Inv realm_id o.create s u local made v))))

  step-Inv : (c : Call) (s : AclState) → IsLocal c → Inv s → Inv (step c s)
  unfolding step delete_acl delete_acl_by_key
  step-Inv (creates realm_id c) s local v =
      after-Inv s (create_acl compile realm_id c s) v
        λ out h. create_acl-Inv realm_id c s out local h v
  step-Inv (updates realm_id id c) s local v =
      after-Inv s (update_acl compile realm_id id c s) v
        λ out h. update_acl-Inv realm_id id c s out h v
  step-Inv (deletes realm_id id) s local v =
      after-Inv s (delete_acl realm_id id s) v λ out h. delete_acl-Inv realm_id id s out h v
  step-Inv (deletes_key realm_id k e) s local v =
      after-Inv s (delete_acl_by_key realm_id k e s) v
        λ out h. delete_acl_by_key-Inv realm_id k e s out h v
  step-Inv (batches realm_id o) s local v =
      after_batch-Inv s (batch_acls compile realm_id o s) v
        λ t h. batch_acls-Inv realm_id o s t local h v

  -- From tables in which no two rows of acl have one key or one id and every id was given out by the
  -- sequence: after any calls of `ACLService` whose bodies name the realm of the call, those that
  -- raise included, no two rows have one key or one id, and every id was given out.
  pub run-Inv : (cs : List Call) (s : AclState) → AllLocal cs → Inv s → Inv (run cs s)
  unfolding run
  run-Inv [] s local v = v
  run-Inv (c ∷ cs) s (here, later) v = run-Inv cs (step c s) later (step-Inv c s here v)
