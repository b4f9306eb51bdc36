-- ===== src/Services/Acls/Steps.antt =====
-- The freshness of cached decisions over each operation.
use stateful_abac_policy_eng.Prelude.{
  ℕ, String, Bool, true, false, ◌&&◌, ◌||◌, Option, none, some, List, [], ◌∷◌, map, ◌==◌, ◌≡◌, refl,
  ◌∙◌, Result, ok, where_true, inr, ok_of_bind, arith, ok_injective, ==_self, ==_flip, and_parts,
  mem_id,
}
use stateful_abac_policy_eng.Json.{Json}
use stateful_abac_policy_eng.Policy.{Acl}
use stateful_abac_policy_eng.Auth.Decisions.{DecisionKey}
use stateful_abac_policy_eng.Services.Acls.Rows.{
  AclState, RuleKey, has_key, delete_row, one_or_none, AclCreate, required_resource, given,
  in_realm, for_resource,
}
use stateful_abac_policy_eng.Services.Acls.Operations.{
  with_rows, delete_rows, insert_acl, set_conditions, rows_of, same_id, create_acl, upsert,
  update_acl, update_found, delete_acl, delete_found, delete_acl_by_key, delete_read,
  keyed_resource, AclAnswer, AclRead,
}
use stateful_abac_policy_eng.Services.Acls.Batch.{
  AclBatchDeleteItem, delete_all, write_found, key_of_delete,
}
use stateful_abac_policy_eng.Services.Acls.Fresh.{rows_behind, IsFresh, is_behind}
use stateful_abac_policy_eng.Services.Acls.Forgets.{
  settle, IsForeign-row, one_or_none-true, IsForeign-key, delete_row-behind, delete_rows-behind,
  set_conditions-behind, insert_acl-behind, written_type,
}

delete_found-IsFresh :
    (realm_id acl_id : ℕ) (k : DecisionKey) (s : AclState) (found : Option Acl)
    → one_or_none (where_true (same_id realm_id acl_id) s.acls) ≡ ok found
    → IsFresh k s (delete_found realm_id s found).1
delete_found-IsFresh realm_id acl_id k s none h = inr refl
delete_found-IsFresh realm_id acl_id k s (some a) h =
    let in_realm =
      (and_parts (a.id == acl_id) (a.realm_id == realm_id)
        (one_or_none-true (same_id realm_id acl_id) a s.acls h)).1 in
    settle realm_id a.resource_type_id k s (with_rows s (delete_row a s.acls)) λ other.
      delete_row-behind k a s
        (IsForeign-row realm_id a.resource_type_id k a in_realm (==_self a.resource_type_id) other)

pub delete_acl-IsFresh :
    (realm_id acl_id : ℕ) (k : DecisionKey) (s : AclState) (out : Bool × AclState)
    → delete_acl realm_id acl_id s ≡ ok out
    → IsFresh k s out.1
unfolding delete_acl
delete_acl-IsFresh realm_id acl_id k s out h =
    let (found, search, done) =
      ok_of_bind (one_or_none (where_true (same_id realm_id acl_id) s.acls)) _ out h in
    rw (← ok_injective _ out done) (delete_found-IsFresh realm_id acl_id k s found search)

delete_read-IsFresh :
    (key : RuleKey) (k : DecisionKey) (s : AclState) (found : Option Acl)
    → one_or_none (rows_of key s) ≡ ok found
    → IsFresh k s (delete_read key.realm_id key.resource_type_id s found).1
delete_read-IsFresh key k s none h = inr refl
delete_read-IsFresh key k s (some a) h =
    settle key.realm_id key.resource_type_id k s (with_rows s (delete_row a s.acls)) λ other.
      delete_row-behind k a s
        (IsForeign-key key k a (one_or_none-true (has_key key) a s.acls h) other)

pub delete_acl_by_key-IsFresh :
    (realm_id : ℕ) (key : RuleKey) (e : Option String) (k : DecisionKey) (s : AclState)
    (out : Option AclRead × AclState)
    → delete_acl_by_key realm_id key e s ≡ ok out
    → IsFresh k s out.1
unfolding delete_acl_by_key
delete_acl_by_key-IsFresh realm_id key e k s out h =
    let full = in_realm realm_id (for_resource (keyed_resource s realm_id key e) key) in
    let (found, search, done) = ok_of_bind (one_or_none (rows_of full s)) _ out h in
    rw (← ok_injective _ out done) (delete_read-IsFresh full k s found search)

-- a type that is not among those of a batch
pub not_first :
    (b c : Bool) (x y : Bool) → (b && (x || y)) ≡ false → (((b && x) ≡ false) × ((b && y) ≡ false))
not_first b c x y h = ground arith

pub delete_all-behind :
    (realm_id : ℕ) (ds : List AclBatchDeleteItem) (k : DecisionKey) (s : AclState)
    → ((k.realm_id == realm_id) && mem_id k.type_id (map (λ d. d.resource_type_id) ds)) ≡ false
    → rows_behind k (delete_all realm_id ds s) ≡ rows_behind k s
delete_all-behind realm_id [] k s h = refl
delete_all-behind realm_id (d ∷ ds) k s h =
    let (here, later) =
      not_first (k.realm_id == realm_id) true (d.resource_type_id == k.type_id)
        (mem_id k.type_id (map (λ d. d.resource_type_id) ds)) h in
    delete_all-behind realm_id ds k (delete_rows (key_of_delete s realm_id d) s) later
    ∙ delete_rows-behind (key_of_delete s realm_id d) k s
        (rw (==_flip k.type_id d.resource_type_id) here)

module _ (compile : Option Json → Result (Option String)) where
  pub write_found-behind :
      (key : RuleKey) (c : Option Json) (k : DecisionKey) (s : AclState) (found : Option Acl)
      (t : AclState)
      → one_or_none (rows_of key s) ≡ ok found
      → write_found compile key c s found ≡ ok t
      → is_behind key.realm_id key.resource_type_id k ≡ false
      → rows_behind k t ≡ rows_behind k s
  write_found-behind key c k s none t search h other =
      let (made, inserted, done) = ok_of_bind (insert_acl compile key c s) _ t h in
      rw (← ok_injective made.1 t done) (insert_acl-behind compile key k c s made inserted other)
  write_found-behind key c k s (some a) t search h other =
      let (made, written, done) = ok_of_bind (set_conditions compile a c s) _ t h in
      rw (← ok_injective made.1 t done) (
        set_conditions-behind compile k a c s made written
          (IsForeign-key key k a (one_or_none-true (has_key key) a s.acls search) other))

  upsert-IsFresh :
      (key : RuleKey) (c : Option Json) (k : DecisionKey) (s : AclState) (found : Option Acl)
      (out : AclAnswer × AclState)
      → one_or_none (rows_of key s) ≡ ok found
      → upsert compile key.realm_id key c s found ≡ ok out
      → IsFresh k s out.1
  upsert-IsFresh key c k s none out search h =
      let (made, inserted, done) = ok_of_bind (insert_acl compile key c s) _ out h in
      rw (← ok_injective _ out done) (
        settle key.realm_id key.resource_type_id k s made.1
          λ other. insert_acl-behind compile key k c s made inserted other)
  upsert-IsFresh key c k s (some a) out search h =
      let (made, written, done) = ok_of_bind (set_conditions compile a c s) _ out h in
      rw (← ok_injective _ out done) (
        settle key.realm_id key.resource_type_id k s made.1 λ other.
          set_conditions-behind compile k a c s made written
            (IsForeign-key key k a (one_or_none-true (has_key key) a s.acls search) other))

  pub create_acl-IsFresh :
      (realm_id : ℕ) (c : AclCreate) (k : DecisionKey) (s : AclState) (out : AclAnswer × AclState)
      → c.key.realm_id ≡ realm_id
      → create_acl compile realm_id c s ≡ ok out
      → IsFresh k s out.1
  unfolding create_acl
  create_acl-IsFresh realm_id c k s out realm h =
      let (resource_id, known, h₁) =
        ok_of_bind
          (required_resource s.external_ids realm_id c.key.resource_type_id
            (given c.resource_external_id) c.key.resource_id)
          _ out h in
      let key = for_resource resource_id c.key in
      let (found, search, h₂) =
        ok_of_bind (one_or_none (rows_of (in_realm realm_id key) s)) _ out h₁ in
      upsert-IsFresh key c.conditions k s found out (rw (← realm) at search) (rw (← realm) at h₂)

  update_found-IsFresh :
      (realm_id acl_id : ℕ) (c : Option Json) (k : DecisionKey) (s : AclState) (found : Option Acl)
      (out : Option AclRead × AclState)
      → one_or_none (where_true (same_id realm_id acl_id) s.acls) ≡ ok found
      → update_found compile realm_id c s found ≡ ok out
      → IsFresh k s out.1
  update_found-IsFresh realm_id acl_id c k s none out search h =
      rw (← ok_injective _ out h) (inr refl)
  update_found-IsFresh realm_id acl_id c k s (some a) out search h =
      let (made, written, done) = ok_of_bind (set_conditions compile a c s) _ out h in
      let here =
        (and_parts (a.id == acl_id) (a.realm_id == realm_id)
          (one_or_none-true (same_id realm_id acl_id) a s.acls search)).1 in
      rw (← ok_injective _ out done) (
        settle realm_id made.0.resource_type_id k s made.1 λ other.
          set_conditions-behind compile k a c s made written (
            IsForeign-row realm_id made.0.resource_type_id k a here
              (rw (written_type compile a c s made written) (==_self a.resource_type_id)) other))

  pub update_acl-IsFresh :
      (realm_id acl_id : ℕ) (c : Option Json) (k : DecisionKey) (s : AclState)
      (out : Option AclRead × AclState)
      → update_acl compile realm_id acl_id c s ≡ ok out
      → IsFresh k s out.1
  unfolding update_acl
  update_acl-IsFresh realm_id acl_id c k s out h =
      let (found, search, done) =
        ok_of_bind (one_or_none (where_true (same_id realm_id acl_id) s.acls)) _ out h in
      update_found-IsFresh realm_id acl_id c k s found out search done
