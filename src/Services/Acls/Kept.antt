-- ===== src/Services/Acls/Kept.antt =====
-- What the writes of `ACLService` keep: no two rows have one key, and no id is given out twice.
use stateful_abac_policy_eng.Prelude.{
  ℕ, String, Bool, not, ◌&&◌, Option, none, some, List, [], ◌∷◌, map, ◌≡◌, refl, Result, ok,
  where_true, any, Bool-cases, inl, inr, ok_of_bind, err_absurd, any-none, ok_injective,
}
use stateful_abac_policy_eng.Json.{Json}
use stateful_abac_policy_eng.Policy.{Acl}
use stateful_abac_policy_eng.Services.Acls.Rows.{
  one_or_none, AclState, RuleKey, has_key, in_realm, for_resource, passes_check, violates_index,
  column_of, replace_row, delete_row,
}
use stateful_abac_policy_eng.Services.Acls.Operations.{
  delete_acl, delete_acl_by_key, insert_acl, set_conditions, rows_of, new_row, same_id, with_rows,
  forget_type, AclRead, delete_found, delete_read, keyed_resource, delete_rows,
}
use stateful_abac_policy_eng.Services.Acls.Batch.{
  AclBatchDeleteItem, delete_all, forget_types, key_of_delete,
}
use stateful_abac_policy_eng.Services.Acls.Distinct.{
  shape, IsDistinct, AllBelow, where_true-IsDistinct, where_true-AllBelow, append-IsDistinct,
  append-AllBelow,
}
use stateful_abac_policy_eng.Services.Acls.Replaced.{Owns-found, map-replace_row, AllBelow-shapes}

-- No two rows have one key, and every id was given out by the sequence.
pub record Inv (s : AclState) : Type 0 where
  pub distinct : IsDistinct s.acls
  pub below : AllBelow s.next_id s.acls

pub delete_rows-Inv : (k : RuleKey) (s : AclState) → Inv s → Inv (delete_rows k s)
delete_rows-Inv k s v = record {
  distinct = where_true-IsDistinct (λ a. not (has_key k a)) s.acls v.distinct;
  below = where_true-AllBelow s.next_id (λ a. not (has_key k a)) s.acls v.below;
}

pub delete_row-Inv : (a : Acl) (s : AclState) → Inv s → Inv (with_rows s (delete_row a s.acls))
delete_row-Inv a s v = record {
  distinct = where_true-IsDistinct _ s.acls v.distinct;
  below = where_true-AllBelow s.next_id _ s.acls v.below;
}

pub forget_type-Inv :
    (realm_id type_id : ℕ) (s : AclState) → Inv s → Inv (forget_type realm_id type_id s)
forget_type-Inv realm_id type_id s v = record { distinct = v.distinct; below = v.below }

-- one row or none: what the search found
pub one_or_none-found {ℓ} :
    {A : Type ℓ} (xs : List A) (a : A) → one_or_none xs ≡ ok (some a) → xs ≡ a ∷ []
one_or_none-found [] a h = cc
one_or_none-found (x ∷ []) a h = cc
one_or_none-found (x ∷ y ∷ xs) a h = cc

pub one_or_none-missing {ℓ} : {A : Type ℓ} (xs : List A) → one_or_none xs ≡ ok none → xs ≡ []
one_or_none-missing [] h = refl
one_or_none-missing (x ∷ []) h = cc
one_or_none-missing (x ∷ y ∷ xs) h = cc

replaced-Inv :
    (p : Acl → Bool) (a : Acl) (c : Option Json) (sql : Option String) (s : AclState)
    → one_or_none (where_true p s.acls) ≡ ok (some a)
    → Inv s
    → Inv (with_rows s (replace_row (record a { conditions = c; compiled_sql = sql }) s.acls))
replaced-Inv p a c sql s found v =
    let owns = Owns-found p a s.acls v.distinct (one_or_none-found (where_true p s.acls) a found) in
    let new : Acl = record a { conditions = c; compiled_sql = sql } in
    let same : map shape (replace_row new s.acls) ≡ map shape s.acls =
      map-replace_row a new s.acls refl (λ b. refl) owns in
    record {
      distinct = rw same v.distinct;
      below = AllBelow-shapes s.next_id (replace_row new s.acls) s.acls same v.below;
    }

delete_found-Inv :
    (realm_id : ℕ) (s : AclState) (found : Option Acl)
    → Inv s
    → Inv (delete_found realm_id s found).1
delete_found-Inv realm_id s none v = v
delete_found-Inv realm_id s (some a) v =
    forget_type-Inv realm_id a.resource_type_id _ (delete_row-Inv a s v)

pub delete_acl-Inv :
    (realm_id acl_id : ℕ) (s : AclState) (out : Bool × AclState)
    → delete_acl realm_id acl_id s ≡ ok out
    → Inv s
    → Inv out.1
unfolding delete_acl
delete_acl-Inv realm_id acl_id s out h v =
    let (found, search, done) =
      ok_of_bind (one_or_none (where_true (same_id realm_id acl_id) s.acls)) _ out h in
    rw (← ok_injective _ out done) (delete_found-Inv realm_id s found v)

delete_read-Inv :
    (realm_id type_id : ℕ) (s : AclState) (found : Option Acl)
    → Inv s
    → Inv (delete_read realm_id type_id s found).1
delete_read-Inv realm_id type_id s none v = v
delete_read-Inv realm_id type_id s (some a) v =
    forget_type-Inv realm_id type_id _ (delete_row-Inv a s v)

pub delete_acl_by_key-Inv :
    (realm_id : ℕ) (k : RuleKey) (e : Option String) (s : AclState)
    (out : Option AclRead × AclState)
    → delete_acl_by_key realm_id k e s ≡ ok out
    → Inv s
    → Inv out.1
unfolding delete_acl_by_key
delete_acl_by_key-Inv realm_id k e s out h v =
    let (found, search, done) =
      ok_of_bind
        (one_or_none
          (rows_of (in_realm realm_id (for_resource (keyed_resource s realm_id k e) k)) s))
        _ out h in
    rw (← ok_injective _ out done) (delete_read-Inv realm_id k.resource_type_id s found v)

pub delete_all-Inv :
    (realm_id : ℕ) (ds : List AclBatchDeleteItem) (s : AclState)
    → Inv s
    → Inv (delete_all realm_id ds s)
delete_all-Inv realm_id [] s v = v
delete_all-Inv realm_id (d ∷ ds) s v =
    delete_all-Inv realm_id ds _ (delete_rows-Inv (key_of_delete s realm_id d) s v)

pub forget_types-Inv :
    (realm_id : ℕ) (ts : List ℕ) (s : AclState) → Inv s → Inv (forget_types realm_id ts s)
forget_types-Inv realm_id [] s v = v
forget_types-Inv realm_id (t ∷ ts) s v =
    forget_types-Inv realm_id ts _ (forget_type-Inv realm_id t s v)

module _ (compile : Option Json → Result (Option String)) where
  pub set_conditions-Inv :
      (p : Acl → Bool) (a : Acl) (c : Option Json) (s : AclState) (out : Acl × AclState)
      → one_or_none (where_true p s.acls) ≡ ok (some a)
      → set_conditions compile a c s ≡ ok out
      → Inv s
      → Inv out.1
  set_conditions-Inv p a none s out found h v = rw (← ok_injective (a, s) out h) v
  set_conditions-Inv p a (some c) s out found h v =
      let (sql, compiled, done) = ok_of_bind (compile (some c)) _ out h in
      rw (← ok_injective _ out done) (replaced-Inv p a (some c) sql s found v)

  pub insert_acl-Inv :
      (k : RuleKey) (c : Option Json) (s : AclState) (out : Acl × AclState)
      → one_or_none (rows_of k s) ≡ ok none
      → insert_acl compile k c s ≡ ok out
      → Inv s
      → Inv out.1
  insert_acl-Inv k c s out missing h v =
      let (sql, compiled, done) = ok_of_bind (compile (column_of c)) _ out h in
      elim (Bool-cases
        (passes_check k.principal_id k.role_id && not (any (violates_index k) s.acls))) [
          | inl passes ↦
              let new : Acl = new_row s.next_id k c sql in
              rw (← ok_injective _ out (rw passes at done)) (record {
                distinct =
                    append-IsDistinct s.acls new v.below
                      (any-none (has_key k) s.acls (one_or_none-missing (rows_of k s) missing))
                      v.distinct;
                below = append-AllBelow s.next_id s.acls new refl v.below;
              })
          | inr fails ↦ err_absurd out (rw fails at done)
        ]
