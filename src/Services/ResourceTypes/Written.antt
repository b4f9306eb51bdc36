-- ===== src/Services/ResourceTypes/Written.antt =====
-- The operations that write or delete a row of a type keep a realm consistent.
use stateful_abac_policy_eng.Prelude.{
  ℕ, String, Bool, false, Option, none, some, [], ◌∷◌, ◌≡◌, refl, sym, ap, ◌∙◌, eq_text, where_true,
  any, Bool-cases, inl, inr, ok, ok_of_bind, ok_injective, err_absurd,
}
use stateful_abac_policy_eng.Policy.{ResourceType}
use stateful_abac_policy_eng.RealmCache.{
  RealmState, update_realm_type, remove_realm_type, removed_hash,
}
use stateful_abac_policy_eng.Services.Acls.Rows.{one_or_none}
use stateful_abac_policy_eng.Services.Acls.Kept.{one_or_none-found}
use stateful_abac_policy_eng.Services.ResourceTypes.{
  with_types, has_id, changed_type, replace_type, is_taken, write_type, recache, update_found,
  update_resource_type, without_type, delete_found, delete_resource_type,
}
use stateful_abac_policy_eng.Services.ResourceTypes.Changes.{lookup}
use stateful_abac_policy_eng.Services.ResourceTypes.Removed.{forgets, lookup-delete, lookup-replace}
use stateful_abac_policy_eng.Services.ResourceTypes.Hash.{
  AgreesWith-same, last-assignments, forgets_anyway,
}
use stateful_abac_policy_eng.Services.ResourceTypes.Rows.{
  AllBelow-where_true, AllBelow-replace, AllDistinct-where_true, AllDistinct-replace,
}
use stateful_abac_policy_eng.Services.ResourceTypes.Kept.{
  Inv, layered, written-agrees, before-agrees, removed-agrees, layered-id, layered-removed,
}

-- A write that the constraint admits.
pub write_type-free :
    (new : ResourceType) (s out : RealmState)
    → write_type new s ≡ ok out
    → (any (is_taken new) s.types ≡ false) × (with_types s (replace_type new s.types) ≡ out)
write_type-free new s out h = elim (Bool-cases (any (is_taken new) s.types)) [
  | inl taken ↦ err_absurd out (rw taken at h)
  | inr free ↦ (free, ok_injective _ out (rw free at h))
]

recache-Inv :
    (id : ℕ) (x new : ResourceType) (s : RealmState)
    → Inv s
    → where_true (has_id id) s.types ≡ x ∷ []
    → x.id ≡ new.id
    → any (is_taken new) s.types ≡ false
    → Inv (recache x new (with_types s (replace_type new s.types)))
unfolding update_realm_type remove_realm_type
recache-Inv id x new s v found same free = elim (Bool-cases (eq_text x.name new.name)) [
  | inl kept ↦ rw kept record {
    distinct = AllDistinct-replace new s.types v.distinct free;
    below = AllBelow-replace new s.next_id s.types v.below;
    agrees =
        written-agrees new (with_types s (replace_type new s.types)) (λ k. lookup k s.types) s.hash
          (λ k.
            forgets_anyway k x.name new (lookup k s.types) kept
            ∙ sym (lookup-replace k id x new s.types v.distinct found same free))
          (layered-id s) (before-agrees s v);
  }
  | inr renamed ↦ rw renamed record {
    distinct = AllDistinct-replace new s.types v.distinct free;
    below = AllBelow-replace new s.next_id s.types v.below;
    agrees =
        written-agrees new (with_types s (replace_type new s.types))
          (λ k. forgets k x.name (lookup k s.types)) (removed_hash x.name s.hash)
          (λ k. sym (lookup-replace k id x new s.types v.distinct found same free))
          (layered-removed x.name s) (removed-agrees x.name s v);
  }
]

pub update_resource_type-Inv :
    (id : ℕ) (name : Option String) (p : Option Bool) (s : RealmState)
    (out : Option ResourceType × RealmState)
    → update_resource_type id name p s ≡ ok out
    → Inv s
    → Inv out.1
unfolding update_resource_type
update_resource_type-Inv id name p s out h v =
    let (found, search, done) = ok_of_bind (one_or_none (where_true (has_id id) s.types)) _ out h in
    either found search done
  where
    either :
        (found : Option ResourceType)
        → one_or_none (where_true (has_id id) s.types) ≡ ok found
        → update_found name p s found ≡ ok out
        → Inv out.1
    either none search done = rw (← ok_injective _ out done) v
    either (some x) search done =
        let (w, written, end) = ok_of_bind (write_type (changed_type name p x) s) _ out done in
        let (free, row) = write_type-free (changed_type name p x) s w written in
        rw (← ok_injective _ out end, ← row)
          (recache-Inv id x (changed_type name p x) s v (one_or_none-found _ x search) refl free)

delete_type-Inv :
    (id : ℕ) (x : ResourceType) (s : RealmState)
    → Inv s
    → where_true (has_id id) s.types ≡ x ∷ []
    → Inv (remove_realm_type x.name (without_type x s))
unfolding remove_realm_type
delete_type-Inv id x s v found = record {
  distinct = AllDistinct-where_true _ s.types v.distinct;
  below = AllBelow-where_true _ s.next_id s.types v.below;
  agrees =
      AgreesWith-same (λ k. layered k s (forgets k x.name (lookup k s.types))) _
        (removed_hash x.name s.hash)
        (λ k.
          ap (layered k s) (sym (lookup-delete k id x s.types v.distinct found))
          ∙ sym (last-assignments k (without_type x s)))
        (removed-agrees x.name s v);
}

pub delete_resource_type-Inv :
    (id : ℕ) (s : RealmState) (out : Bool × RealmState)
    → delete_resource_type id s ≡ ok out
    → Inv s
    → Inv out.1
unfolding delete_resource_type
delete_resource_type-Inv id s out h v =
    let (found, search, done) = ok_of_bind (one_or_none (where_true (has_id id) s.types)) _ out h in
    rw (← ok_injective _ out done) (either found search)
  where
    either :
        (found : Option ResourceType)
        → one_or_none (where_true (has_id id) s.types) ≡ ok found
        → Inv (delete_found s found).1
    either none search = v
    either (some x) search = delete_type-Inv id x s v (one_or_none-found _ x search)
