-- ===== src/Services/ResourceTypes/Kept.antt =====
-- Every operation of `ResourceTypeService` keeps a realm consistent: the rows are apart, and the hash,
-- where there is one, answers every key as a mapping made anew of the rows would.
use stateful_abac_policy_eng.Prelude.{
  suc, String, Bool, true, false, ◌⊎◌, Option, none, some, List, [], ◌∷◌, ◌++◌, ◌≡◌, refl, sym, ap,
  ◌∙◌, is_none, where_true, any, any-none, Bool-cases, inl, inr, arith, ok, ok_of_bind,
  ok_injective, cons_head, true_false, str_of, has_prefix,
}
use stateful_abac_policy_eng.Policy.{ResourceType}
use stateful_abac_policy_eng.Auth.{Entry}
use stateful_abac_policy_eng.RealmCache.{
  RealmState, assignments, updated_hash, removed_hash, type_entry, public_entry, update_realm_type,
  role_entries, config_entries, action_entries, type_entries,
}
use stateful_abac_policy_eng.RealmCache.Lookups.{or_else, last, last-cons_some}
use stateful_abac_policy_eng.Services.Acls.Rows.{one_or_none}
use stateful_abac_policy_eng.Services.Acls.Kept.{one_or_none-found, one_or_none-missing}
use stateful_abac_policy_eng.Services.ResourceTypes.{
  has_name, new_type, insert_type, create_found, create_resource_type,
}
use stateful_abac_policy_eng.Services.ResourceTypes.Entries.{
  is_key_of, is_type_key, key-is_type_key,
}
use stateful_abac_policy_eng.Services.ResourceTypes.Changes.{
  value_at, lookup, or_else_assoc, lookup-cons, value_at-other, AllDistinct, lookup-apart,
  lookup-append, differs-names,
}
use stateful_abac_policy_eng.Services.ResourceTypes.Removed.{forgets}
use stateful_abac_policy_eng.Services.ResourceTypes.Hash.{
  AgreesWith, AgreesWith-same, removed_hash-AgreesWith, updated_hash-AgreesWith, last-assignments,
  other_rows, new_entries, old_entries,
}
use stateful_abac_policy_eng.Services.ResourceTypes.Rows.{
  AllBelow, AllBelow-next, AllBelow-append, AllDistinct-append,
}

-- what a mapping of the rows says of a key
abbrev pub row_value : RealmState → String → Option String
row_value s k = last k (assignments s)

pub record Inv (s : RealmState) : Type 0 where
  pub distinct : AllDistinct s.types
  pub below : AllBelow s.next_id s.types
  pub agrees : AgreesWith (row_value s) s.hash

-- the keys of the roles, of the types and of the rest
abbrev pub layered : String → RealmState → Option String → Option String
layered k s types = or_else (last k (role_entries s.roles)) (or_else types (other_rows k s))

-- The entries of a type that was found are in the mapping.
pub lookup-present :
    (k : String) (p : ResourceType → Bool) (x : ResourceType) (ts : List ResourceType)
    → AllDistinct ts
    → where_true p ts ≡ x ∷ []
    → or_else (value_at k x) (lookup k ts) ≡ lookup k ts
lookup-present k p x [] h found = cc
lookup-present k p x (t ∷ ts) (h, hs) found = elim (Bool-cases (p t)) [
  | inl kept ↦
      let same : t ≡ x = cons_head t x (where_true p ts) [] (rw kept at found) in
      rw (← same) (at_head (Bool-cases (is_key_of k t.name)))
  | inr dropped ↦
      let later : where_true p ts ≡ x ∷ [] = rw dropped at found in
      rw (lookup-cons k t ts) (
        sym (or_else_assoc (value_at k x) (lookup k ts) (value_at k t))
        ∙ ap (λ o. or_else o (value_at k t)) (lookup-present k p x ts hs later))
]
  where
    twice : (o : Option String) → or_else o o ≡ o
    twice none = refl
    twice (some v) = refl

    at_head :
        (is_key_of k t.name ≡ true) ⊎ (is_key_of k t.name ≡ false)
        → or_else (value_at k t) (lookup k (t ∷ ts)) ≡ lookup k (t ∷ ts)
    at_head (inl key) =
        rw (lookup-cons k t ts, lookup-apart k t ts (differs-names t ts h) key)
          (twice (value_at k t))
    at_head (inr off) = rw (value_at-other k t off) refl

has_id_field : (s : RealmState) → is_none (row_value s "_id") ≡ false
has_id_field s =
    last-cons_some "_id" (record { key = "_id"; text = str_of s.id })
      (config_entries s.keycloak_config
        ++ (action_entries s.actions ++ (type_entries s.types ++ role_entries s.roles)))
      refl

not_of_a_type : (name : String) → is_key_of "_id" name ≡ false
unfolding is_type_key has_prefix
not_of_a_type name = elim (Bool-cases (is_key_of "_id" name)) [
  | inl key ↦ true_false (is_type_key "_id") (key-is_type_key "_id" name key) refl
  | inr off ↦ off
]

-- The hash after the entries of a type were written.
pub written-agrees :
    (t : ResourceType) (s : RealmState) (types : String → Option String) (h : Option (List Entry))
    → ((k : String) → or_else (value_at k t) (types k) ≡ lookup k s.types)
    → is_none (layered "_id" s (types "_id")) ≡ false
    → AgreesWith (λ k. layered k s (types k)) h
    → AgreesWith (row_value s) (updated_hash (type_entry t ∷ public_entry t ∷ []) h)
written-agrees t s types h same there a =
    AgreesWith-same (λ k. or_else (value_at k t) (layered k s (types k))) (row_value s) _
      (λ k. new_entries k t s (types k) ∙ ap (layered k s) (same k) ∙ sym (last-assignments k s))
      (updated_hash-AgreesWith (λ k. layered k s (types k)) t h there a)

-- The hash as it is, and without the entries of a type.
pub before-agrees :
    (s : RealmState) → Inv s → AgreesWith (λ k. layered k s (lookup k s.types)) s.hash
before-agrees s v = AgreesWith-same (row_value s) _ s.hash (λ k. last-assignments k s) v.agrees

pub removed-agrees :
    (name : String) (s : RealmState)
    → Inv s
    → AgreesWith (λ k. layered k s (forgets k name (lookup k s.types))) (removed_hash name s.hash)
removed-agrees name s v =
    AgreesWith-same (λ k. forgets k name (row_value s k)) _ (removed_hash name s.hash)
      (λ k. ap (forgets k name) (last-assignments k s) ∙ old_entries k name s (lookup k s.types))
      (removed_hash-AgreesWith (row_value s) name s.hash v.agrees)

pub layered-id : (s : RealmState) → is_none (layered "_id" s (lookup "_id" s.types)) ≡ false
layered-id s = ap is_none (sym (last-assignments "_id" s)) ∙ has_id_field s

pub layered-removed :
    (name : String) (s : RealmState)
    → is_none (layered "_id" s (forgets "_id" name (lookup "_id" s.types))) ≡ false
layered-removed name s = rw (not_of_a_type name) (layered-id s)

-- The operations.
insert_type-Inv :
    (name : String) (p : Bool) (s : RealmState)
    → Inv s
    → any (has_name name) s.types ≡ false
    → Inv (update_realm_type (new_type s name p) (insert_type name p s))
unfolding update_realm_type
insert_type-Inv name p s v free = record {
  distinct = AllDistinct-append (new_type s name p) s.types v.distinct v.below free;
  below =
      AllBelow-append (suc s.next_id) s.types (new_type s name p)
        (AllBelow-next s.next_id s.types v.below) (omega arith);
  agrees =
      written-agrees (new_type s name p) (insert_type name p s) (λ k. lookup k s.types) s.hash
        (λ k. sym (lookup-append k s.types (new_type s name p))) (layered-id s) (before-agrees s v);
}

touch_type-Inv :
    (q : ResourceType → Bool) (x : ResourceType) (s : RealmState)
    → Inv s
    → where_true q s.types ≡ x ∷ []
    → Inv (update_realm_type x s)
unfolding update_realm_type
touch_type-Inv q x s v found = record {
  distinct = v.distinct;
  below = v.below;
  agrees =
      written-agrees x s (λ k. lookup k s.types) s.hash
        (λ k. lookup-present k q x s.types v.distinct found) (layered-id s) (before-agrees s v);
}

pub create_resource_type-Inv :
    (name : String) (p : Bool) (s : RealmState) (out : ResourceType × RealmState)
    → create_resource_type name p s ≡ ok out
    → Inv s
    → Inv out.1
unfolding create_resource_type
create_resource_type-Inv name p s out h v =
    let (found, search, done) =
      ok_of_bind (one_or_none (where_true (has_name name) s.types)) _ out h in
    rw (← ok_injective _ out done) (either found search)
  where
    either :
        (found : Option ResourceType)
        → one_or_none (where_true (has_name name) s.types) ≡ ok found
        → Inv (create_found name p s found).1
    either none search =
        insert_type-Inv name p s v (any-none (has_name name) s.types (one_or_none-missing _ search))
    either (some x) search = touch_type-Inv (has_name name) x s v (one_or_none-found _ x search)
