-- ===== src/Services/ResourceTypes/Hash.antt =====
-- The hash of a realm against the lookups of its rows, through the updates that the type service makes.
use stateful_abac_policy_eng.Prelude.{
  String, true, false, not, Option, none, some, List, [], ◌∷◌, ◌++◌, ◌≡◌, refl, sym, ap, ◌∙◌,
  eq_text, eq_iff, is_none, where_true, Bool-cases, inl, inr, has_prefix, str_of,
}
use stateful_abac_policy_eng.Policy.{ResourceType}
use stateful_abac_policy_eng.Auth.{Entry, find}
use stateful_abac_policy_eng.RealmCache.{
  RealmState, type_entry, public_entry, type_entries, role_entries, action_entries, config_entries,
  assignments, updated_hash, removed_hash, is_type_field, present,
}
use stateful_abac_policy_eng.RealmCache.Lookups.{
  or_else, last, last-append, find-set_fields, find-where_true,
}
use stateful_abac_policy_eng.Services.ResourceTypes.Entries.{
  is_key_of, is_type_key, key-is_type_key, last-NoTypes, role_entries-NoTypes,
  action_entries-NoTypes, config_entries-NoTypes,
}
use stateful_abac_policy_eng.Services.ResourceTypes.Changes.{
  value_at, lookup, or_else_assoc, value_at-other, value_at-own,
}
use stateful_abac_policy_eng.Services.ResourceTypes.Removed.{forgets}

-- A hash answers as `f` does, where there is one.
abbrev pub AgreesWith : (String → Option String) → Option (List Entry) → Type 0
AgreesWith f none = Unit
AgreesWith f (some hash) = (k : String) → find k hash ≡ f k

pub AgreesWith-same :
    (f g : String → Option String) (h : Option (List Entry))
    → ((k : String) → f k ≡ g k)
    → AgreesWith f h
    → AgreesWith g h
AgreesWith-same f g none same a = tt
AgreesWith-same f g (some hash) same a = λ k. a k ∙ same k

present-AgreesWith :
    (f : String → Option String) (es : List Entry)
    → ((k : String) → find k es ≡ f k)
    → AgreesWith f (present es)
present-AgreesWith f [] a = tt
present-AgreesWith f (e ∷ es) a = a

pub removed_hash-AgreesWith :
    (f : String → Option String) (name : String) (h : Option (List Entry))
    → AgreesWith f h
    → AgreesWith (λ k. forgets k name (f k)) (removed_hash name h)
removed_hash-AgreesWith f name none a = tt
removed_hash-AgreesWith f name (some hash) a =
    present-AgreesWith (λ k. forgets k name (f k))
      (where_true (λ e. not (is_type_field name e)) hash)
      λ k. find-where_true k name hash ∙ ap (forgets k name) (a k)

pub updated_hash-AgreesWith :
    (f : String → Option String) (t : ResourceType) (h : Option (List Entry))
    → is_none (f "_id") ≡ false
    → AgreesWith f h
    → AgreesWith
        (λ k. or_else (value_at k t) (f k))
        (updated_hash (type_entry t ∷ public_entry t ∷ []) h)
updated_hash-AgreesWith f t none there a = tt
updated_hash-AgreesWith f t (some hash) there a =
    let populated : is_none (find "_id" hash) ≡ false = ap is_none (a "_id") ∙ there in
    rw populated (λ k.
      find-set_fields k (type_entry t ∷ public_entry t ∷ []) hash
      ∙ ap (or_else (value_at k t)) (a k))

-- what the rows other than the types and the roles say of a key
abbrev pub other_rows : String → RealmState → Option String
other_rows k s =
    or_else
      (or_else (last k (action_entries s.actions)) (last k (config_entries s.keycloak_config)))
      (last k (record { key = "_id"; text = str_of s.id } ∷ []))

pub last-assignments :
    (k : String) (s : RealmState)
    → last k (assignments s)
      ≡ or_else (last k (role_entries s.roles)) (or_else (lookup k s.types) (other_rows k s))
last-assignments k s =
    let c = config_entries s.keycloak_config in
    let a = action_entries s.actions in
    let t = type_entries s.types in
    let r = role_entries s.roles in
    let i = last k (record { key = "_id"; text = str_of s.id } ∷ []) in
    let tail : last k (c ++ (a ++ (t ++ r)))
        ≡ or_else (last k r) (or_else (last k t) (or_else (last k a) (last k c))) =
      last-append k c (a ++ (t ++ r))
      ∙ rw (last-append k a (t ++ r), last-append k t r)
          (ap (λ o. or_else o (last k c)) (or_else_assoc (last k r) (last k t) (last k a))
            ∙ or_else_assoc (last k r) (or_else (last k t) (last k a)) (last k c)
            ∙ ap (or_else (last k r)) (or_else_assoc (last k t) (last k a) (last k c))) in
    ap (λ o. or_else o i) tail
    ∙ or_else_assoc (last k r) (or_else (last k t) (or_else (last k a) (last k c))) i
    ∙ ap (or_else (last k r)) (or_else_assoc (last k t) (or_else (last k a) (last k c)) i)

-- Roles and the other rows say nothing of a key of a type.
pub roles_silent :
    (k name : String) (s : RealmState)
    → is_key_of k name ≡ true
    → last k (role_entries s.roles) ≡ none
roles_silent k name s key =
    last-NoTypes k (role_entries s.roles) (role_entries-NoTypes s.roles)
      (key-is_type_key k name key)

pub others_silent :
    (k name : String) (s : RealmState) → is_key_of k name ≡ true → other_rows k s ≡ none
unfolding is_type_key has_prefix
others_silent k name s key =
    let type = key-is_type_key k name key in
    rw
      (
        last-NoTypes k (action_entries s.actions) (action_entries-NoTypes s.actions) type,
        last-NoTypes k (config_entries s.keycloak_config) (config_entries-NoTypes s.keycloak_config)
            type,
      )
      (last-NoTypes k (record { key = "_id"; text = str_of s.id } ∷ []) (refl, tt) type)

-- New entries of a type come before everything, as they are the last among the types.
pub new_entries :
    (k : String) (t : ResourceType) (s : RealmState) (types : Option String)
    → or_else
        (value_at k t)
        (or_else (last k (role_entries s.roles)) (or_else types (other_rows k s)))
      ≡ or_else
          (last k (role_entries s.roles))
          (or_else (or_else (value_at k t) types) (other_rows k s))
new_entries k t s types = elim (Bool-cases (is_key_of k t.name)) [
  | inl key ↦
      rw (roles_silent k t.name s key) (sym (or_else_assoc (value_at k t) types (other_rows k s)))
  | inr off ↦ rw (value_at-other k t off) refl
]

pub old_entries :
    (k name : String) (s : RealmState) (types : Option String)
    → forgets k name (or_else (last k (role_entries s.roles)) (or_else types (other_rows k s)))
      ≡ or_else (last k (role_entries s.roles)) (or_else (forgets k name types) (other_rows k s))
old_entries k name s types = elim (Bool-cases (is_key_of k name)) [
  | inl key ↦ rw (key, roles_silent k name s key, others_silent k name s key) refl
  | inr off ↦ rw off refl
]

-- Entries that are written over need not be taken away first.
pub forgets_anyway :
    (k name : String) (t : ResourceType) (o : Option String)
    → eq_text name t.name ≡ true
    → or_else (value_at k t) o ≡ or_else (value_at k t) (forgets k name o)
forgets_anyway k name t o same = elim (Bool-cases (is_key_of k name)) [
  | inl key ↦
      let own : is_key_of k t.name ≡ true = rw (← (eq_iff name t.name).0 same) key in
      rw key (value_at-own k t o none own)
  | inr off ↦ rw off refl
]
