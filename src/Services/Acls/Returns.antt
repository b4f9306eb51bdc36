-- ===== src/Services/Acls/Returns.antt =====
-- `create_acl` returns: no search finds two rows, and no index is violated.
use stateful_abac_policy_eng.Prelude.{
  ℕ, String, true, false, Option, none, some, List, [], ◌∷◌, map, ◌==◌, ◌≡◌, refl, sym, ap, ◌∙◌,
  Result, ok, where_true, any, Bool-cases, inl, inr, or_parts, any-none,
}
use stateful_abac_policy_eng.Json.{Json}
use stateful_abac_policy_eng.Policy.{Acl}
use stateful_abac_policy_eng.Services.Acls.Rows.{
  AclState, RuleKey, has_key, key_of_row, same_rule, passes_check, violates_index, column_of,
  one_or_none, AclCreate, required_resource, given, for_resource,
}
use stateful_abac_policy_eng.Services.Acls.Operations.{create_acl, upsert, rows_of}
use stateful_abac_policy_eng.Services.Acls.Distinct.{shape, clashes, IsDistinct}
use stateful_abac_policy_eng.Services.Acls.Kept.{Inv, one_or_none-missing}
use stateful_abac_policy_eng.Services.Acls.AsMap.{same_rule_eq}

none_like :
    (a : Acl) (rows : List Acl)
    → any (clashes (shape a)) (map shape rows) ≡ false
    → where_true (has_key (key_of_row a)) rows ≡ []
none_like a [] h = refl
none_like a (b ∷ rows) h =
    let (here, later) =
      or_parts (clashes (shape a) (shape b)) (any (clashes (shape a)) (map shape rows)) h in
    let free = (or_parts (same_rule (key_of_row a) (key_of_row b)) (b.id == a.id) here).0 in
    rw free (none_like a rows later)

-- A search by key finds one row at most.
one_or_none-key :
    (k : RuleKey) (rows : List Acl)
    → IsDistinct rows
    → (found : Option Acl) × (one_or_none (where_true (has_key k) rows) ≡ ok found)
one_or_none-key k [] h = (none, refl)
one_or_none-key k (a ∷ rows) (h, t) = elim (Bool-cases (has_key k a)) [
  | inl here ↦
      let only : where_true (has_key k) rows ≡ [] =
        ap (λ l. where_true (has_key l) rows) (sym (same_rule_eq k (key_of_row a) here))
        ∙ none_like a rows h in
      (some a, rw (here, only) refl)
  | inr other ↦ let (found, search) = one_or_none-key k rows t in (found, rw other search)
]

none_violates :
    (k : RuleKey) (rows : List Acl)
    → any (has_key k) rows ≡ false
    → any (violates_index k) rows ≡ false
none_violates k [] h = refl
none_violates k (a ∷ rows) h =
    let (here, later) = or_parts (has_key k a) (any (has_key k) rows) h in
    rw (here, none_violates k rows later) refl

-- A result that is not an exception.
abbrev pub Returns {ℓ} : {A : Type ℓ} → Result A → Type ℓ
Returns {A = A} r = (out : A) × (r ≡ ok out)

module _ (compile : Option Json → Result (Option String)) where
  upsert-Returns :
      (realm_id : ℕ) (k : RuleKey) (c : Option Json) (s : AclState) (found : Option Acl)
      (sql : Option String)
      → compile (column_of c) ≡ ok sql
      → passes_check k.principal_id k.role_id ≡ true
      → one_or_none (rows_of k s) ≡ ok found
      → Returns (upsert compile realm_id k c s found)
  upsert-Returns realm_id k c s none sql compiled passes search =
      let free = any-none (has_key k) s.acls (one_or_none-missing (rows_of k s) search) in
      rw (compiled, passes, none_violates k s.acls free) (_, refl)
  upsert-Returns realm_id k none s (some a) sql compiled passes search = (_, refl)
  upsert-Returns realm_id k (some c) s (some a) sql compiled passes search = rw compiled (_, refl)

  own_realm :
      (c : AclCreate) (s : AclState) (resource_id : Option ℕ) (sql : Option String)
      → Inv s
      → compile (column_of c.conditions) ≡ ok sql
      → passes_check c.key.principal_id c.key.role_id ≡ true
      → required_resource s.external_ids c.key.realm_id c.key.resource_type_id
          (given c.resource_external_id)
          c.key.resource_id
        ≡ ok resource_id
      → Returns (create_acl compile c.key.realm_id c s)
  unfolding create_acl
  own_realm c s resource_id sql v compiled passes known =
      let key = for_resource resource_id c.key in
      let (found, search) = one_or_none-key key s.acls v.distinct in
      rw (known, search)
        (upsert-Returns c.key.realm_id key c.conditions s found sql compiled passes search)

  -- In tables in which no two rows of acl have one key or one id, `create_acl` returns for a body
  -- that names the realm of the call, if its external id is known, the principal and the role pass
  -- the constraint of the table and the trigger compiles its conditions.
  pub create_acl-Returns :
      (realm_id : ℕ) (c : AclCreate) (s : AclState) (resource_id : Option ℕ) (sql : Option String)
      → Inv s
      → compile (column_of c.conditions) ≡ ok sql
      → c.key.realm_id ≡ realm_id
      → passes_check c.key.principal_id c.key.role_id ≡ true
      → required_resource s.external_ids realm_id c.key.resource_type_id
          (given c.resource_external_id)
          c.key.resource_id
        ≡ ok resource_id
      → Returns (create_acl compile realm_id c s)
  create_acl-Returns realm_id c s resource_id sql v compiled realm passes known =
      rw (← realm) (own_realm c s resource_id sql v compiled passes (rw (← realm) at known))
