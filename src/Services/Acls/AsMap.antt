-- ===== src/Services/Acls/AsMap.antt =====
-- The rows of acl as a map from a key to conditions, which the operations update at one key.
use stateful_abac_policy_eng.Prelude.{
  ℕ, Bool, true, false, ◌&&◌, Option, none, some, List, [], ◌∷◌, ◌++◌, ◌==◌, ◌≡◌, refl, sym, ap,
  ◌∙◌, if◌then◌else◌, where_true, any, Bool-cases, inl, inr, arith, ==_iff, ==_self, cons_head,
  true_false,
}
use stateful_abac_policy_eng.Json.{Json}
use stateful_abac_policy_eng.Policy.{Acl}
use stateful_abac_policy_eng.Services.Acls.Rows.{
  RuleKey, has_key, key_of_row, same_rule, same_column, value_of_column, same_row, replace_row,
}
use stateful_abac_policy_eng.Services.Acls.Distinct.{shape, same_rule_flip}
use stateful_abac_policy_eng.Services.Acls.Replaced.{Owns}

-- the conditions of the row of a key, if there is one
abbrev pub stored : RuleKey → List Acl → Option (Option Json)
stored l [] = none
stored l (a ∷ rows) =
    let rest = stored l rows in if has_key l a then some (value_of_column a.conditions) else rest

-- what a write leaves at its key: new conditions if it has any
abbrev pub written : Option Json → Option (Option Json) → Option Json
written (some c) old = value_of_column (some c)
written none none = none
written none (some old) = old

same_column_eq : (m n : Option ℕ) → same_column m n ≡ true → m ≡ n
same_column_eq none none h = refl
same_column_eq none (some n) h = cc
same_column_eq (some m) none h = cc
same_column_eq (some m) (some n) h = ap some ((==_iff m n).0 h)

same_column_self : (m : Option ℕ) → same_column m m ≡ true
same_column_self none = refl
same_column_self (some m) = ==_self m

pub same_rule_self : (k : RuleKey) → same_rule k k ≡ true
same_rule_self k =
    rw
      (
        ==_self k.realm_id,
        ==_self k.resource_type_id,
        ==_self k.action_id,
        same_column_self k.principal_id,
        same_column_self k.role_id,
        same_column_self k.resource_id,
      )
      refl

six_true :
    (a b c d e f : Bool)
    → (a && b && c && d && e && f) ≡ true
    → (a ≡ true) × (b ≡ true) × (c ≡ true) × (d ≡ true) × (e ≡ true) × (f ≡ true)
six_true a b c d e f h = ground arith

pub same_rule_eq : (k l : RuleKey) → same_rule k l ≡ true → l ≡ k
same_rule_eq k l h =
    let (a, b, c, d, e, f) =
      six_true (l.realm_id == k.realm_id) (l.resource_type_id == k.resource_type_id)
        (l.action_id == k.action_id) (same_column l.principal_id k.principal_id)
        (same_column l.role_id k.role_id) (same_column l.resource_id k.resource_id) h in
    let a' = (==_iff l.realm_id k.realm_id).0 a in
    let b' = (==_iff l.resource_type_id k.resource_type_id).0 b in
    let c' = (==_iff l.action_id k.action_id).0 c in
    let d' = same_column_eq l.principal_id k.principal_id d in
    let e' = same_column_eq l.role_id k.role_id e in
    let f' = same_column_eq l.resource_id k.resource_id f in cc

pub stored-append_one :
    (l : RuleKey) (rows : List Acl) (new : Acl)
    → has_key l new ≡ false
    → stored l (rows ++ new ∷ []) ≡ stored l rows
stored-append_one l [] new h = rw h refl
stored-append_one l (a ∷ rows) new h = rw (stored-append_one l rows new h) refl

pub stored-append_new :
    (l : RuleKey) (rows : List Acl) (new : Acl)
    → any (has_key l) rows ≡ false
    → has_key l new ≡ true
    → stored l (rows ++ new ∷ []) ≡ some (value_of_column new.conditions)
stored-append_new l [] new h e = rw e refl
stored-append_new l (a ∷ rows) new h e = ground (arith, stored-append_new l rows new)

pub stored-missing :
    (l : RuleKey) (rows : List Acl) → any (has_key l) rows ≡ false → stored l rows ≡ none
stored-missing l [] h = refl
stored-missing l (a ∷ rows) h = ground (arith, stored-missing l rows)

pub stored-found :
    (l : RuleKey) (rows : List Acl) (a : Acl)
    → where_true (has_key l) rows ≡ a ∷ []
    → stored l rows ≡ some (value_of_column a.conditions)
stored-found l [] a h = cc
stored-found l (b ∷ rows) a h = elim (Bool-cases (has_key l b)) [
  | inl here ↦
      let same : b ≡ a = cons_head b a (where_true (has_key l) rows) [] (rw here at h) in
      rw here (ap (λ r. some (value_of_column r.conditions)) same)
  | inr other ↦ rw other (stored-found l rows a (rw other at h))
]

-- the same key for two rows of one shape
shape-has_key : (l : RuleKey) (b a : Acl) → shape b ≡ shape a → has_key l b ≡ has_key l a
shape-has_key l b a h = ap (λ x. same_rule l x.key) h

-- An UPDATE of the row of a key shows at that key, and at no other.
pub stored-replace_row_self :
    (l : RuleKey) (a new : Acl) (rows : List Acl)
    → ((b : Acl) → same_row b new ≡ same_row b a)
    → same_row a a ≡ true
    → has_key l new ≡ true
    → has_key l a ≡ true
    → Owns a rows
    → where_true (has_key l) rows ≡ a ∷ []
    → stored l (replace_row new rows) ≡ some (value_of_column new.conditions)
stored-replace_row_self l a new [] like self e k owns found = cc
stored-replace_row_self l a new (b ∷ rows) like self e k (first, owns) found =
    elim (Bool-cases (has_key l b)) [
      | inl here ↦
          let same : b ≡ a = cons_head b a (where_true (has_key l) rows) [] (rw here at found) in
          rw (like b ∙ ap (λ r. same_row r a) same ∙ self, e) refl
      | inr other ↦
          let left : same_row b new ≡ false = elim (Bool-cases (same_row b new)) [
            | inl reached ↦
                true_false (has_key l b) (shape-has_key l b a (first (sym (like b) ∙ reached)) ∙ k)
                  other
            | inr kept ↦ kept
          ] in
          rw (left, other)
            (stored-replace_row_self l a new rows like self e k owns (rw other at found))
    ]

pub stored-replace_row :
    (l : RuleKey) (a new : Acl) (rows : List Acl)
    → ((b : Acl) → same_row b new ≡ same_row b a)
    → has_key l new ≡ false
    → has_key l a ≡ false
    → Owns a rows
    → stored l (replace_row new rows) ≡ stored l rows
stored-replace_row l a new [] like e k owns = refl
stored-replace_row l a new (b ∷ rows) like e k (first, owns) =
    let rest = stored-replace_row l a new rows like e k owns in
    elim (Bool-cases (same_row b new)) [
      | inl reached ↦ rw (reached, e, shape-has_key l b a (first (sym (like b) ∙ reached)) ∙ k) rest
      | inr kept ↦ rw (kept, rest) refl
    ]

pub same_row_self : (a : Acl) → same_row a a ≡ true
same_row_self a = rw (==_self a.id, ==_self a.realm_id, ==_self a.resource_type_id) refl

-- another key
pub other_key :
    (k l : RuleKey) (a : Acl) → has_key k a ≡ true → same_rule k l ≡ false → has_key l a ≡ false
other_key k l a h other =
    ap (same_rule l) (same_rule_eq k (key_of_row a) h) ∙ same_rule_flip l k ∙ other
