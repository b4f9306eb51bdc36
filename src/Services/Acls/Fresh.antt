-- ===== src/Services/Acls/Fresh.antt =====
-- A cached type-level decision and the rows of acl that it was taken from.
use stateful_abac_policy_eng.Prelude.{
  ℕ, Bool, true, false, ◌&&◌, ◌||◌, Option, none, List, [], ◌∷◌, ◌++◌, ◌==◌, ◌≡◌, refl, ap, ◌∙◌,
  if◌then◌else◌, where_true, Bool-cases, inl, inr, ◌⊎◌, arith, ==_flip, mem_id,
}
use stateful_abac_policy_eng.Policy.{Acl}
use stateful_abac_policy_eng.Auth.Decisions.{
  DecisionKey, CachedDecision, get_type_level_decision, invalidate_type_decisions_for_type,
}
use stateful_abac_policy_eng.Auth.Decisions.Forget.{get_type_level_decision-invalidated}
use stateful_abac_policy_eng.Services.Acls.Rows.{AclState, same_row, replace_row}
use stateful_abac_policy_eng.Services.Acls.Operations.{forget_type}
use stateful_abac_policy_eng.Services.Acls.Batch.{forget_types}

abbrev pub of_type : ℕ → ℕ → Acl → Bool
of_type realm_id type_id a = (a.realm_id == realm_id) && (a.resource_type_id == type_id)

-- The rows of the realm and type of a cached decision.
abbrev pub rows_behind : DecisionKey → AclState → List Acl
rows_behind k s = where_true (of_type k.realm_id k.type_id) s.acls

-- A decision is forgotten, or the rows behind it are as they were.
abbrev pub IsFresh : DecisionKey → AclState → AclState → Type 0
IsFresh k s t = (get_type_level_decision t.decisions k ≡ none) ⊎ (rows_behind k t ≡ rows_behind k s)

abbrev pub is_behind : ℕ → ℕ → DecisionKey → Bool
is_behind realm_id type_id k = (k.realm_id == realm_id) && (k.type_id == type_id)

two_of : (a b c : Bool) → (a && b) ≡ true → (a && (b || c)) ≡ true
two_of a b c h = ground arith

pub forgotten :
    (realm_id type_id : ℕ) (cache : List CachedDecision) (k : DecisionKey)
    → is_behind realm_id type_id k ≡ true
    → get_type_level_decision (invalidate_type_decisions_for_type realm_id type_id cache) k ≡ none
forgotten realm_id type_id cache k h =
    (get_type_level_decision-invalidated cache realm_id 0 type_id k).1
    ∙ rw (two_of (k.realm_id == realm_id) (k.type_id == type_id) (k.action_id == type_id) h) refl

if_none : (b : Bool) (o : Option Bool) → o ≡ none → (if b then none else o) ≡ none
if_none true o h = refl
if_none false o h = h

stays_forgotten :
    (realm_id type_id : ℕ) (cache : List CachedDecision) (k : DecisionKey)
    → get_type_level_decision cache k ≡ none
    → get_type_level_decision (invalidate_type_decisions_for_type realm_id type_id cache) k ≡ none
stays_forgotten realm_id type_id cache k h =
    (get_type_level_decision-invalidated cache realm_id 0 type_id k).1
    ∙ if_none ((k.realm_id == realm_id) && ((k.type_id == type_id) || (k.action_id == type_id))) _ h

pub forget_types-stays :
    (realm_id : ℕ) (ts : List ℕ) (s : AclState) (k : DecisionKey)
    → get_type_level_decision s.decisions k ≡ none
    → get_type_level_decision (forget_types realm_id ts s).decisions k ≡ none
forget_types-stays realm_id [] s k h = h
forget_types-stays realm_id (t ∷ ts) s k h =
    forget_types-stays realm_id ts (forget_type realm_id t s) k
      (stays_forgotten realm_id t s.decisions k h)

-- The decisions of every type that a batch affects are forgotten.
pub forget_types-forgotten :
    (realm_id : ℕ) (ts : List ℕ) (s : AclState) (k : DecisionKey)
    → ((k.realm_id == realm_id) && mem_id k.type_id ts) ≡ true
    → get_type_level_decision (forget_types realm_id ts s).decisions k ≡ none
forget_types-forgotten realm_id [] s k h = absurd (no (k.realm_id == realm_id) h)
  where
    no : (b : Bool) → (b && false) ≡ true → ⊥
    no b h = ground arith
forget_types-forgotten realm_id (t ∷ ts) s k h = elim (Bool-cases (is_behind realm_id t k)) [
  | inl here ↦
      forget_types-stays realm_id ts (forget_type realm_id t s) k
        (forgotten realm_id t s.decisions k here)
  | inr other ↦ forget_types-forgotten realm_id ts (forget_type realm_id t s) k (
      later (k.realm_id == realm_id) (t == k.type_id) (k.type_id == t) (mem_id k.type_id ts)
        (==_flip t k.type_id) other h)
]
  where
    later : (a b c d : Bool) → b ≡ c → (a && c) ≡ false → (a && (b || d)) ≡ true → (a && d) ≡ true
    later a b c d e f g = ground (arith, e)

pub forget_types-acls :
    (realm_id : ℕ) (ts : List ℕ) (s : AclState) → (forget_types realm_id ts s).acls ≡ s.acls
forget_types-acls realm_id [] s = refl
forget_types-acls realm_id (t ∷ ts) s = forget_types-acls realm_id ts (forget_type realm_id t s)

-- A change of the rows of one realm and type leaves the others.
pub where_true-append_one :
    (p : Acl → Bool) (rows : List Acl) (new : Acl)
    → p new ≡ false
    → where_true p (rows ++ new ∷ []) ≡ where_true p rows
where_true-append_one p [] new h = rw h refl
where_true-append_one p (a ∷ rows) new h = ground (arith, where_true-append_one p rows new h)

pub where_true-kept :
    (p q : Acl → Bool) (rows : List Acl)
    → ((a : Acl) → p a ≡ true → q a ≡ true)
    → where_true p (where_true q rows) ≡ where_true p rows
where_true-kept p q [] h = refl
where_true-kept p q (a ∷ rows) h = elim (Bool-cases (p a)) [
  | inl wanted ↦ rw (h a wanted, wanted) (ap (λ xs. a ∷ xs) (where_true-kept p q rows h))
  | inr other ↦ elim (Bool-cases (q a)) [
    | inl kept ↦ rw (kept, other) (where_true-kept p q rows h)
    | inr dropped ↦ rw (dropped, other) (where_true-kept p q rows h)
  ]
]

pub where_true-replace_row :
    (p : Acl → Bool) (new : Acl) (rows : List Acl)
    → p new ≡ false
    → ((b : Acl) → same_row b new ≡ true → p b ≡ false)
    → where_true p (replace_row new rows) ≡ where_true p rows
where_true-replace_row p new [] h g = refl
where_true-replace_row p new (b ∷ rows) h g = elim (Bool-cases (same_row b new)) [
  | inl reached ↦ rw (reached, h, g b reached) (where_true-replace_row p new rows h g)
  | inr left ↦
      rw left (ap (λ xs. if p b then b ∷ xs else xs) (where_true-replace_row p new rows h g))
]

-- a row of another realm or type
abbrev pub IsForeign : DecisionKey → Acl → Type 0
IsForeign k a = of_type k.realm_id k.type_id a ≡ false
