-- ===== src/Services/ResourceTypes/Rows.antt =====
-- What the statements of `ResourceTypeService` keep of the rows: names and ids stay apart, and the
-- next id stays unused.
use stateful_abac_policy_eng.Prelude.{
  ℕ, suc, Bool, false, List, [], ◌∷◌, ◌++◌, ◌≡◌, refl, ◌==◌, ◌<◌, eq_text, where_true, any,
  Bool-cases, inl, inr, arith, or_parts, ==_iff,
}
use stateful_abac_policy_eng.Policy.{ResourceType}
use stateful_abac_policy_eng.Services.ResourceTypes.{replace_type, is_taken, has_name}
use stateful_abac_policy_eng.Services.ResourceTypes.Changes.{differs, AllDistinct, no_ids-replace}
use stateful_abac_policy_eng.Services.ResourceTypes.Removed.{taken-free, differs-ids}

abbrev pub AllBelow : ℕ → List ResourceType → Type 0
AllBelow n [] = Unit
AllBelow n (t ∷ ts) = (t.id < n) × AllBelow n ts

pub AllBelow-next : (n : ℕ) (ts : List ResourceType) → AllBelow n ts → AllBelow (suc n) ts
AllBelow-next n [] h = tt
AllBelow-next n (t ∷ ts) (h, hs) = (omega (arith, h), AllBelow-next n ts hs)

pub AllBelow-append :
    (n : ℕ) (ts : List ResourceType) (t : ResourceType)
    → AllBelow n ts
    → t.id < n
    → AllBelow n (ts ++ t ∷ [])
AllBelow-append n [] t h less = (less, tt)
AllBelow-append n (u ∷ ts) t (h, hs) less = (h, AllBelow-append n ts t hs less)

pub AllBelow-where_true :
    (p : ResourceType → Bool) (n : ℕ) (ts : List ResourceType)
    → AllBelow n ts
    → AllBelow n (where_true p ts)
AllBelow-where_true p n [] h = tt
AllBelow-where_true p n (t ∷ ts) (h, hs) = elim (Bool-cases (p t)) [
  | inl kept ↦ rw kept (h, AllBelow-where_true p n ts hs)
  | inr dropped ↦ rw dropped (AllBelow-where_true p n ts hs)
]

pub AllBelow-replace :
    (new : ResourceType) (n : ℕ) (ts : List ResourceType)
    → AllBelow n ts
    → AllBelow n (replace_type new ts)
AllBelow-replace new n [] h = tt
AllBelow-replace new n (t ∷ ts) (h, hs) = elim (Bool-cases (t.id == new.id)) [
  | inl same ↦
      let less : new.id < n = ground (arith, h, same) in
      rw same (less, AllBelow-replace new n ts hs)
  | inr other ↦ rw other (h, AllBelow-replace new n ts hs)
]

any-differs-append :
    (t u : ResourceType) (ts : List ResourceType)
    → any (differs t) ts ≡ false
    → differs t u ≡ false
    → any (differs t) (ts ++ u ∷ []) ≡ false
any-differs-append t u [] h apart = ground (arith, apart)
any-differs-append t u (v ∷ ts) h apart =
    let (here, later) = or_parts (differs t v) (any (differs t) ts) h in
    rw (here, any-differs-append t u ts later apart) refl

-- A row of a new name and the next id.
pub AllDistinct-append :
    (t : ResourceType) (ts : List ResourceType)
    → AllDistinct ts
    → AllBelow t.id ts
    → any (has_name t.name) ts ≡ false
    → AllDistinct (ts ++ t ∷ [])
AllDistinct-append t [] h low free = (refl, tt)
AllDistinct-append t (u ∷ ts) (h, hs) (low, lows) free =
    let (name, names) = or_parts (has_name t.name u) (any (has_name t.name) ts) free in
    let apart : differs u t ≡ false = ground (arith, name, low) in
    (any-differs-append u t ts h apart, AllDistinct-append t ts hs lows names)

any-differs-where_true :
    (p : ResourceType → Bool) (t : ResourceType) (ts : List ResourceType)
    → any (differs t) ts ≡ false
    → any (differs t) (where_true p ts) ≡ false
any-differs-where_true p t [] h = refl
any-differs-where_true p t (u ∷ ts) h =
    let (here, later) = or_parts (differs t u) (any (differs t) ts) h in
    elim (Bool-cases (p u)) [
      | inl kept ↦ rw kept (rw (here, any-differs-where_true p t ts later) refl)
      | inr dropped ↦ rw dropped (any-differs-where_true p t ts later)
    ]

pub AllDistinct-where_true :
    (p : ResourceType → Bool) (ts : List ResourceType)
    → AllDistinct ts
    → AllDistinct (where_true p ts)
AllDistinct-where_true p [] h = tt
AllDistinct-where_true p (t ∷ ts) (h, hs) = elim (Bool-cases (p t)) [
  | inl kept ↦ rw kept (any-differs-where_true p t ts h, AllDistinct-where_true p ts hs)
  | inr dropped ↦ rw dropped (AllDistinct-where_true p ts hs)
]

any-differs-replace :
    (t new : ResourceType) (ts : List ResourceType)
    → any (differs t) ts ≡ false
    → differs t new ≡ false
    → any (differs t) (replace_type new ts) ≡ false
any-differs-replace t new [] h apart = refl
any-differs-replace t new (u ∷ ts) h apart =
    let (here, later) = or_parts (differs t u) (any (differs t) ts) h in
    let rest = any-differs-replace t new ts later apart in
    elim (Bool-cases (u.id == new.id)) [
      | inl same ↦ rw same (rw (apart, rest) refl)
      | inr other ↦ rw other (rw (here, rest) refl)
    ]

free-differs :
    (new : ResourceType) (ts : List ResourceType)
    → any (λ u. eq_text new.name u.name) ts ≡ false
    → any (λ u. u.id == new.id) ts ≡ false
    → any (differs new) ts ≡ false
free-differs new [] names ids = refl
free-differs new (u ∷ ts) names ids =
    let (name, more) =
      or_parts (eq_text new.name u.name) (any (λ u. eq_text new.name u.name) ts) names in
    let (id, others) = or_parts (u.id == new.id) (any (λ u. u.id == new.id) ts) ids in
    let apart : differs new u ≡ false = ground (arith, name, id) in
    rw (apart, free-differs new ts more others) refl

-- A written row whose name no other has.
pub AllDistinct-replace :
    (new : ResourceType) (ts : List ResourceType)
    → AllDistinct ts
    → any (is_taken new) ts ≡ false
    → AllDistinct (replace_type new ts)
AllDistinct-replace new [] h free = tt
AllDistinct-replace new (t ∷ ts) (h, hs) free =
    let (first, rest) = or_parts (is_taken new t) (any (is_taken new) ts) free in
    elim (Bool-cases (t.id == new.id)) [
      | inl same ↦
          let equal = (==_iff t.id new.id).0 same in
          let ids = differs-ids t new ts equal h in
          rw (same, no_ids-replace t new ts equal h)
            (free-differs new ts (taken-free new ts rest ids) ids, hs)
      | inr other ↦
          let apart : differs t new ≡ false = ground (arith, first, other) in
          rw other (any-differs-replace t new ts h apart, AllDistinct-replace new ts hs rest)
    ]
