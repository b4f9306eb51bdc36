-- ===== src/Services/ResourceTypes/Removed.antt =====
-- The entries of the types after a row is deleted or written.
use mathlib.Core.Path.{subst}
use stateful_abac_policy_eng.Prelude.{
  ℕ, String, true, false, not, Option, none, some, List, [], ◌∷◌, ◌≡◌, refl, sym, ap, ◌∙◌, ◌==◌,
  eq_text, eq_iff, if◌then◌else◌, where_true, any, Bool-cases, inl, inr, arith, or_parts, cons_head,
  ==_flip, ==_self,
}
use stateful_abac_policy_eng.Policy.{ResourceType}
use stateful_abac_policy_eng.RealmCache.Lookups.{or_else}
use stateful_abac_policy_eng.Services.ResourceTypes.{replace_type, is_taken, has_id}
use stateful_abac_policy_eng.Services.ResourceTypes.Entries.{is_key_of}
use stateful_abac_policy_eng.Services.ResourceTypes.Changes.{
  value_at, lookup, or_else_assoc, lookup-cons, value_at-other, differs, AllDistinct, names_differ,
  lookup-apart, differs-names, found-differs, no_ids-filter, no_ids-replace,
}

abbrev pub forgets : String → String → Option String → Option String
forgets k name o = if is_key_of k name then none else o

-- the row at the head goes
delete_head :
    (k : String) (t : ResourceType) (ts : List ResourceType)
    → any (differs t) ts ≡ false
    → lookup k ts ≡ forgets k t.name (lookup k (t ∷ ts))
delete_head k t ts h = elim (Bool-cases (is_key_of k t.name)) [
  | inl key ↦ rw key (lookup-apart k t ts (differs-names t ts h) key)
  | inr off ↦
      rw off (sym (lookup-cons k t ts ∙ rw (value_at-other k t off) (or_none (lookup k ts))))
]
  where
    or_none : (o : Option String) → or_else o none ≡ o
    or_none none = refl
    or_none (some v) = refl

delete_self :
    (k : String) (t : ResourceType) (ts : List ResourceType)
    → any (differs t) ts ≡ false
    → lookup k (where_true (λ u. not (u.id == t.id)) (t ∷ ts))
      ≡ forgets k t.name (lookup k (t ∷ ts))
delete_self k t ts h = rw (==_self t.id, no_ids-filter t ts h) (delete_head k t ts h)

-- another row goes
delete_tail :
    (k : String) (t x : ResourceType) (o : Option String)
    → differs t x ≡ false
    → or_else (forgets k x.name o) (value_at k t) ≡ forgets k x.name (or_else o (value_at k t))
delete_tail k t x o h = elim (Bool-cases (is_key_of k x.name)) [
  | inl key ↦
      let name = (or_parts (eq_text t.name x.name) (t.id == x.id) h).0 in
      let flipped : eq_text x.name t.name ≡ false =
        ground (arith, eq_iff x.name t.name, eq_iff t.name x.name, name) in
      rw (key, names_differ k x t flipped key) refl
  | inr off ↦ rw off refl
]

pub lookup-delete :
    (k : String) (id : ℕ) (x : ResourceType) (types : List ResourceType)
    → AllDistinct types
    → where_true (has_id id) types ≡ x ∷ []
    → lookup k (where_true (λ u. not (u.id == x.id)) types) ≡ forgets k x.name (lookup k types)
lookup-delete k id x [] h found = cc
lookup-delete k id x (t ∷ ts) (h, hs) found = elim (Bool-cases (t.id == id)) [
  | inl kept ↦
      let same : t ≡ x = cons_head t x (where_true (has_id id) ts) [] (rw kept at found) in
      subst
        (λ y.
          lookup k (where_true (λ u. not (u.id == y.id)) (t ∷ ts))
          ≡ forgets k y.name (lookup k (t ∷ ts)))
        same (delete_self k t ts h)
  | inr dropped ↦
      let later : where_true (has_id id) ts ≡ x ∷ [] = rw dropped at found in
      let apart = found-differs (has_id id) t x ts later h in
      let other = (or_parts (eq_text t.name x.name) (t.id == x.id) apart).1 in
      rw other (
        lookup-cons k t (where_true (λ u. not (u.id == x.id)) ts)
        ∙ rw (lookup-delete k id x ts hs later) (delete_tail k t x (lookup k ts) apart)
        ∙ ap (forgets k x.name) (sym (lookup-cons k t ts)))
]

-- The written row is at the head.
write_head :
    (k : String) (t new : ResourceType) (ts : List ResourceType)
    → any (differs t) ts ≡ false
    → any (λ u. eq_text new.name u.name) ts ≡ false
    → or_else (lookup k ts) (value_at k new)
      ≡ or_else (value_at k new) (forgets k t.name (lookup k (t ∷ ts)))
write_head k t new ts h free =
    rw (← delete_head k t ts h) (elim (Bool-cases (is_key_of k new.name)) [
      | inl key ↦ rw (lookup-apart k new ts free key) (sym (or_none (value_at k new)))
      | inr off ↦ rw (value_at-other k new off) (or_none (lookup k ts))
    ])
  where
    or_none : (o : Option String) → or_else o none ≡ o
    or_none none = refl
    or_none (some v) = refl

-- No other row has the name of the written one.
pub taken-free :
    (new : ResourceType) (ts : List ResourceType)
    → any (is_taken new) ts ≡ false
    → any (λ u. u.id == new.id) ts ≡ false
    → any (λ u. eq_text new.name u.name) ts ≡ false
taken-free new [] h g = refl
taken-free new (u ∷ ts) h g =
    let (here, later) = or_parts (is_taken new u) (any (is_taken new) ts) h in
    let (id, ids) = or_parts (u.id == new.id) (any (λ u. u.id == new.id) ts) g in
    let free : eq_text new.name u.name ≡ false =
      ground (arith, here, id, eq_iff new.name u.name, eq_iff u.name new.name) in
    rw (free, taken-free new ts later ids) refl

pub differs-ids :
    (t new : ResourceType) (ts : List ResourceType)
    → t.id ≡ new.id
    → any (differs t) ts ≡ false
    → any (λ u. u.id == new.id) ts ≡ false
differs-ids t new [] same h = refl
differs-ids t new (u ∷ ts) same h =
    let (here, later) = or_parts (differs t u) (any (differs t) ts) h in
    let other = (or_parts (eq_text t.name u.name) (t.id == u.id) here).1 in
    let off : (u.id == new.id) ≡ false =
      ap (λ n. u.id == n) (sym same) ∙ ==_flip u.id t.id ∙ other in
    rw (off, differs-ids t new ts same later) refl

pub lookup-replace :
    (k : String) (id : ℕ) (x new : ResourceType) (types : List ResourceType)
    → AllDistinct types
    → where_true (has_id id) types ≡ x ∷ []
    → x.id ≡ new.id
    → any (is_taken new) types ≡ false
    → lookup k (replace_type new types)
      ≡ or_else (value_at k new) (forgets k x.name (lookup k types))
lookup-replace k id x new [] h found same free = cc
lookup-replace k id x new (t ∷ ts) (h, hs) found same free =
    let (first, rest) = or_parts (is_taken new t) (any (is_taken new) ts) free in
    elim (Bool-cases (t.id == id)) [
      | inl kept ↦
          let at : t ≡ x = cons_head t x (where_true (has_id id) ts) [] (rw kept at found) in
          let ids : t.id ≡ new.id = ap (λ u. u.id) at ∙ same in
          let hit : (t.id == new.id) ≡ true = ap (λ n. n == new.id) ids ∙ ==_self new.id in
          let names = taken-free new ts rest (differs-ids t new ts ids h) in
          rw (← at) (
            rw (hit, no_ids-replace t new ts ids h)
              (lookup-cons k new ts ∙ write_head k t new ts h names))
      | inr dropped ↦
          let later : where_true (has_id id) ts ≡ x ∷ [] = rw dropped at found in
          let apart = found-differs (has_id id) t x ts later h in
          let other = (or_parts (eq_text t.name x.name) (t.id == x.id) apart).1 in
          let off : (t.id == new.id) ≡ false = ap (λ n. t.id == n) (sym same) ∙ other in
          rw off (
            lookup-cons k t (replace_type new ts)
            ∙ rw (lookup-replace k id x new ts hs later same rest)
                (or_else_assoc (value_at k new) (forgets k x.name (lookup k ts)) (value_at k t))
            ∙ ap (or_else (value_at k new)) (
                delete_tail k t x (lookup k ts) apart
                ∙ ap (forgets k x.name) (sym (lookup-cons k t ts))))
    ]
