-- ===== src/Services/ResourceTypes/Changes.antt =====
-- How the entries of the types change with the rows: a new row, one without its row, a written row.
use stateful_abac_policy_eng.Prelude.{
  String, Bool, true, false, not, ◌||◌, Option, none, some, List, [], ◌∷◌, ◌++◌, ◌≡◌, refl, sym, ap,
  ◌∙◌, ◌==◌, eq_text, eq_iff, if◌then◌else◌, where_true, any, Bool-cases, inl, inr, arith,
  true_false, or_parts, cons_head, ==_flip,
}
use stateful_abac_policy_eng.Policy.{ResourceType}
use stateful_abac_policy_eng.RealmCache.{type_entry, public_entry, type_entries}
use stateful_abac_policy_eng.RealmCache.Lookups.{or_else, last}
use stateful_abac_policy_eng.Services.ResourceTypes.{replace_type}
use stateful_abac_policy_eng.Services.ResourceTypes.Entries.{is_key_of, one_name}

-- what the entries of one type say of a key
abbrev pub value_at : String → ResourceType → Option String
value_at k t = last k (type_entry t ∷ public_entry t ∷ [])

abbrev pub lookup : String → List ResourceType → Option String
lookup k types = last k (type_entries types)

pub or_else_assoc : (a b c : Option String) → or_else (or_else a b) c ≡ or_else a (or_else b c)
or_else_assoc none b c = refl
or_else_assoc (some v) b c = refl

pub lookup-cons :
    (k : String) (t : ResourceType) (ts : List ResourceType)
    → lookup k (t ∷ ts) ≡ or_else (lookup k ts) (value_at k t)
lookup-cons k t ts =
    or_else_assoc (lookup k ts)
      (if eq_text (public_entry t).key k then some (public_entry t).text else none)
      (if eq_text (type_entry t).key k then some (type_entry t).text else none)

eq_flip : (a b : String) → eq_text a b ≡ eq_text b a
eq_flip a b = ground (arith, eq_iff a b, eq_iff b a)

-- A type says nothing of the keys of other names.
pub value_at-other :
    (k : String) (t : ResourceType) → is_key_of k t.name ≡ false → value_at k t ≡ none
value_at-other k t h =
    let (type, public) =
      or_parts (eq_text k (type_entry t).key) (eq_text k (public_entry t).key) h in
    rw (eq_flip (public_entry t).key k, eq_flip (type_entry t).key k, type, public) refl

-- A type has its say of its own keys.
pub value_at-own :
    (k : String) (t : ResourceType) (o p : Option String)
    → is_key_of k t.name ≡ true
    → or_else (value_at k t) o ≡ or_else (value_at k t) p
value_at-own k t o p h = elim (Bool-cases (eq_text k (public_entry t).key)) [
  | inl public ↦ rw (eq_flip (public_entry t).key k, public) refl
  | inr off ↦
      let type : eq_text k (type_entry t).key ≡ true = ground (arith, h, off) in
      rw (eq_flip (public_entry t).key k, eq_flip (type_entry t).key k, off, type) refl
]

-- Names and ids that are not repeated.
abbrev pub differs : ResourceType → ResourceType → Bool
differs t u = eq_text t.name u.name || t.id == u.id

abbrev pub AllDistinct : List ResourceType → Type 0
AllDistinct [] = Unit
AllDistinct (t ∷ ts) = (any (differs t) ts ≡ false) × AllDistinct ts

pub names_differ :
    (k : String) (a b : ResourceType)
    → eq_text a.name b.name ≡ false
    → is_key_of k a.name ≡ true
    → value_at k b ≡ none
names_differ k a b other h = elim (Bool-cases (is_key_of k b.name)) [
  | inl also ↦ true_false (eq_text a.name b.name) (one_name k a.name b.name h also) other
  | inr off ↦ value_at-other k b off
]

-- The types after one say nothing of its keys.
pub lookup-apart :
    (k : String) (t : ResourceType) (ts : List ResourceType)
    → any (λ u. eq_text t.name u.name) ts ≡ false
    → is_key_of k t.name ≡ true
    → lookup k ts ≡ none
lookup-apart k t [] h key = refl
lookup-apart k t (u ∷ ts) h key =
    let (here, later) = or_parts (eq_text t.name u.name) (any (λ u. eq_text t.name u.name) ts) h in
    lookup-cons k u ts ∙ rw (lookup-apart k t ts later key, names_differ k t u here key) refl

pub lookup-append :
    (k : String) (types : List ResourceType) (t : ResourceType)
    → lookup k (types ++ t ∷ []) ≡ or_else (value_at k t) (lookup k types)
lookup-append k [] t = lookup-cons k t [] ∙ sym (or_none (value_at k t))
  where
    or_none : (o : Option String) → or_else o none ≡ o
    or_none none = refl
    or_none (some v) = refl
lookup-append k (u ∷ types) t =
    lookup-cons k u (types ++ t ∷ [])
    ∙ rw (lookup-append k types t) (or_else_assoc (value_at k t) (lookup k types) (value_at k u))
    ∙ ap (or_else (value_at k t)) (sym (lookup-cons k u types))

pub differs-names :
    (t : ResourceType) (ts : List ResourceType)
    → any (differs t) ts ≡ false
    → any (λ u. eq_text t.name u.name) ts ≡ false
differs-names t [] h = refl
differs-names t (u ∷ ts) h =
    let (here, later) = or_parts (differs t u) (any (differs t) ts) h in
    let (name, id) = or_parts (eq_text t.name u.name) (t.id == u.id) here in
    rw (name, differs-names t ts later) refl

-- A row that the search by id found is in the rows.
pub found-differs :
    (p : ResourceType → Bool) (t x : ResourceType) (ts : List ResourceType)
    → where_true p ts ≡ x ∷ []
    → any (differs t) ts ≡ false
    → differs t x ≡ false
found-differs p t x [] found h = cc
found-differs p t x (u ∷ ts) found h =
    let (here, later) = or_parts (differs t u) (any (differs t) ts) h in
    elim (Bool-cases (p u)) [
      | inl kept ↦
          ap (differs t) (sym (cons_head u x (where_true p ts) [] (rw kept at found))) ∙ here
      | inr dropped ↦ found-differs p t x ts (rw dropped at found) later
    ]

pub no_ids-filter :
    (t : ResourceType) (ts : List ResourceType)
    → any (differs t) ts ≡ false
    → where_true (λ u. not (u.id == t.id)) ts ≡ ts
no_ids-filter t [] h = refl
no_ids-filter t (u ∷ ts) h =
    let (here, later) = or_parts (differs t u) (any (differs t) ts) h in
    let other = (or_parts (eq_text t.name u.name) (t.id == u.id) here).1 in
    rw (==_flip u.id t.id, other) (ap (λ us. u ∷ us) (no_ids-filter t ts later))

pub no_ids-replace :
    (t new : ResourceType) (ts : List ResourceType)
    → t.id ≡ new.id
    → any (differs t) ts ≡ false
    → replace_type new ts ≡ ts
no_ids-replace t new [] same h = refl
no_ids-replace t new (u ∷ ts) same h =
    let (here, later) = or_parts (differs t u) (any (differs t) ts) h in
    let other = (or_parts (eq_text t.name u.name) (t.id == u.id) here).1 in
    let off : (u.id == new.id) ≡ false =
      ap (λ n. u.id == n) (sym same) ∙ ==_flip u.id t.id ∙ other in
    rw off (ap (λ us. u ∷ us) (no_ids-replace t new ts same later))
