-- ===== src/RealmCache/Lookups.antt =====
-- A lookup in a hash that assignments made: the last assignment to the key, or what was there before.
use Prim.Native.String
use Prim.Native.String.append
use stateful_abac_policy_eng.Prelude.{
  String, Bool, true, false, not, ◌||◌, Option, none, some, List, [], ◌∷◌, ◌++◌, ◌≡◌, refl, sym, ap,
  ◌∙◌, eq_text, eq_iff, is_none, if◌then◌else◌, where_true, Bool-cases, inl, inr, arith, true_false,
}
use stateful_abac_policy_eng.Auth.{Entry, find}
use stateful_abac_policy_eng.RealmCache.{
  RealmState, set_field, set_fields, assignments, mapping_of, is_type_field,
}

-- the first of two answers
abbrev pub or_else : Option String → Option String → Option String
or_else none o = o
or_else (some v) o = some v

abbrev pub last : String → List Entry → Option String
last k [] = none
last k (e ∷ es) = or_else (last k es) (if eq_text e.key k then some e.text else none)

or_else_assoc : (a b c : Option String) → or_else (or_else a b) c ≡ or_else a (or_else b c)
or_else_assoc none b c = refl
or_else_assoc (some v) b c = refl

or_else-none : (a : Option String) → or_else a none ≡ a
or_else-none none = refl
or_else-none (some v) = refl

eq_trans : (a b k : String) → eq_text a b ≡ true → eq_text a k ≡ eq_text b k
eq_trans a b k h = ap (λ t. eq_text t k) ((eq_iff a b).0 h)

find-set_field :
    (k : String) (e : Entry) (hash : List Entry)
    → find k (set_field e hash) ≡ (if eq_text e.key k then some e.text else find k hash)
find-set_field k e [] = refl
find-set_field k e (d ∷ ds) = elim (Bool-cases (eq_text d.key e.key)) [
  | inl same ↦ rw same (rw (eq_trans d.key e.key k same) (again (eq_text e.key k)))
  | inr other ↦ elim (Bool-cases (eq_text d.key k)) [
    | inl here ↦ rw (other, here) (sym (differs here other))
    | inr there ↦ rw (other, there) (find-set_field k e ds)
  ]
]
  where
    again :
        (b : Bool)
        → (if b then some e.text else find k ds)
          ≡ (if b then some e.text else (if b then some d.text else find k ds))
    again true = refl
    again false = refl

    differs :
        eq_text d.key k ≡ true
        → eq_text d.key e.key ≡ false
        → (if eq_text e.key k then some e.text else some d.text) ≡ some d.text
    differs here other = elim (Bool-cases (eq_text e.key k)) [
      | inl at ↦
          true_false (eq_text d.key e.key)
            ((eq_iff d.key e.key).1 ((eq_iff d.key k).0 here ∙ sym ((eq_iff e.key k).0 at))) other
      | inr off ↦ rw off refl
    ]

pub find-set_fields :
    (k : String) (es hash : List Entry)
    → find k (set_fields es hash) ≡ or_else (last k es) (find k hash)
find-set_fields k [] hash = refl
find-set_fields k (e ∷ es) hash =
    find-set_fields k es (set_field e hash)
    ∙ ap (or_else (last k es)) (find-set_field k e hash ∙ as_else (eq_text e.key k))
    ∙ sym (or_else_assoc (last k es) (if eq_text e.key k then some e.text else none) (find k hash))
  where
    as_else :
        (b : Bool)
        → (if b then some e.text else find k hash)
          ≡ or_else (if b then some e.text else none) (find k hash)
    as_else true = refl
    as_else false = refl

pub last-append :
    (k : String) (es fs : List Entry) → last k (es ++ fs) ≡ or_else (last k fs) (last k es)
last-append k [] fs = sym (or_else-none (last k fs))
last-append k (e ∷ es) fs =
    rw (last-append k es fs)
      (or_else_assoc (last k fs) (last k es) (if eq_text e.key k then some e.text else none))

-- A lookup in the hash of the rows.
pub find-mapping_of : (k : String) (s : RealmState) → find k (mapping_of s) ≡ last k (assignments s)
unfolding mapping_of
find-mapping_of k s = find-set_fields k (assignments s) [] ∙ or_else-none (last k (assignments s))

pub last-cons_some :
    (k : String) (e : Entry) (es : List Entry)
    → eq_text e.key k ≡ true
    → is_none (last k (e ∷ es)) ≡ false
last-cons_some k e es h = rw h (kept (last k es))
  where
    kept : (o : Option String) → is_none (or_else o (some e.text)) ≡ false
    kept none = refl
    kept (some v) = refl

-- The fields of a type that are taken away.
pub find-where_true :
    (k name : String) (hash : List Entry)
    → find k (where_true (λ e. not (is_type_field name e)) hash) ≡ (
        if eq_text k (String.◌++◌ "type:" name) || eq_text k (String.◌++◌ "type_public:" name)
        then none
        else find k hash)
find-where_true k name [] = ground arith
find-where_true k name (e ∷ es) = elim (Bool-cases (eq_text e.key k)) [
  | inl here ↦
      let same = (eq_iff e.key k).0 here in
      elim (Bool-cases (is_type_field name e)) [
        | inl gone ↦ rw (gone, find-where_true k name es, ← same) (rw gone refl)
        | inr kept ↦ rw (kept, here, ← same) (rw kept refl)
      ]
  | inr other ↦ elim (Bool-cases (is_type_field name e)) [
    | inl gone ↦ rw (gone, other) (find-where_true k name es)
    | inr kept ↦ rw (kept, other) (find-where_true k name es)
  ]
]
