-- ===== src/Services/Acls/Distinct.antt =====
-- Rows of acl of which no two have one key or one id.
use stateful_abac_policy_eng.Prelude.{
  ℕ, suc, Bool, false, ◌||◌, Option, none, some, List, [], ◌∷◌, ◌++◌, map, ◌==◌, ◌<◌, ◌≡◌, refl, ap,
  arith, where_true, any, Bool-cases, inl, inr,
}
use stateful_abac_policy_eng.Policy.{Acl}
use stateful_abac_policy_eng.Services.Acls.Rows.{
  RuleKey, key_of_row, same_rule, has_key, same_column,
}

-- what a row is told apart by
pub record Shape : Type 0 where
  pub key : RuleKey
  pub id : ℕ

abbrev pub shape : Acl → Shape
shape a = record { key = key_of_row a; id = a.id }

abbrev pub clashes : Shape → Shape → Bool
clashes x y = same_rule x.key y.key || y.id == x.id

abbrev pub AllApart : List Shape → Type 0
AllApart [] = Unit
AllApart (x ∷ xs) = (any (clashes x) xs ≡ false) × AllApart xs

abbrev pub IsDistinct : List Acl → Type 0
IsDistinct rows = AllApart (map shape rows)

-- No id has been given out that the sequence is still to give.
abbrev pub AllBelow : ℕ → List Acl → Type 0
AllBelow n [] = Unit
AllBelow n (a ∷ rows) = (a.id < n) × AllBelow n rows

any-fewer :
    (p : Shape → Bool) (q : Acl → Bool) (rows : List Acl)
    → any p (map shape rows) ≡ false
    → any p (map shape (where_true q rows)) ≡ false
any-fewer p q [] h = refl
any-fewer p q (a ∷ rows) h = ground (arith, any-fewer p q rows)

-- Deleting rows keeps them apart.
pub where_true-IsDistinct :
    (q : Acl → Bool) (rows : List Acl) → IsDistinct rows → IsDistinct (where_true q rows)
where_true-IsDistinct q [] h = tt
where_true-IsDistinct q (a ∷ rows) (h, t) =
    let rest = where_true-IsDistinct q rows t in
    elim (Bool-cases (q a)) [
      | inl kept ↦ rw kept (any-fewer (clashes (shape a)) q rows h, rest)
      | inr dropped ↦ rw dropped rest
    ]

pub where_true-AllBelow :
    (n : ℕ) (q : Acl → Bool) (rows : List Acl) → AllBelow n rows → AllBelow n (where_true q rows)
where_true-AllBelow n q [] h = tt
where_true-AllBelow n q (a ∷ rows) (h, t) = elim (Bool-cases (q a)) [
  | inl kept ↦ rw kept (h, where_true-AllBelow n q rows t)
  | inr dropped ↦ rw dropped (where_true-AllBelow n q rows t)
]

pub same_column_iff_flip : (m n : Option ℕ) → same_column m n ≡ same_column n m
same_column_iff_flip none none = refl
same_column_iff_flip none (some n) = refl
same_column_iff_flip (some m) none = refl
same_column_iff_flip (some m) (some n) = ground arith

test_flip : (m n : ℕ) → (m == n) ≡ (n == m)
test_flip m n = ground arith

pub same_rule_flip : (k l : RuleKey) → same_rule k l ≡ same_rule l k
same_rule_flip k l =
    rw
      (
        test_flip l.realm_id k.realm_id,
        test_flip l.resource_type_id k.resource_type_id,
        test_flip l.action_id k.action_id,
        same_column_iff_flip l.principal_id k.principal_id,
        same_column_iff_flip l.role_id k.role_id,
        same_column_iff_flip l.resource_id k.resource_id,
      )
      refl

-- A row of a new key and a new id is apart from the others.
apart_new :
    (b : Acl) (n : ℕ) (new : Shape)
    → b.id < n
    → new.id ≡ n
    → has_key new.key b ≡ false
    → clashes (shape b) new ≡ false
apart_new b n new below fresh other =
    rw (same_rule_flip (key_of_row b) new.key, other) (ground (arith, fresh))

any_last :
    (p : Shape → Bool) (xs : List Shape) (y : Shape)
    → any p xs ≡ false
    → p y ≡ false
    → any p (xs ++ y ∷ []) ≡ false
any_last p [] y h e = rw e refl
any_last p (x ∷ xs) y h e = ground (arith, any_last p xs y)

map-append-one :
    (rows : List Acl) (new : Acl)
    → map shape (rows ++ new ∷ []) ≡ (map shape rows ++ shape new ∷ [])
map-append-one [] new = refl
map-append-one (a ∷ rows) new = ap (λ xs. shape a ∷ xs) (map-append-one rows new)

pub append-IsDistinct :
    (rows : List Acl) (new : Acl)
    → AllBelow new.id rows
    → any (has_key (key_of_row new)) rows ≡ false
    → IsDistinct rows
    → IsDistinct (rows ++ new ∷ [])
append-IsDistinct [] new below other h = (refl, tt)
append-IsDistinct (b ∷ rows) new (first, below) other (h, t) =
    let free : has_key (key_of_row new) b ≡ false = ground arith in
    let later : any (has_key (key_of_row new)) rows ≡ false = ground arith in
    (
      rw (map-append-one rows new) (
          any_last (clashes (shape b)) (map shape rows) (shape new) h
            (apart_new b new.id (shape new) first refl free)),
      append-IsDistinct rows new below later t,
    )

pub append-AllBelow :
    (n : ℕ) (rows : List Acl) (new : Acl)
    → new.id ≡ n
    → AllBelow n rows
    → AllBelow (suc n) (rows ++ new ∷ [])
append-AllBelow n [] new e h = (omega (arith, e), tt)
append-AllBelow n (a ∷ rows) new e (h, t) = (omega (arith, h), append-AllBelow n rows new e t)
