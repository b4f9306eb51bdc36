-- ===== src/Services/Acls/Replaced.antt =====
-- An UPDATE of a row that a search by key or by id found changes no key and no id.
use stateful_abac_policy_eng.Prelude.{
  ℕ, Bool, true, false, List, [], ◌∷◌, map, ◌==◌, ◌≡◌, refl, sym, ap, ◌∙◌, arith, where_true, any,
  Bool-cases, inl, inr, or_parts, true_false, ==_flip, cons_head, cons_tail,
}
use stateful_abac_policy_eng.Policy.{Acl}
use stateful_abac_policy_eng.Services.Acls.Rows.{key_of_row, same_rule, same_row, replace_row}
use stateful_abac_policy_eng.Services.Acls.Distinct.{Shape, shape, clashes, IsDistinct, AllBelow}

-- The rows that an UPDATE of `a` reaches are rows like `a`.
abbrev pub Owns : Acl → List Acl → Type 0
Owns a [] = Unit
Owns a (b ∷ rows) = (same_row b a ≡ true → shape b ≡ shape a) × Owns a rows

same_row-id : (b a : Acl) → same_row b a ≡ true → (b.id == a.id) ≡ true
same_row-id b a h = ground (arith, h)

not-same_row : (b a : Acl) → (b.id == a.id) ≡ false → same_row b a ≡ true → shape b ≡ shape a
not-same_row b a other h = true_false (b.id == a.id) (same_row-id b a h) other

Owns-apart :
    (a : Acl) (rows : List Acl) → any (clashes (shape a)) (map shape rows) ≡ false → Owns a rows
Owns-apart a [] h = tt
Owns-apart a (b ∷ rows) h =
    let (here, later) =
      or_parts (clashes (shape a) (shape b)) (any (clashes (shape a)) (map shape rows)) h in
    (
      not-same_row b a (or_parts (same_rule (key_of_row a) (key_of_row b)) (b.id == a.id) here).1,
      Owns-apart a rows later,
    )

found-clashes :
    (p : Acl → Bool) (x : Shape) (a : Acl) (rows : List Acl)
    → where_true p rows ≡ a ∷ []
    → any (clashes x) (map shape rows) ≡ false
    → clashes x (shape a) ≡ false
found-clashes p x a [] found h = cc
found-clashes p x a (b ∷ rows) found h =
    let (here, later) = or_parts (clashes x (shape b)) (any (clashes x) (map shape rows)) h in
    elim (Bool-cases (p b)) [
      | inl kept ↦
          let same : b ≡ a = cons_head b a (where_true p rows) [] (rw kept at found) in
          ap (λ c. clashes x (shape c)) (sym same) ∙ here
      | inr dropped ↦ found-clashes p x a rows (rw dropped at found) later
    ]

pub Owns-found :
    (p : Acl → Bool) (a : Acl) (rows : List Acl)
    → IsDistinct rows
    → where_true p rows ≡ a ∷ []
    → Owns a rows
Owns-found p a [] h found = tt
Owns-found p a (b ∷ rows) (h, t) found = elim (Bool-cases (p b)) [
  | inl kept ↦
      let same : b ≡ a = cons_head b a (where_true p rows) [] (rw kept at found) in
      (
        λ _. ap shape same,
        Owns-apart a rows (ap (λ c. any (clashes (shape c)) (map shape rows)) (sym same) ∙ h),
      )
  | inr dropped ↦
      let later : where_true p rows ≡ a ∷ [] = rw dropped at found in
      let apart = found-clashes p (shape b) a rows later h in
      let ids = (or_parts (same_rule (key_of_row b) (key_of_row a)) (a.id == b.id) apart).1 in
      (not-same_row b a (==_flip b.id a.id ∙ ids), Owns-found p a rows t later)
]

-- The UPDATE writes `new`, which has the key and the id of the row that was found.
pub map-replace_row :
    (a new : Acl) (rows : List Acl)
    → shape new ≡ shape a
    → ((b : Acl) → same_row b new ≡ same_row b a)
    → Owns a rows
    → map shape (replace_row new rows) ≡ map shape rows
map-replace_row a new [] like same h = refl
map-replace_row a new (b ∷ rows) like same (h, t) =
    let rest = map-replace_row a new rows like same t in
    elim (Bool-cases (same_row b new)) [
      | inl reached ↦
          rw (reached, rest)
            (ap (λ x. x ∷ map shape rows) (like ∙ sym (h (sym (same b) ∙ reached))))
      | inr left ↦ rw (left, rest) refl
    ]

pub AllBelow-shapes :
    (n : ℕ) (rows others : List Acl)
    → map shape rows ≡ map shape others
    → AllBelow n others
    → AllBelow n rows
AllBelow-shapes n [] others same h = tt
AllBelow-shapes n (a ∷ rows) [] same h = cc
AllBelow-shapes n (a ∷ rows) (b ∷ others) same (h, t) =
    let id : a.id ≡ b.id = ap (λ x. x.id) (cons_head (shape a) (shape b) _ _ same) in
    (omega (arith, h, id), AllBelow-shapes n rows others (cons_tail _ _ _ _ same) t)
