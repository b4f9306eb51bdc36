-- ===== src/Manifest/Lookup.antt =====
-- common/application/manifest_service.py: what its dictionaries by name and by id find in rows of which
-- no id repeats, and names that are not repeated.
use stateful_abac_policy_eng.Prelude.{
  ℕ, suc, ◌<◌, String, Bool, true, false, none, some, List, [], ◌∷◌, ◌++◌, ◌≡◌, refl, sym, ap, ap₂,
  ◌∙◌, ◌==◌, eq_text, eq_iff, map, any, Bool-cases, Option-cases, inl, inr, arith, true_false,
  or_parts, some_injective, mem_text, mem_text-append, ==_self, eq_refl,
}
use stateful_abac_policy_eng.Manifest.Tables.{last_or, last_where, last_named}
use stateful_abac_policy_eng.Manifest.Export.{name_or_unknown}

-- No name is repeated.
abbrev pub AreDistinct : List String → Type 0
AreDistinct [] = Unit
AreDistinct (n ∷ ns) = (mem_text n ns ≡ false) × AreDistinct ns

-- Every name is new when it is added at the end of those before it.
abbrev pub AreNew : List String → List String → Type 0
AreNew [] before = Unit
AreNew (n ∷ ns) before = (mem_text n before ≡ false) × AreNew ns (before ++ n ∷ [])

AreDistinct-apart :
    (ns before : List String)
    → AreDistinct ns
    → ((n : String) → mem_text n ns ≡ true → mem_text n before ≡ false)
    → AreNew ns before
AreDistinct-apart [] before d h = tt
AreDistinct-apart (n ∷ ns) before (out, d) h = (
  h n (ground (arith, eq_refl n)),
  AreDistinct-apart ns (before ++ n ∷ []) d λ m inside.
      let old : mem_text m before ≡ false = h m (ground (arith, inside)) in
      ground (arith, mem_text-append m before (n ∷ []), old, inside, out, eq_iff n m),
)

pub AreDistinct-new : (ns : List String) → AreDistinct ns → AreNew ns []
AreDistinct-new ns d = AreDistinct-apart ns [] d λ n h. refl

-- Every name is one of the others.
abbrev pub AreKnown : List String → List String → Type 0
AreKnown names [] = Unit
AreKnown names (n ∷ ns) = (mem_text n names ≡ true) × AreKnown names ns

module _ {ℓ} {A : Type ℓ} where
  pub last_where-none :
      (test : A → Bool) (rows : List A) → any test rows ≡ false → last_where test rows ≡ none
  last_where-none test [] h = refl
  last_where-none test (x ∷ xs) h =
      let (here, there) = or_parts (test x) (any test xs) h in
      rw (last_where-none test xs there, here) refl

  pub any-mem_text :
      (name : A → String) (n : String) (rows : List A)
      → any (λ x. eq_text (name x) n) rows ≡ mem_text n (map name rows)
  any-mem_text name n [] = refl
  any-mem_text name n (x ∷ xs) = rw (any-mem_text name n xs) refl

  pub new_name :
      (name : A → String) (n : String) (rows : List A)
      → mem_text n (map name rows) ≡ false
      → last_named name (some n) rows ≡ none
  new_name name n rows h = last_where-none _ rows (any-mem_text name n rows ∙ h)

  -- no id is repeated
  abbrev pub IsUnique : (A → ℕ) → List A → Type 0
  IsUnique id [] = Unit
  IsUnique id (x ∷ xs) = (any (λ y. id y == id x) xs ≡ false) × IsUnique id xs

  -- What a search finds passes its test and is found again by its id.
  last_where-here :
      (id : A → ℕ) (test : A → Bool) (x r : A) (xs : List A)
      → any (λ y. id y == id x) xs ≡ false
      → last_or none x (test x) ≡ some r
      → (test r ≡ true) × (last_or (last_where (λ y. id y == id r) xs) x (id x == id r) ≡ some r)
  last_where-here id test x r xs apart h = elim (Bool-cases (test x)) [
    | inl passed ↦
        let same : x ≡ r = ground (arith, h, passed) in
        (
          rw (sym same) passed,
          rw (sym same) (rw (last_where-none (λ y. id y == id x) xs apart, ==_self (id x)) refl),
        )
    | inr off ↦ ground (arith, h, off)
  ]

  pub last_where-again :
      (id : A → ℕ) (test : A → Bool) (rows : List A) (r : A)
      → IsUnique id rows
      → last_where test rows ≡ some r
      → (test r ≡ true) × (last_where (λ y. id y == id r) rows ≡ some r)
  last_where-again id test [] r u h = ground (arith, h)
  last_where-again id test (x ∷ xs) r (apart, u) h = elim (Option-cases (last_where test xs)) [
    | inl missing ↦
        last_where-here id test x r xs apart (sym (ap (λ o. last_or o x (test x)) missing) ∙ h)
    | inr (s, found) ↦
        let same : s ≡ r = some_injective s r (sym (ap (λ o. last_or o x (test x)) found) ∙ h) in
        let (passes, again) = last_where-again id test xs r u (found ∙ ap some same) in
        (passes, ap (λ o. last_or o x (id x == id r)) again)
  ]

  -- What no row is, is not found.
  pub found_not :
      (p test : A → Bool) (rows : List A) (r : A)
      → any p rows ≡ false
      → last_where test rows ≡ some r
      → p r ≡ false
  found_not p test [] r apart h = ground (arith, h)
  found_not p test (x ∷ xs) r apart h =
      let (here, there) = or_parts (p x) (any p xs) apart in
      elim (Option-cases (last_where test xs)) [
        | inr (s, found) ↦
            let same : s ≡ r =
              some_injective s r (sym (ap (λ o. last_or o x (test x)) found) ∙ h) in
            found_not p test xs r there (found ∙ ap some same)
        | inl missing ↦
            let last : last_or none x (test x) ≡ some r =
              sym (ap (λ o. last_or o x (test x)) missing) ∙ h in
            elim (Bool-cases (test x)) [
              | inl passed ↦
                  let same : x ≡ r = ground (arith, last, passed) in sym (ap p same) ∙ here
              | inr off ↦ ground (arith, last, off)
            ]
      ]

  -- A search that finds nothing fails at every row.
  pub any-missing :
      (test : A → Bool) (rows : List A) → last_where test rows ≡ none → any test rows ≡ false
  any-missing test [] h = refl
  any-missing test (x ∷ xs) h = elim (Option-cases (last_where test xs)) [
    | inr (s, found) ↦ ground (arith, sym (ap (λ o. last_or o x (test x)) found) ∙ h)
    | inl missing ↦ elim (Bool-cases (test x)) [
      | inl passed ↦ ground (arith, sym (ap₂ (λ o b. last_or o x b) missing passed) ∙ h)
      | inr off ↦ rw (off, any-missing test xs missing) refl
    ]
  ]

  -- A name that stands in the rows is found.
  pub known_name :
      (name : A → String) (n : String) (rows : List A)
      → mem_text n (map name rows) ≡ true
      → (r : A) × (last_named name (some n) rows ≡ some r)
  known_name name n [] h = ground (arith, h)
  known_name name n (x ∷ xs) h = elim (Option-cases (last_named name (some n) xs)) [
    | inr (s, found) ↦ (s, ap (λ o. last_or o x (eq_text (name x) n)) found)
    | inl missing ↦ elim (Bool-cases (eq_text (name x) n)) [
      | inl passed ↦ (x, rw (missing, passed) refl)
      | inr off ↦
          let (r, found) = known_name name n xs (ground (arith, h, off)) in
          true_false false (ground (arith, missing, found)) refl
    ]
  ]

  -- The id that a known name gives leads back to the name.
  pub name_again :
      (id : A → ℕ) (name : A → String) (n : String) (rows : List A)
      → IsUnique id rows
      → mem_text n (map name rows) ≡ true
      → (r : A) × (last_named name (some n) rows ≡ some r)
        × (name_or_unknown name (last_where (λ y. id y == id r) rows) ≡ n)
  name_again id name n rows u h =
      let (r, found) = known_name name n rows h in
      let (passes, again) = last_where-again id (λ x. eq_text (name x) n) rows r u found in
      (r, found, ap (name_or_unknown name) again ∙ (eq_iff (name r) n).0 passes)

  -- ---- rows that are numbered from an id on
  module _ {κ} {B : Type κ} where
    abbrev pub rows_from : (ℕ → B → A) → ℕ → List B → List A
    rows_from row n [] = []
    rows_from row n (b ∷ bs) = row n b ∷ rows_from row (suc n) bs

    pub rows_from-apart :
        (id : A → ℕ) (row : ℕ → B → A)
        → ((n : ℕ) (b : B) → id (row n b) ≡ n)
        → (n m : ℕ) (bs : List B) → n < m
        → any (λ y. id y == n) (rows_from row m bs) ≡ false
    rows_from-apart id row h n m [] below = refl
    rows_from-apart id row h n m (b ∷ bs) below =
        ground (arith, h m b, below, rows_from-apart id row h n (suc m) bs (omega (arith, below)))

    pub rows_from-IsUnique :
        (id : A → ℕ) (row : ℕ → B → A)
        → ((n : ℕ) (b : B) → id (row n b) ≡ n)
        → (n : ℕ) (bs : List B) → IsUnique id (rows_from row n bs)
    rows_from-IsUnique id row h n [] = tt
    rows_from-IsUnique id row h n (b ∷ bs) = (
      rw (h n b) (rows_from-apart id row h n (suc n) bs (omega arith)),
      rows_from-IsUnique id row h (suc n) bs,
    )

    pub map-rows_from {μ} :
        {C : Type μ}
        → (f : A → C) (g : B → C) (row : ℕ → B → A) → ((n : ℕ) (b : B) → f (row n b) ≡ g b)
        → (n : ℕ) (bs : List B) → map f (rows_from row n bs) ≡ map g bs
    map-rows_from f g row h n [] = refl
    map-rows_from f g row h n (b ∷ bs) = ap₂ ◌∷◌ (h n b) (map-rows_from f g row h (suc n) bs)
