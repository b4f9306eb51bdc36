-- ===== src/Services/Acls/Pages.antt =====
-- The pages of `list_acls`.
use native.Mathlib.Numerals.{unary_clauses}
use stateful_abac_policy_eng.Prelude.{
  ℕ, zero, suc, ◌+◌, ◌≤◌, List, [], ◌∷◌, ◌++◌, map, ◌≡◌, refl, sym, ap, ◌∙◌, arith, where_true,
  length,
}
use stateful_abac_policy_eng.Services.Acls.Rows.{AclState}
use stateful_abac_policy_eng.Services.Acls.Operations.{map_acl_to_dict}
use stateful_abac_policy_eng.Services.Acls.Batch.{
  AclFilters, offset, limited, list_acls, list_all_acls, passes_filters,
}

module _ {ℓ} {A : Type ℓ} where
  offset-add : (m n : ℕ) (xs : List A) → offset (m + n) xs ≡ offset n (offset m xs)
  offset-add zero n xs = let drop : 0 + n ≡ n = omega arith in ap (λ k. offset k xs) drop
  offset-add (suc m) zero [] = simp unary_clauses refl
  offset-add (suc m) (suc n) [] = simp unary_clauses refl
  offset-add (suc m) n (x ∷ xs) =
      let step : suc m + n ≡ suc (m + n) = omega arith in rw step (offset-add m n xs)

  limited-append :
      (m n : ℕ) (xs : List A) → (limited m xs ++ limited n (offset m xs)) ≡ limited (m + n) xs
  limited-append zero n xs = let drop : n ≡ 0 + n = omega arith in ap (λ k. limited k xs) drop
  limited-append (suc m) zero [] = simp unary_clauses refl
  limited-append (suc m) (suc n) [] = simp unary_clauses refl
  limited-append (suc m) n (x ∷ xs) =
      let step : suc m + n ≡ suc (m + n) = omega arith in
      rw step (ap (λ ys. x ∷ ys) (limited-append m n xs))

  limited-all : (n : ℕ) (xs : List A) → length xs ≤ n → limited n xs ≡ xs
  limited-all zero [] h = refl
  limited-all zero (x ∷ xs) h = absurd (omega (arith, h))
  limited-all (suc n) [] h = refl
  limited-all (suc n) (x ∷ xs) h = ap (λ ys. x ∷ ys) (limited-all n xs (omega (arith, h)))

  length-limited : (n : ℕ) (xs : List A) → length (limited n xs) ≤ n
  length-limited zero xs = omega arith
  length-limited (suc n) [] = omega arith
  length-limited (suc n) (x ∷ xs) = omega (arith, length-limited n xs)

  length-map {κ} : {B : Type κ} (f : B → A) (xs : List B) → length (map f xs) ≡ length xs
  length-map f [] = refl
  length-map f (x ∷ xs) = ap suc (length-map f xs)

  map_append {κ} :
      {B : Type κ} (f : B → A) (xs ys : List B) → map f (xs ++ ys) ≡ (map f xs ++ map f ys)
  map_append f [] ys = refl
  map_append f (x ∷ xs) ys = ap (λ zs. f x ∷ zs) (map_append f xs ys)

-- A page has at most `limit` rows; two pages that follow each other are one page of both lengths; and
-- a page from the start whose limit is the total that is reported has every row of `list_all_acls`.
pub list_acls-pages :
    (realm_id skip m n : ℕ) (f : AclFilters) (s : AclState)
    → (length (list_acls realm_id skip m f s).0 ≤ m)
      × (((list_acls realm_id skip m f s).0 ++ (list_acls realm_id (skip + m) n f s).0)
          ≡ (list_acls realm_id skip (m + n) f s).0)
      × ((list_acls realm_id 0 (list_acls realm_id skip m f s).1 f s).0
          ≡ list_all_acls realm_id f s)
unfolding list_acls list_all_acls
list_acls-pages realm_id skip m n f s =
    let found = where_true (passes_filters realm_id f) s.acls in
    (
      omega (
        arith,
        length-limited m (offset skip found),
        length-map (map_acl_to_dict s) (limited m (offset skip found)),
      ),
      sym (
            map_append (map_acl_to_dict s) (limited m (offset skip found))
              (limited n (offset (skip + m) found)))
          ∙ ap (map (map_acl_to_dict s)) (
              ap (λ ys. limited m (offset skip found) ++ limited n ys) (offset-add skip m found)
              ∙ limited-append m n (offset skip found)),
      ap (map (map_acl_to_dict s)) (limited-all (length found) found (omega arith)),
    )
