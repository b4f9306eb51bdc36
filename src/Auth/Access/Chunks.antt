-- ===== src/Auth/Access/Chunks.antt =====
-- The external ids of the authorized resources, which `_process_access_item_with_preresolved` of
-- common/application/auth_service.py looks up in chunks.
use stateful_abac_policy_eng.Prelude.{
  ℕ, Bool, true, false, not, ◌&&◌, ◌||◌, List, [], ◌∷◌, ◌++◌, ◌==◌, ◌≡◌, refl, ap, sym, ◌∙◌, arith,
  Bool-cases, inl, inr, ==_iff, any, mem_id, where_true, zero, suc, length, ◌≤◌, any-or,
}
use stateful_abac_policy_eng.Policy.{ExternalId, Query}
use stateful_abac_policy_eng.Auth.Roles.{is_empty}
use stateful_abac_policy_eng.Auth.Access.{
  distinct_ids, is_external, names_of, select_externals, take, drop, chunked_externals,
}

not_empty-append {ℓ} :
    {A : Type ℓ} (xs ys : List A)
    → not (is_empty (xs ++ ys)) ≡ (not (is_empty xs) || not (is_empty ys))
not_empty-append [] ys = refl
not_empty-append (x ∷ xs) ys = refl

drop_repeat :
    (n m : ℕ) (ns : List ℕ)
    → mem_id n (distinct_ids ns) ≡ mem_id n ns
    → mem_id m (distinct_ids ns) ≡ mem_id m ns
    → mem_id m (distinct_ids ns) ≡ true
    → ((m == n) || mem_id n ns) ≡ mem_id n (distinct_ids ns)
drop_repeat n m ns at_n at_m again = elim (Bool-cases (m == n)) [
  | inl here ↦
      rw here (sym (sym (ap (λ i. mem_id i (distinct_ids ns)) ((==_iff m n).0 here)) ∙ again))
  | inr other ↦ rw other (sym at_n)
]

pub mem_id-distinct_ids : (n : ℕ) (ns : List ℕ) → mem_id n (distinct_ids ns) ≡ mem_id n ns
mem_id-distinct_ids n [] = refl
mem_id-distinct_ids n (m ∷ ns) = elim (Bool-cases (mem_id m (distinct_ids ns))) [
  | inl again ↦
      rw again
        (sym (drop_repeat n m ns (mem_id-distinct_ids n ns) (mem_id-distinct_ids m ns) again))
  | inr new ↦ rw new (ap (λ b. (m == n) || b) (mem_id-distinct_ids n ns))
]

mem_id-take-drop :
    (n k : ℕ) (ns : List ℕ) → (mem_id n (take k ns) || mem_id n (drop k ns)) ≡ mem_id n ns
mem_id-take-drop n zero ns = refl
mem_id-take-drop n (suc k) [] = refl
mem_id-take-drop n (suc k) (m ∷ ns) = ground (arith, mem_id-take-drop n k ns)

length-drop : (k : ℕ) (ns : List ℕ) → length (drop k ns) ≤ length ns
length-drop zero ns = omega arith
length-drop (suc k) [] = omega arith
length-drop (suc k) (n ∷ ns) = omega (arith, length-drop k ns)

not_empty-names :
    (test : ExternalId → Bool) (externals : List ExternalId)
    → not (is_empty (names_of (where_true test externals))) ≡ any test externals
not_empty-names test [] = refl
not_empty-names test (x ∷ xs) = ground (arith, not_empty-names test xs)

never_external :
    (q : Query) (externals : List ExternalId) → any (is_external q []) externals ≡ false
never_external q [] = refl
never_external q (x ∷ xs) = ground (arith, never_external q xs)

either_chunk : (a b c d e : Bool) → (c || d) ≡ e → ((a && b && c) || (a && b && d)) ≡ (a && b && e)
either_chunk a b c d e h = ground arith

pub chunked_externals-any :
    (fuel size : ℕ) (q : Query) (externals : List ExternalId) (found : List ℕ)
    → length found ≤ fuel
    → not (is_empty (chunked_externals fuel (suc size) q externals found))
      ≡ any (is_external q found) externals
unfolding chunked_externals
chunked_externals-any zero size q externals [] h = sym (never_external q externals)
chunked_externals-any zero size q externals (n ∷ ns) h = absurd (omega (arith, h))
chunked_externals-any (suc fuel) size q externals [] h = sym (never_external q externals)
chunked_externals-any (suc fuel) size q externals (n ∷ ns) h =
    let chunk = take (suc size) (n ∷ ns) in
    let rest = drop size ns in
    not_empty-append (select_externals q externals chunk)
      (chunked_externals fuel (suc size) q externals rest)
    ∙ rw (not_empty-names (is_external q chunk) externals) (
        rw
          (chunked_externals-any fuel size q externals rest (omega (arith, h, length-drop size ns)))
          (any-or (is_external q chunk) (is_external q rest) (is_external q (n ∷ ns)) externals
            (λ x.
              either_chunk (x.realm_id == q.realm_id) (x.resource_type_id == q.resource_type_id) _ _
                _ (mem_id-take-drop x.resource_id (suc size) (n ∷ ns)))))
