-- ===== src/Manifest/Batches.antt =====
-- common/application/manifest_service.py, `apply_manifest`: the batches of the resources, and their
-- groups by type.
use stateful_abac_policy_eng.Prelude.{
  Every, ℕ, zero, suc, ◌≤◌, String, true, Option, none, some, List, [], ◌∷◌, ◌++◌, ◌≡◌, refl, sym,
  ap, ◌∙◌, eq_iff, length, arith, Bool-cases, inl, inr, ok, ◌>>=◌, ok_of_bind, ok_injective,
  Result-cases,
}
use stateful_abac_policy_eng.Policy.{ResourceType}
use stateful_abac_policy_eng.Manifest.{ResourceItem}
use stateful_abac_policy_eng.Manifest.Tables.{Tables, Counts, done, last_named}
use stateful_abac_policy_eng.Manifest.Sections.{count_created}
use stateful_abac_policy_eng.Manifest.Bulk.{
  Statements, TypeGroup, same_name, add_item, group_items, take, drop, batches, insert_batch,
  bulk_insert, sent_values, insert_values,
}

abbrev pub concat {ℓ} : {A : Type ℓ} → List (List A) → List A
concat [] = []
concat (xs ∷ rest) = xs ++ concat rest

module _ {ℓ} {A : Type ℓ} where
  take-drop : (n : ℕ) (xs : List A) → take n xs ++ drop n xs ≡ xs
  take-drop zero xs = refl
  take-drop (suc n) [] = refl
  take-drop (suc n) (x ∷ xs) = ap (λ rest. x ∷ rest) (take-drop n xs)

  length-take : (n : ℕ) (xs : List A) → length (take n xs) ≤ n
  length-take zero xs = omega arith
  length-take (suc n) [] = omega arith
  length-take (suc n) (x ∷ xs) = omega (arith, length-take n xs)

  length-drop : (n : ℕ) (xs : List A) → length (drop n xs) ≤ length xs
  length-drop zero xs = omega arith
  length-drop (suc n) [] = omega arith
  length-drop (suc n) (x ∷ xs) = omega (arith, length-drop n xs)

  batches_lem :
      (fuel size : ℕ) (xs : List A)
      → length xs ≤ fuel
      → (concat (batches fuel (suc size) xs) ≡ xs)
        × Every (λ b. length b ≤ suc size) (batches fuel (suc size) xs)
  unfolding batches
  batches_lem zero size [] enough = (refl, tt)
  batches_lem zero size (x ∷ xs) enough = ground (arith, enough)
  batches_lem (suc fuel) size [] enough = (refl, tt)
  batches_lem (suc fuel) size (x ∷ xs) enough =
      let (all, small) =
        batches_lem fuel size (drop size xs) (omega (arith, enough, length-drop size xs)) in
      (
        ap (λ rest. x ∷ take size xs ++ rest) all ∙ ap (λ rest. x ∷ rest) (take-drop size xs),
        (omega (arith, length-take size xs), small),
      )

  -- The batches of a list, with its length as fuel, are together the list, in its order, and no
  -- batch is longer than the size, which is not 0.
  pub batches-concat :
      (size : ℕ) (xs : List A)
      → (concat (batches (length xs) (suc size) xs) ≡ xs)
        × Every (λ b. length b ≤ suc size) (batches (length xs) (suc size) xs)
  batches-concat size xs = batches_lem (length xs) size xs (omega arith)

-- ---- batches that are inserted one after the other, and all at once
module _ (db : Statements) where
  insert_batch-append :
      (xs ys : List ResourceItem) (type_id : ℕ) (c : Counts) (t : Tables)
      → insert_batch db (xs ++ ys) type_id c t
        ≡ (insert_batch db xs type_id c t >>= λ out. insert_batch db ys type_id out.0 out.1)
  unfolding insert_batch
  insert_batch-append [] ys type_id c t = refl
  insert_batch-append (x ∷ xs) ys type_id c t = elim (Result-cases (sent_values db x)) [
    | inl fails ↦ rw fails refl
    | inr (v, sent) ↦ rw sent (elim (Result-cases (insert_values v type_id t)) [
      | inl used ↦ rw used refl
      | inr (u, inserted) ↦ rw inserted (insert_batch-append xs ys type_id (count_created c) u)
    ])
  ]

  pub bulk_insert-all :
      (bs : List (List ResourceItem)) (type_id : ℕ) (c d : Counts) (t u : Tables)
      → insert_batch db (concat bs) type_id c t ≡ ok (d, u)
      → bulk_insert db bs type_id c t ≡ done d u
  unfolding bulk_insert insert_batch
  bulk_insert-all [] type_id c d t u h = ap (λ out. done out.0 out.1) (ok_injective (c, t) (d, u) h)
  bulk_insert-all (b ∷ bs) type_id c d t u h =
      let (out, first, rest) =
        ok_of_bind (insert_batch db b type_id c t)
          (λ o. insert_batch db (concat bs) type_id o.0 o.1) (d, u)
          (sym (insert_batch-append b (concat bs) type_id c t) ∙ h) in
      rw first (bulk_insert-all bs type_id out.0 d out.1 u rest)

-- ---- groups
abbrev pub ungroup : List TypeGroup → List ResourceItem
ungroup [] = []
ungroup (g ∷ gs) = g.items ++ ungroup gs

same_name-equal : (a b : Option String) → same_name a b ≡ true → a ≡ b
same_name-equal none none h = refl
same_name-equal none (some b) h = ground (arith, h)
same_name-equal (some a) none h = ground (arith, h)
same_name-equal (some a) (some b) h = ap some ((eq_iff a b).0 h)

module _ (types : List ResourceType) where
  abbrev pub HasType : Option String → Type 0
  HasType name = (rt : ResourceType) × (last_named (λ t. t.name) name types ≡ some rt)

  -- A group has a known type, which is the type of each of its items.
  abbrev pub IsGroup : TypeGroup → Type 0
  IsGroup g = HasType g.type_name × Every (λ i. i.type_name ≡ g.type_name) g.items

  Every-snoc {ℓ κ} :
      {A : Type ℓ} (P : A → Type κ) (xs : List A) (x : A)
      → Every P xs
      → P x
      → Every P (xs ++ x ∷ [])
  Every-snoc P [] x all p = (p, tt)
  Every-snoc P (y ∷ xs) x (q, all) p = (q, Every-snoc P xs x all p)

  add_item-IsGroup :
      (item : ResourceItem) (gs : List TypeGroup)
      → HasType item.type_name
      → Every IsGroup gs
      → Every IsGroup (add_item item gs)
  add_item-IsGroup item [] known all = ((known, (refl, tt)), tt)
  add_item-IsGroup item (g ∷ gs) known ((found, same), all) =
      elim (Bool-cases (same_name g.type_name item.type_name)) [
        | inl here ↦ rw here (
          (
            found,
            Every-snoc (λ i. i.type_name ≡ g.type_name) g.items item same
                (sym (same_name-equal g.type_name item.type_name here)),
          ),
          all,
        )
        | inr other ↦ rw other ((found, same), add_item-IsGroup item gs known all)
      ]

  pub group_items-IsGroup :
      (items : List ResourceItem) (gs : List TypeGroup)
      → Every (λ i. HasType i.type_name) items
      → Every IsGroup gs
      → Every IsGroup (group_items items gs)
  group_items-IsGroup [] gs known all = all
  group_items-IsGroup (item ∷ items) gs (here, known) all =
      group_items-IsGroup items (add_item item gs) known (add_item-IsGroup item gs here all)
