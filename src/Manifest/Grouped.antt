-- ===== src/Manifest/Grouped.antt =====
-- common/application/manifest_service.py, `apply_manifest` and `export_manifest`: the resources of all
-- types, and their external ids.
use stateful_abac_policy_eng.Prelude.{
  Every, Every-append, ℕ, suc, ◌+◌, String, Option, none, some, List, [], ◌∷◌, ◌++◌, ◌≡◌, refl, sym,
  ap, ap₂, ◌∙◌, map, length, length-append, arith,
}
use mathlib.Core.List.{append-nil}
use mathlib.Core.Path.{subst}
use stateful_abac_policy_eng.Policy.{ExternalId, ResourceType}
use stateful_abac_policy_eng.Manifest.{ResourceItem}
use stateful_abac_policy_eng.Manifest.Tables.{
  ResourceRow, Tables, Counts, no_counts, last_named, done,
}
use stateful_abac_policy_eng.Manifest.Bulk.{
  Statements, TypeGroup, text_or_empty, apply_groups, apply_resources, group_items,
}
use stateful_abac_policy_eng.Manifest.Lookup.{AreNew, rows_from, map-rows_from}
use stateful_abac_policy_eng.Manifest.Written.{added}
use stateful_abac_policy_eng.Manifest.Members.{append_assoc}
use stateful_abac_policy_eng.Manifest.Batches.{ungroup, IsGroup, HasType, group_items-IsGroup}
use stateful_abac_policy_eng.Manifest.Placed.{
  IsSent, HasExternalId, external_ids_of, texts_of, resource_row, external_row, with_resources,
  placed, apply_group-new, AreNew-append,
}

abbrev pub id_or_zero : Option ResourceType → ℕ
id_or_zero none = 0
id_or_zero (some rt) = rt.id

-- the id of an item's type
abbrev pub type_of : List ResourceType → ResourceItem → ℕ
type_of types item = id_or_zero (last_named (λ rt. rt.name) item.type_name types)

module _ {ℓ κ} {A : Type ℓ} {B : Type κ} where
  map-append : (f : A → B) (xs ys : List A) → map f (xs ++ ys) ≡ map f xs ++ map f ys
  map-append f [] ys = refl
  map-append f (x ∷ xs) ys = ap (λ rest. f x ∷ rest) (map-append f xs ys)

  rows_from-append :
      (row : ℕ → A → B) (n : ℕ) (xs ys : List A)
      → rows_from row n (xs ++ ys) ≡ rows_from row n xs ++ rows_from row (n + length xs) ys
  rows_from-append row n [] ys = ap (λ m. rows_from row m ys) (omega arith)
  rows_from-append row n (x ∷ xs) ys =
      ap (λ rest. row n x ∷ rest)
        (rows_from-append row (suc n) xs ys
          ∙ ap (λ m. rows_from row (suc n) xs ++ rows_from row m ys) (omega arith))

added-added : (k m : ℕ) (c : Counts) → added m (added k c) ≡ added (k + m) c
added-added k m c = ap (λ n. record c { created = n }) (omega arith)

module _ (db : Statements) (t : Tables) where
  placed-append :
      (f : ResourceItem → ℕ) (is js : List ResourceItem) (rows : List ResourceRow)
      (xs : List ExternalId) (n : ℕ)
      → placed db t f js
          (rows ++ rows_from (resource_row db t.id f) n is)
          (xs ++ rows_from (external_row db t.id f) n is)
          (n + length is)
        ≡ placed db t f (is ++ js) rows xs n
  placed-append f is js rows xs n =
      let rs = resource_row db t.id f in
      let es = external_row db t.id f in
      ap₂ (λ ls ms. with_resources db t ls ms ((n + length is) + length js))
        (append_assoc rows (rows_from rs n is) (rows_from rs (n + length is) js)
          ∙ ap (λ ls. rows ++ ls) (sym (rows_from-append rs n is js)))
        (append_assoc xs (rows_from es n is) (rows_from es (n + length is) js)
          ∙ ap (λ ls. xs ++ ls) (sym (rows_from-append es n is js)))
      ∙ ap
          (λ m.
            with_resources db t (rows ++ rows_from rs n (is ++ js))
              (xs ++ rows_from es n (is ++ js)) m)
          (omega (arith, length-append is js))

  -- rows of one type are rows of the type of each item
  module _ (types : List ResourceType) (name : Option String) (rt : ResourceType) where
    rows-one_type {ℓ} :
        {A : Type ℓ} (row : ℕ → ℕ → ResourceItem → A) (n : ℕ) (items : List ResourceItem)
        → last_named (λ r. r.name) name types ≡ some rt
        → Every (λ i. i.type_name ≡ name) items
        → rows_from (λ m i. row rt.id m i) n items
          ≡ rows_from (λ m i. row (type_of types i) m i) n items
    rows-one_type row n [] found same = refl
    rows-one_type row n (item ∷ items) found (here, same) =
        ap₂ ◌∷◌
          (ap (λ k. row k n item)
            (sym
              (ap (λ o. id_or_zero (last_named (λ r. r.name) o types)) here ∙ ap id_or_zero found)))
          (rows-one_type row (suc n) items found same)

  placed-one_type :
      (types : List ResourceType) (name : Option String) (rt : ResourceType)
      (rows : List ResourceRow) (xs : List ExternalId) (n : ℕ) (items : List ResourceItem)
      → last_named (λ r. r.name) name types ≡ some rt
      → Every (λ i. i.type_name ≡ name) items
      → placed db t (λ i. rt.id) items rows xs n ≡ placed db t (type_of types) items rows xs n
  placed-one_type types name rt rows xs n items found same =
      ap₂ (λ rs es. with_resources db t (rows ++ rs) (xs ++ es) (n + length items))
        (rows-one_type types name rt (λ k. resource_row db t.id (λ i. k)) n items found same)
        (rows-one_type types name rt (λ k. external_row db t.id (λ i. k)) n items found same)

  placed-nil :
      (f : ResourceItem → ℕ) (rows : List ResourceRow) (xs : List ExternalId) (n : ℕ)
      → with_resources db t rows xs n ≡ placed db t f [] rows xs n
  placed-nil f rows xs n =
      ap₂ (λ rs m. with_resources db t rs xs m) (sym (append-nil rows)) (omega arith)
      ∙ ap (λ es. with_resources db t (rows ++ []) es (n + 0)) (sym (append-nil xs))

  texts_after :
      (f : ResourceItem → ℕ) (xs : List ExternalId) (n : ℕ) (items : List ResourceItem)
      → texts_of xs ++ external_ids_of items
        ≡ texts_of (xs ++ rows_from (external_row db t.id f) n items)
  texts_after f xs n items =
      ap (λ ns. texts_of xs ++ ns)
        (sym (
          map-rows_from (λ x. x.external_id) (λ i. text_or_empty i.external_id)
            (external_row db t.id f) (λ m i. refl) n items))
      ∙ sym (map-append (λ x. x.external_id) xs (rows_from (external_row db t.id f) n items))

  apply_groups-new :
      (gs : List TypeGroup) (types : List ResourceType) (c : Counts) (rows : List ResourceRow)
      (xs : List ExternalId) (n : ℕ)
      → Every (IsGroup types) gs
      → Every HasExternalId (ungroup gs)
      → Every (IsSent db) (ungroup gs)
      → AreNew (external_ids_of (ungroup gs)) (texts_of xs)
      → apply_groups db gs types c (with_resources db t rows xs n)
        ≡ done (added (length (ungroup gs)) c) (placed db t (type_of types) (ungroup gs) rows xs n)
  unfolding apply_groups
  apply_groups-new [] types c rows xs n known given sent h =
      ap₂ done (ap (λ m. record c { created = m }) (omega arith))
        (placed-nil (type_of types) rows xs n)
  apply_groups-new (g ∷ gs) types c rows xs n (((rt, found), same), known) given sent h =
      let (own, others) = Every-append HasExternalId g.items (ungroup gs) given in
      let (own_sent, others_sent) = Every-append (IsSent db) g.items (ungroup gs) sent in
      let (first, later) =
        AreNew-append (external_ids_of g.items) (external_ids_of (ungroup gs)) (texts_of xs) (
          subst (λ ns. AreNew ns (texts_of xs))
            (map-append (λ i. text_or_empty i.external_id) g.items (ungroup gs)) h) in
      let step =
        apply_group-new db g c t rt rows xs n own own_sent first
        ∙ ap (done (added (length g.items) c))
            (placed-one_type types g.type_name rt rows xs n g.items found same) in
      rw (found, step)
        (apply_groups-new gs types (added (length g.items) c)
            (rows ++ rows_from (resource_row db t.id (type_of types)) n g.items)
            (xs ++ rows_from (external_row db t.id (type_of types)) n g.items) (n + length g.items)
            known others others_sent
            (subst (AreNew (external_ids_of (ungroup gs)))
              (texts_after (type_of types) xs n g.items) later)
          ∙ ap₂ done
              (added-added (length g.items) (length (ungroup gs)) c
                ∙ ap (λ m. added m c) (sym (length-append g.items (ungroup gs))))
              (placed-append (type_of types) g.items (ungroup gs) rows xs n))

  -- All resources of a manifest that are new, known and in the order of their types.
  pub apply_resources-new :
      (items : List ResourceItem) (n : ℕ)
      → ungroup (group_items items []) ≡ items
      → Every (λ i. HasType t.types i.type_name) items
      → Every HasExternalId items
      → Every (IsSent db) items
      → AreNew (external_ids_of items) []
      → apply_resources db items (with_resources db t [] [] n)
        ≡ done (added (length items) no_counts) (placed db t (type_of t.types) items [] [] n)
  unfolding apply_resources
  apply_resources-new items n grouped known given sent h =
      apply_groups-new (group_items items []) t.types no_counts [] [] n
        (group_items-IsGroup t.types items [] known tt)
        (subst (Every HasExternalId) (sym grouped) given)
        (subst (Every (IsSent db)) (sym grouped) sent)
        (subst (λ is. AreNew (external_ids_of is) []) (sym grouped) h)
      ∙ ap (λ is. done (added (length is) no_counts) (placed db t (type_of t.types) is [] [] n))
          grouped
