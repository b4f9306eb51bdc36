-- ===== src/Manifest/Placed.antt =====
-- common/application/manifest_service.py, `apply_manifest` and `export_manifest`: resources whose
-- external ids are all new.
use stateful_abac_policy_eng.Prelude.{
  Every, ℕ, suc, ◌+◌, String, Bool, false, ◌&&◌, Option, none, some, List, [], ◌∷◌, ◌++◌, ◌≡◌, refl,
  sym, ap, ◌∙◌, eq_text, map, any, length, arith, mem_text, mem_text-append, ok, or_parts,
}
use mathlib.Core.List.{append-nil}
use mathlib.Core.Path.{subst}
use stateful_abac_policy_eng.Policy.{ExternalId, ResourceType}
use stateful_abac_policy_eng.Manifest.{ResourceItem}
use stateful_abac_policy_eng.Manifest.Tables.{ResourceRow, Tables, Counts, done}
use stateful_abac_policy_eng.Manifest.Sections.{count_created}
use stateful_abac_policy_eng.Manifest.Bulk.{
  Statements, sent_values, values_of, TypeGroup, text_or_empty, or_empty, geometry_of, is_used,
  insert_batch, known_resource, in_type, has_external_id, sort_items, apply_group, write_sorted,
  batches, bulk_update, batch_size, resource_of,
}
use stateful_abac_policy_eng.Manifest.Lookup.{AreNew, rows_from, last_where-none}
use stateful_abac_policy_eng.Manifest.Written.{added, at_end, one_more, map-snoc, append_cons}
use stateful_abac_policy_eng.Manifest.Batches.{batches-concat, bulk_insert-all}

-- An item has an external id, which is not the empty text.
abbrev pub HasExternalId : ResourceItem → Type 0
HasExternalId item = (e : String) × (item.external_id ≡ some e) × (eq_text e "" ≡ false)

abbrev pub external_ids_of : List ResourceItem → List String
external_ids_of items = map (λ i. text_or_empty i.external_id) items

abbrev pub texts_of : List ExternalId → List String
texts_of xs = map (λ x. x.external_id) xs

pub any-narrower {ℓ} :
    {A : Type ℓ} (p q : A → Bool) (xs : List A)
    → ((x : A) → q x ≡ false → p x ≡ false)
    → any q xs ≡ false
    → any p xs ≡ false
any-narrower p q [] h off = refl
any-narrower p q (x ∷ xs) h off =
    let (here, there) = or_parts (q x) (any q xs) off in rw (h x here) (any-narrower p q xs h there)

any-texts :
    (e : String) (xs : List ExternalId)
    → any (λ x. eq_text x.external_id e) xs ≡ mem_text e (texts_of xs)
any-texts e [] = refl
any-texts e (x ∷ xs) = rw (any-texts e xs) refl

-- A text that no row has is not used in any type.
is_used-new :
    (type_id : ℕ) (e : String) (xs : List ExternalId)
    → mem_text e (texts_of xs) ≡ false
    → any (is_used type_id e) xs ≡ false
is_used-new type_id e xs h =
    any-narrower (is_used type_id e) (λ x. eq_text x.external_id e) xs
      (λ x off. ground (arith, off)) (any-texts e xs ∙ h)

known_resource-new :
    (type_id : Option ℕ) (e : String) (t : Tables)
    → mem_text e (texts_of t.external_ids) ≡ false
    → known_resource type_id e t ≡ none
known_resource-new type_id e t h = ap resource_of (
    last_where-none (λ x. in_type type_id x && eq_text x.external_id e) t.external_ids
      (any-narrower (λ x. in_type type_id x && eq_text x.external_id e)
        (λ x. eq_text x.external_id e) t.external_ids (λ x off. ground (arith, off))
        (any-texts e t.external_ids ∙ h)))

has_external_id-given :
    (item : ResourceItem) (e : String)
    → item.external_id ≡ some e
    → eq_text e "" ≡ false
    → has_external_id item ≡ some e
has_external_id-given item e at filled = rw at (rw filled refl)

-- Items with new external ids are all sorted as new.
sort_items-new :
    (items : List ResourceItem) (type_id : ℕ) (t : Tables) (c : Counts) (news : List ResourceItem)
    → Every HasExternalId items
    → Every (λ e. mem_text e (texts_of t.external_ids) ≡ false) (external_ids_of items)
    → sort_items items type_id t (record { counts = c; updates = []; news = news })
      ≡ record { counts = c; updates = []; news = news ++ items }
unfolding sort_items
sort_items-new [] type_id t c news given new =
    ap (λ rest. record { counts = c; updates = []; news = rest }) (sym (append-nil news))
sort_items-new (item ∷ items) type_id t c news ((e, at, filled), given) (here, new) =
    let missing : known_resource (some type_id) e t ≡ none =
      known_resource-new (some type_id) e t
        (sym (ap (λ o. mem_text (text_or_empty o) (texts_of t.external_ids)) at) ∙ here) in
    rw (has_external_id-given item e at filled, missing)
      (sort_items-new items type_id t c (news ++ item ∷ []) given new
        ∙ ap (λ rest. record { counts = c; updates = []; news = rest })
            (append_cons news item items))

AreNew-weaker :
    (ns before more : List String)
    → Every (λ n. mem_text n (before ++ more) ≡ false) ns
    → Every (λ n. mem_text n before ≡ false) ns
AreNew-weaker [] before more h = tt
AreNew-weaker (n ∷ ns) before more (free, h) = (
  (or_parts (mem_text n before) (mem_text n more) (sym (mem_text-append n before more) ∙ free)).0,
  AreNew-weaker ns before more h,
)

AreNew-old :
    (ns before : List String) → AreNew ns before → Every (λ n. mem_text n before ≡ false) ns
AreNew-old [] before h = tt
AreNew-old (n ∷ ns) before (free, h) =
    (free, AreNew-weaker ns before (n ∷ []) (AreNew-old ns (before ++ n ∷ []) h))

pub AreNew-append :
    (xs ys before : List String)
    → AreNew (xs ++ ys) before
    → AreNew xs before × AreNew ys (before ++ xs)
AreNew-append [] ys before h = (tt, rw (append-nil before) h)
AreNew-append (x ∷ xs) ys before (free, h) =
    let (left, right) = AreNew-append xs ys (before ++ x ∷ []) h in
    ((free, left), subst (AreNew ys) (append_cons before x xs) right)

-- The values of an item are written as they are.
abbrev pub IsSent : Statements → ResourceItem → Type 0
IsSent db item = sent_values db item ≡ ok (values_of db item)

-- ---- the rows that resources become
module _ (db : Statements) where
  abbrev pub resource_row : ℕ → (ResourceItem → ℕ) → ℕ → ResourceItem → ResourceRow
  resource_row realm_id type_of id item = record {
    id = id;
    realm_id = realm_id;
    resource_type_id = type_of item;
    attributes = or_empty item.attributes;
    geometry = geometry_of db item.geometry item.srid;
  }

  abbrev pub external_row : ℕ → (ResourceItem → ℕ) → ℕ → ResourceItem → ExternalId
  external_row realm_id type_of id item = record {
    resource_id = id;
    realm_id = realm_id;
    resource_type_id = type_of item;
    external_id = text_or_empty item.external_id;
  }

  abbrev pub with_resources : Tables → List ResourceRow → List ExternalId → ℕ → Tables
  with_resources t rows xs n = record t { resources = rows; external_ids = xs; next_resource = n }

  -- the state after a list of new items
  abbrev pub placed :
      Tables
      → (ResourceItem → ℕ)
      → List ResourceItem
      → List ResourceRow
      → List ExternalId
      → ℕ
      → Tables
  placed t type_of items rows xs n =
      with_resources t (rows ++ rows_from (resource_row t.id type_of) n items)
        (xs ++ rows_from (external_row t.id type_of) n items) (n + length items)

  insert_batch-new :
      (items : List ResourceItem) (type_id : ℕ) (c : Counts) (t : Tables) (rows : List ResourceRow)
      (xs : List ExternalId) (n : ℕ)
      → Every (IsSent db) items
      → AreNew (external_ids_of items) (texts_of xs)
      → insert_batch db items type_id c (with_resources t rows xs n)
        ≡ ok (added (length items) c, placed t (λ i. type_id) items rows xs n)
  unfolding insert_batch
  insert_batch-new [] type_id c t rows xs n sent h = ap ok (
      at_end (λ rs m. with_resources t rs xs m) c rows n
      ∙ ap (λ zs. (added 0 c, with_resources t (rows ++ []) zs (n + 0))) (sym (append-nil xs)))
  insert_batch-new (item ∷ items) type_id c t rows xs n (sent, all) (free, h) =
      let row = resource_row t.id (λ i. type_id) n item in
      let name = external_row t.id (λ i. type_id) n item in
      let others = rows_from (resource_row t.id (λ i. type_id)) (suc n) items in
      let names = rows_from (external_row t.id (λ i. type_id)) (suc n) items in
      let fresh : AreNew (external_ids_of items) (texts_of (xs ++ name ∷ [])) =
        rw (map-snoc (λ x. x.external_id) xs name) h in
      rw sent (
        rw (is_used-new type_id (text_or_empty item.external_id) xs free) (
          insert_batch-new items type_id (count_created c) t (rows ++ row ∷ []) (xs ++ name ∷ [])
            (suc n) all fresh
          ∙ ap ok (
              one_more (λ rs m. with_resources t rs ((xs ++ name ∷ []) ++ names) m) c rows row
                others n (length items)
              ∙ ap
                  (λ zs. (
                    added (suc (length items)) c,
                    with_resources t (rows ++ row ∷ others) zs (n + suc (length items)),
                  ))
                  (append_cons xs name names))))

  -- One type's new resources are all written.
  pub apply_group-new :
      (g : TypeGroup) (c : Counts) (t : Tables) (rt : ResourceType) (rows : List ResourceRow)
      (xs : List ExternalId) (n : ℕ)
      → Every HasExternalId g.items
      → Every (IsSent db) g.items
      → AreNew (external_ids_of g.items) (texts_of xs)
      → apply_group db g c (with_resources t rows xs n) (some rt)
        ≡ done (added (length g.items) c) (placed t (λ i. rt.id) g.items rows xs n)
  unfolding apply_group write_sorted batches bulk_update
  apply_group-new g c t rt rows xs n given sent h =
      let sorted =
        sort_items-new g.items rt.id (with_resources t rows xs n) c [] given
          (AreNew-old (external_ids_of g.items) (texts_of xs) h) in
      rw sorted (
        bulk_insert-all db (batches (length g.items) batch_size g.items) rt.id c
          (added (length g.items) c) (with_resources t rows xs n)
          (placed t (λ i. rt.id) g.items rows xs n)
          (ap (λ is. insert_batch db is rt.id c (with_resources t rows xs n))
              (batches-concat 99 g.items).0
            ∙ insert_batch-new g.items rt.id c t rows xs n sent h))
