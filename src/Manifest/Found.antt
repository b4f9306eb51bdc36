-- ===== src/Manifest/Found.antt =====
-- common/application/manifest_service.py, `export_manifest`: the resources that an import wrote, and
-- their external ids.
use stateful_abac_policy_eng.Prelude.{
  Every, ok, ℕ, suc, ◌<◌, ◌≤◌, String, Bool, true, false, not, ◌&&◌, Option, none, some, List, [],
  ◌∷◌, ◌++◌, ◌≡◌, refl, sym, ap, ap₂, ◌∙◌, ◌==◌, eq_text, eq_iff, map, any, arith, mem_text,
  if◌then◌else◌, Option-cases, inl, inr, is_none,
}
use mathlib.Core.Path.{subst}
use stateful_abac_policy_eng.Json.{Json}
use stateful_abac_policy_eng.Policy.{ExternalId, ResourceType}
use stateful_abac_policy_eng.Manifest.{ResourceItem}
use stateful_abac_policy_eng.Manifest.Tables.{Tables, last_or, last_where, last_named}
use stateful_abac_policy_eng.Manifest.Bulk.{
  Statements, sent_values, sent_geometry, text_or_empty, or_empty, geometry_of, known_resource,
  resource_of,
}
use stateful_abac_policy_eng.Manifest.Export.{
  first_external, external_of, if_row, if_id, if_truthy, export_geometry, export_resource,
  type_name,
}
use stateful_abac_policy_eng.Manifest.Lookup.{
  IsUnique, rows_from, rows_from-IsUnique, rows_from-apart, map-rows_from, name_again, known_name,
  found_not, last_where-again,
}
use stateful_abac_policy_eng.Manifest.Members.{append_assoc}
use stateful_abac_policy_eng.Manifest.Batches.{HasType}
use stateful_abac_policy_eng.Manifest.Placed.{
  IsSent, HasExternalId, external_ids_of, resource_row, external_row,
}
use stateful_abac_policy_eng.Manifest.Grouped.{type_of, id_or_zero}
use stateful_abac_policy_eng.Manifest.Externals.{
  first_external-here, first_external-apart, first_external-found,
}

-- What an import and an export keep of a resource: a known type, an external id, no srid, attributes and a
-- geometry that are read as they were written, and values that the bulk statements write as they are.
pub record IsResource (db : Statements) (shape : String → Option Json) (types : List String)
    (item : ResourceItem) : Type 0 where
  pub type : String
  pub type_given : item.type_name ≡ some type
  pub type_known : mem_text type types ≡ true
  pub external : HasExternalId item
  pub no_srid : item.srid ≡ none
  pub attributes_kept : if_truthy (or_empty item.attributes) ≡ item.attributes
  pub geometry_kept : export_geometry shape (geometry_of db item.geometry item.srid) ≡ item.geometry
  pub attributes_sent : db.json (or_empty item.attributes) ≡ ok (or_empty item.attributes)
  pub geometry_sent :
      sent_geometry db (geometry_of db item.geometry item.srid)
      ≡ ok (geometry_of db item.geometry item.srid)
  pub external_id_sent :
      db.text (text_or_empty item.external_id) ≡ ok (text_or_empty item.external_id)

module _ (db : Statements) (shape : String → Option Json) where
  pub IsResource-HasType :
      (types : List ResourceType) (items : List ResourceItem)
      → Every (IsResource db shape (map (λ rt. rt.name) types)) items
      → Every (λ i. HasType types i.type_name) items
  IsResource-HasType types [] all = tt
  IsResource-HasType types (item ∷ items) (r, all) =
      let (rt, found) = known_name (λ t. t.name) r.type types r.type_known in
      (
        (rt, ap (λ o. last_named (λ t. t.name) o types) r.type_given ∙ found),
        IsResource-HasType types items all,
      )

  pub IsResource-HasExternalId :
      (types : List String) (items : List ResourceItem)
      → Every (IsResource db shape types) items
      → Every HasExternalId items
  IsResource-HasExternalId types [] all = tt
  IsResource-HasExternalId types (item ∷ items) (r, all) =
      (r.external, IsResource-HasExternalId types items all)

  pub IsResource-IsSent :
      (types : List String) (items : List ResourceItem)
      → Every (IsResource db shape types) items
      → Every (IsSent db) items
  unfolding sent_values
  IsResource-IsSent types [] all = tt
  IsResource-IsSent types (item ∷ items) (r, all) = (
    rw r.attributes_sent (rw r.geometry_sent (rw r.external_id_sent refl)),
    IsResource-IsSent types items all,
  )

  module _ (t : Tables) (unique : IsUnique (λ rt. rt.id) t.types) where
    type_name-type_of :
        (item : ResourceItem)
        → IsResource db shape (map (λ rt. rt.name) t.types) item
        → some (type_name t.types (type_of t.types item)) ≡ item.type_name
    type_name-type_of item r =
        let (rt, found, same) =
          name_again (λ x. x.id) (λ x. x.name) r.type t.types unique r.type_known in
        let id : type_of t.types item ≡ rt.id =
          ap (λ o. id_or_zero (last_named (λ x. x.name) o t.types)) r.type_given
          ∙ ap id_or_zero found in
        ap (λ k. some (type_name t.types k)) id ∙ ap some same ∙ sym r.type_given

    text_given :
        (item : ResourceItem)
        → HasExternalId item
        → some (text_or_empty item.external_id) ≡ item.external_id
    text_given item (e, at, filled) = ap (λ o. some (text_or_empty o)) at ∙ sym at

    -- Every resource is written as it was read.
    pub export-resources :
        (items : List ResourceItem) (before : List ExternalId) (n : ℕ)
        → t.external_ids ≡ before ++ rows_from (external_row db t.id (type_of t.types)) n items
        → ((m : ℕ) → n ≤ m → first_external before m ≡ none)
        → Every (IsResource db shape (map (λ rt. rt.name) t.types)) items
        → map (export_resource shape t) (rows_from (resource_row db t.id (type_of t.types)) n items)
          ≡ items
    export-resources [] before n at free all = refl
    export-resources (item ∷ items) before n at free (r, all) =
        let row = external_row db t.id (type_of t.types) n item in
        let rest = rows_from (external_row db t.id (type_of t.types)) (suc n) items in
        let name : first_external t.external_ids n ≡ item.external_id =
          ap (λ xs. first_external xs n) at
          ∙ first_external-here before rest row n refl (free n (omega arith))
          ∙ text_given item r.external in
        ap₂ ◌∷◌
          (ap₂
              (λ a b. record item {
                type_name = a;
                external_id = b;
                attributes = if_truthy (or_empty item.attributes);
                geometry = export_geometry shape (geometry_of db item.geometry item.srid);
                srid = none;
              })
              (type_name-type_of item r) name
            ∙ ap₂ (λ a g. record item { attributes = a; geometry = g; srid = none })
                r.attributes_kept r.geometry_kept
            ∙ ap (λ o. record item { srid = o }) (sym r.no_srid))
          (export-resources items (before ++ row ∷ []) (suc n)
            (at ∙ sym (append_assoc before (row ∷ []) rest))
            (λ m above.
              first_external-apart before row m (ground (arith, above))
                (free m (omega (arith, above))))
            all)

  is_none-last_or {ℓ} :
      {A : Type ℓ} (o : Option A) (x : A) (b : Bool)
      → is_none (last_or o x b) ≡ (is_none o && not b)
  is_none-last_or none x true = refl
  is_none-last_or none x false = refl
  is_none-last_or (some y) x b = refl

  -- A resource is there as its external id is.
  rows-external_ids :
      (t : Tables) (f : ResourceItem → ℕ) (k n : ℕ) (items : List ResourceItem)
      → is_none (last_where (λ r. r.id == k) (rows_from (resource_row db t.id f) n items))
        ≡ is_none
            (last_where (λ x. x.resource_id == k) (rows_from (external_row db t.id f) n items))
  rows-external_ids t f k n [] = refl
  rows-external_ids t f k n (item ∷ items) =
      let rows = last_where (λ r. r.id == k) (rows_from (resource_row db t.id f) (suc n) items) in
      let names =
        last_where (λ x. x.resource_id == k) (rows_from (external_row db t.id f) (suc n) items) in
      is_none-last_or rows (resource_row db t.id f n item) (n == k)
      ∙ ap (λ b. b && not (n == k)) (rows-external_ids t f k (suc n) items)
      ∙ sym (is_none-last_or names (external_row db t.id f n item) (n == k))

  module _ (t : Tables) (f : ResourceItem → ℕ) (n : ℕ) (items : List ResourceItem)
      (rows : t.resources ≡ rows_from (resource_row db t.id f) n items)
      (names : t.external_ids ≡ rows_from (external_row db t.id f) n items) (started : 0 < n) where
    external_of-found :
        (k : ℕ) (x : ExternalId)
        → (k == 0) ≡ false
        → last_where (λ y. y.resource_id == k) t.external_ids ≡ some x
        → external_of t (if_id (some k)) ≡ some x.external_id
    external_of-found k x off found =
        let written = rows_from (external_row db t.id f) n items in
        let unique : IsUnique (λ y. y.resource_id) t.external_ids =
          subst (IsUnique (λ y. y.resource_id)) (sym names) (
            rows_from-IsUnique (λ y. y.resource_id) (external_row db t.id f) (λ m i. refl) n
              items) in
        let there : is_none (last_where (λ r. r.id == k) t.resources) ≡ false =
          ap (λ rs. is_none (last_where (λ r. r.id == k) rs)) rows
          ∙ rows-external_ids t f k n items
          ∙ ap (λ xs. is_none (last_where (λ y. y.resource_id == k) xs)) (sym names)
          ∙ ap is_none found in
        ap (λ b. external_of t (if b then none else some k)) off
        ∙ elim (Option-cases (last_where (λ r. r.id == k) t.resources)) [
          | inl missing ↦ ground (arith, missing, there)
          | inr (r, row) ↦
              ap (λ o. if_row o (first_external t.external_ids k)) row
              ∙ first_external-found t.external_ids k x unique found
        ]

    -- The id that an external id stands for leads back to it.
    pub external_id_again :
        (e : String)
        → mem_text e (external_ids_of items) ≡ true
        → (k : ℕ) × (known_resource none e t ≡ some k) × (external_of t (if_id (some k)) ≡ some e)
    external_id_again e known =
        let unique : IsUnique (λ y. y.resource_id) t.external_ids =
          subst (IsUnique (λ y. y.resource_id)) (sym names) (
            rows_from-IsUnique (λ y. y.resource_id) (external_row db t.id f) (λ m i. refl) n
              items) in
        let texts : map (λ y. y.external_id) t.external_ids ≡ external_ids_of items =
          ap (map (λ y. y.external_id)) names
          ∙ map-rows_from (λ y. y.external_id) (λ i. text_or_empty i.external_id)
              (external_row db t.id f) (λ m i. refl) n items in
        let (x, found) =
          known_name (λ y. y.external_id) e t.external_ids (ap (mem_text e) texts ∙ known) in
        let (same, again) =
          last_where-again (λ y. y.resource_id) (λ y. eq_text y.external_id e) t.external_ids x
            unique found in
        let none_first : any (λ y. y.resource_id == 0) t.external_ids ≡ false =
          ap (any (λ y. y.resource_id == 0)) names
          ∙ rows_from-apart (λ y. y.resource_id) (external_row db t.id f) (λ m i. refl) 0 n items
              started in
        (
          x.resource_id,
          ap resource_of found,
          external_of-found x.resource_id x
                (found_not (λ y. y.resource_id == 0) (λ y. eq_text y.external_id e) t.external_ids x
                  none_first found)
                again
              ∙ ap some ((eq_iff x.external_id e).0 same),
        )
