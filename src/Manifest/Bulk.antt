-- ===== src/Manifest/Bulk.antt =====
-- common/application/manifest_service.py, `apply_manifest`: resources, by type and in batches.
use stateful_abac_policy_eng.Prelude.{
  ℕ, zero, suc, ◌+◌, ◌%◌, String, Bool, true, false, ◌&&◌, ◌||◌, Option, none, some, List, [], ◌∷◌,
  ◌++◌, ◌==◌, eq_text, any, length, if◌then◌else◌, Result, ok, err, ◌>>=◌,
}
use stateful_abac_policy_eng.Json.{Json, null, obj, end}
use stateful_abac_policy_eng.Policy.{ExternalId, ResourceType}
use stateful_abac_policy_eng.Manifest.{ResourceItem}
use stateful_abac_policy_eng.Manifest.Tables.{
  ResourceRow, Tables, last_where, last_named, is_truthy, Run, done, raised, then_run, commit,
  Counts, no_counts,
}
use stateful_abac_policy_eng.Manifest.Sections.{count_created, count_updated, count_skipped}

-- ---- `resources_by_type`, in the order in which the types are met
pub record TypeGroup : Type 0 where
  pub type_name : Option String
  pub items : List ResourceItem

abbrev pub same_name : Option String → Option String → Bool
same_name none none = true
same_name (some a) (some b) = eq_text a b
same_name _ _ = false

abbrev pub add_item : ResourceItem → List TypeGroup → List TypeGroup
add_item item [] = record { type_name = item.type_name; items = item ∷ [] } ∷ []
add_item item (g ∷ gs) =
    let rest = add_item item gs in
    if same_name g.type_name item.type_name
    then record g { items = g.items ++ item ∷ [] } ∷ gs
    else g ∷ rest

abbrev pub group_items : List ResourceItem → List TypeGroup → List TypeGroup
group_items [] gs = gs
group_items (item ∷ items) gs = group_items items (add_item item gs)

-- ---- `range(0, len(xs), BATCH_SIZE)` and the slices; every batch has an item, so the length is fuel
-- enough
module _ {ℓ} {A : Type ℓ} where
  abbrev pub take : ℕ → List A → List A
  take zero xs = []
  take (suc n) [] = []
  take (suc n) (x ∷ xs) = x ∷ take n xs

  abbrev pub drop : ℕ → List A → List A
  drop zero xs = xs
  drop (suc n) [] = []
  drop (suc n) (x ∷ xs) = drop n xs

  unfoldable pub batches : ℕ → ℕ → List A → List (List A)
  batches zero size xs = []
  batches (suc fuel) size [] = []
  batches (suc fuel) size (x ∷ xs) = take size (x ∷ xs) ∷ batches fuel size (drop size (x ∷ xs))

abbrev pub batch_size : ℕ
batch_size = 100

-- ---- `_build_external_id_map` and its look-up; an id of 0 does not limit the type
abbrev pub in_type : Option ℕ → ExternalId → Bool
in_type none x = true
in_type (some id) x = id == 0 || x.resource_type_id == id

abbrev pub resource_of : Option ExternalId → Option ℕ
resource_of none = none
resource_of (some x) = some x.resource_id

abbrev pub known_resource : Option ℕ → String → Tables → Option ℕ
known_resource type_id e t =
    resource_of (last_where (λ x. in_type type_id x && eq_text x.external_id e) t.external_ids)

-- ---- sorting the items of one type
pub record Update : Type 0 where
  pub id : ℕ
  pub attributes : Json

pub record Sorted : Type 0 where
  pub counts : Counts
  pub updates : List Update
  pub news : List ResourceItem

-- the id of an item that is not missing and not empty
abbrev pub has_external_id : ResourceItem → Option String
has_external_id item = elim item.external_id [
  | none ↦ none
  | some e ↦ if eq_text e "" then none else some e
]

abbrev pub add_update : ℕ → Option Json → List Update → List Update
add_update id none us = us
add_update id (some attributes) us = us ++ record { id = id; attributes = attributes } ∷ []

abbrev pub sort_known : ResourceItem → Sorted → Option ℕ → Sorted
sort_known item s none = record s { news = s.news ++ item ∷ [] }
sort_known item s (some id) = record s {
  counts = count_updated s.counts;
  updates = add_update id item.attributes s.updates;
}

abbrev pub sort_item : ResourceItem → ℕ → Tables → Sorted → Option String → Sorted
sort_item item type_id t s none = record s { counts = count_skipped s.counts }
sort_item item type_id t s (some e) = sort_known item s (known_resource (some type_id) e t)

unfoldable pub sort_items : List ResourceItem → ℕ → Tables → Sorted → Sorted
sort_items [] type_id t s = s
sort_items (item ∷ items) type_id t s =
    sort_items items type_id t (sort_item item type_id t s (has_external_id item))

-- ---- the bulk update: CASE takes the first WHEN of an id
abbrev pub first_update : ℕ → List Update → Option Json
first_update id [] = none
first_update id (u ∷ us) = if u.id == id then some u.attributes else first_update id us

-- `json.dumps(attrs) if attrs else 'null'`
abbrev pub or_null_text : Json → Json
or_null_text j = if is_truthy j then j else null

abbrev pub updated_row : Option Json → ResourceRow → ResourceRow
updated_row none r = r
updated_row (some attributes) r = record r { attributes = attributes }

abbrev pub update_rows : List Update → List ResourceRow → List ResourceRow
update_rows us [] = []
update_rows us (r ∷ rs) = updated_row (first_update r.id us) r ∷ update_rows us rs

-- ---- the third-party code behind the bulk statements, which have the values in their text. `json` is the
-- attributes that come of a value that `json.dumps` prints into such a text, and `text` what comes of an
-- external id or a geometry there; err where `text()`, which reads a colon before a word as a bind
-- parameter without a value, or the cast to jsonb raises. `parse` is `GeometryService.parse_to_ewkt`,
-- with none where it raises.
pub record Statements : Type 0 where
  pub json : Json → Result Json
  pub text : String → Result String
  pub parse : Json → Option ℕ → Option String

abbrev pub sent_updates : Statements → List Update → Result (List Update)
sent_updates sql [] = ok []
sent_updates sql (u ∷ us) = do
  attributes ← sql.json (or_null_text u.attributes)
  rest ← sent_updates sql us
  ok (record { id = u.id; attributes = attributes } ∷ rest)

abbrev pub run_update : Result (List Update) → Tables → Result Tables
run_update err t = err
run_update (ok us) t = ok (record t { resources = update_rows us t.resources })

-- what is committed after the statement that begins at `i`: every 50000 items, all so far
abbrev pub committed_at : ℕ → Tables → Tables → Tables
committed_at i kept t = if (i + batch_size) % 50000 == 0 then t else kept

-- what follows a statement; `kept` is what its raise leaves
abbrev pub or_raised : Result Tables → Tables → (Tables → Run (Unit {0})) → Run (Unit {0})
or_raised err kept next = raised kept
or_raised (ok u) kept next = next u

-- the loop over the batches
unfoldable pub bulk_update : Statements → List (List Update) → ℕ → Tables → Tables → Run (Unit {0})
bulk_update sql [] i kept t = done tt t
bulk_update sql (us ∷ rest) i kept t =
    or_raised (run_update (sent_updates sql us) t) kept
      λ u. bulk_update sql rest (i + batch_size) (committed_at i kept u) u

-- ---- the bulk insert
-- `item.get("attributes") or {}`
abbrev pub or_empty : Option Json → Json
or_empty none = obj end
or_empty (some j) = if is_truthy j then j else obj end

-- the primary key of external_ids
abbrev pub is_used : ℕ → String → ExternalId → Bool
is_used type_id e x = x.resource_type_id == type_id && eq_text x.external_id e

-- the text of an item that was sorted by it
abbrev pub text_or_empty : Option String → String
text_or_empty none = ""
text_or_empty (some s) = s

-- the values of an item
pub record Values : Type 0 where
  pub attributes : Json
  pub geometry : Option String
  pub external_id : String

module _ (sql : Statements) where
  abbrev pub geometry_of : Option Json → Option ℕ → Option String
  geometry_of none srid = none
  geometry_of (some g) srid = if is_truthy g then sql.parse g srid else none

  abbrev pub values_of : ResourceItem → Values
  values_of item = record {
    attributes = or_empty item.attributes;
    geometry = geometry_of item.geometry item.srid;
    external_id = text_or_empty item.external_id;
  }

  abbrev pub sent_geometry : Option String → Result (Option String)
  sent_geometry none = ok none
  sent_geometry (some g) = do g ← sql.text g; ok (some g)

  -- the values as the statements write them
  unfoldable pub sent_values : ResourceItem → Result Values
  sent_values item = do
    attributes ← sql.json (or_empty item.attributes)
    geometry ← sent_geometry (geometry_of item.geometry item.srid)
    external_id ← sql.text (text_or_empty item.external_id)
    ok (record { attributes = attributes; geometry = geometry; external_id = external_id })

abbrev pub new_resource : Values → ℕ → Tables → ResourceRow
new_resource v type_id t = record {
  id = t.next_resource;
  realm_id = t.id;
  resource_type_id = type_id;
  attributes = v.attributes;
  geometry = v.geometry;
}

abbrev pub new_external_id : Values → ℕ → Tables → ExternalId
new_external_id v type_id t = record {
  resource_id = t.next_resource;
  realm_id = t.id;
  resource_type_id = type_id;
  external_id = v.external_id;
}

abbrev pub add_resource : Values → ℕ → Tables → Tables
add_resource v type_id t = record t {
  resources = t.resources ++ new_resource v type_id t ∷ [];
  external_ids = t.external_ids ++ new_external_id v type_id t ∷ [];
  next_resource = suc t.next_resource;
}

abbrev pub insert_values : Values → ℕ → Tables → Result Tables
insert_values v type_id t =
    if any (is_used type_id v.external_id) t.external_ids
    then err
    else ok (add_resource v type_id t)

abbrev pub add_skipped : ℕ → Counts → Counts
add_skipped n c = record c { skipped = c.skipped + n }

module _ (sql : Statements) where
  -- one batch: the resources, and then their external ids, of which a used one raises
  unfoldable pub insert_batch : List ResourceItem → ℕ → Counts → Tables → Result (Counts × Tables)
  insert_batch [] type_id c t = ok (c, t)
  insert_batch (item ∷ items) type_id c t = do
    v ← sent_values sql item
    u ← insert_values v type_id t
    insert_batch items type_id (count_created c) u

  unfoldable pub bulk_insert : List (List ResourceItem) → ℕ → Counts → Tables → Run Counts
  unfolding insert_batch
  bulk_insert [] type_id c t = done c t
  bulk_insert (items ∷ rest) type_id c t =
      then_run (commit t (insert_batch items type_id c t)) λ d u. bulk_insert rest type_id d u

  unfoldable pub write_sorted : ℕ → Sorted → Tables → Run Counts
  unfolding batches bulk_update bulk_insert
  write_sorted type_id s t =
      then_run (bulk_update sql (batches (length s.updates) batch_size s.updates) 0 t t)
        λ _ u. bulk_insert (batches (length s.news) batch_size s.news) type_id s.counts u

  -- the resources of one type
  unfoldable pub apply_group : TypeGroup → Counts → Tables → Option ResourceType → Run Counts
  unfolding write_sorted sort_items
  apply_group g c t none = done (add_skipped (length g.items) c) t
  apply_group g c t (some rt) =
      write_sorted rt.id
        (sort_items g.items rt.id t (record { counts = c; updates = []; news = [] })) t

  unfoldable pub apply_groups : List TypeGroup → List ResourceType → Counts → Tables → Run Counts
  unfolding apply_group
  apply_groups [] types c t = done c t
  apply_groups (g ∷ gs) types c t =
      then_run (apply_group g c t (last_named (λ rt. rt.name) g.type_name types))
        λ d u. apply_groups gs types d u

  unfoldable pub apply_resources : List ResourceItem → Tables → Run Counts
  unfolding apply_groups
  apply_resources items t = apply_groups (group_items items []) t.types no_counts t
