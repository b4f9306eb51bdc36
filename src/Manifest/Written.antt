-- ===== src/Manifest/Written.antt =====
-- common/application/manifest_service.py, `apply_manifest`: the rows that the sections write where every
-- name is new.
use stateful_abac_policy_eng.Prelude.{
  ℕ, suc, ◌+◌, String, List, [], ◌∷◌, ◌++◌, ◌≡◌, refl, sym, ap, ap₂, ◌∙◌, map, length, arith,
}
use mathlib.Core.List.{append-nil}
use stateful_abac_policy_eng.Policy.{ResourceType, Action}
use stateful_abac_policy_eng.Manifest.{TypeItem, RoleItem}
use stateful_abac_policy_eng.Manifest.Tables.{RoleRow, Tables, Counts, no_counts}
use stateful_abac_policy_eng.Manifest.Sections.{
  or_false, apply_types, count_created, apply_actions, or_null, insert_roles, sort_roles, add_roles,
  apply_roles,
}
use stateful_abac_policy_eng.Manifest.Lookup.{AreNew, rows_from, new_name}

module _ {ℓ} {A : Type ℓ} where
  pub append_cons : (xs : List A) (x : A) (ys : List A) → (xs ++ x ∷ []) ++ ys ≡ xs ++ x ∷ ys
  append_cons [] x ys = refl
  append_cons (z ∷ xs) x ys = ap (λ rest. z ∷ rest) (append_cons xs x ys)

  pub map-snoc {κ} :
      {B : Type κ} (f : A → B) (xs : List A) (x : A) → map f (xs ++ x ∷ []) ≡ map f xs ++ f x ∷ []
  map-snoc f [] x = refl
  map-snoc f (z ∷ xs) x = ap (λ rest. f z ∷ rest) (map-snoc f xs x)

abbrev pub added : ℕ → Counts → Counts
added n c = record c { created = c.created + n }

added-zero : (c : Counts) → c ≡ added 0 c
added-zero c = ap (λ m. record c { created = m }) (omega arith)

added-suc : (n : ℕ) (c : Counts) → added n (count_created c) ≡ added (suc n) c
added-suc n c = ap (λ m. record c { created = m }) (omega arith)

module _ {ℓ} {A : Type ℓ} where
  -- The counts, rows and next id at the end of a list, and those after one more item.
  pub at_end :
      (f : List A → ℕ → Tables) (c : Counts) (rows : List A) (n : ℕ)
      → ◌≡◌ {A = Counts × Tables} (c, f rows n) (added 0 c, f (rows ++ []) (n + 0))
  at_end f c rows n =
      ap₂ (λ k u. (k, u)) (added-zero c) (ap₂ f (sym (append-nil rows)) (omega arith))

  pub one_more :
      (f : List A → ℕ → Tables) (c : Counts) (rows : List A) (x : A) (xs : List A) (n m : ℕ)
      → ◌≡◌ {A = Counts × Tables}
          (added m (count_created c), f ((rows ++ x ∷ []) ++ xs) (suc n + m))
          (added (suc m) c, f (rows ++ x ∷ xs) (n + suc m))
  one_more f c rows x xs n m =
      ap₂ (λ k u. (k, u)) (added-suc m c) (ap₂ f (append_cons rows x xs) (omega arith))

-- ---- resource types
abbrev pub type_row : ℕ → ℕ → TypeItem → ResourceType
type_row realm_id id item = record {
  id = id;
  name = item.name;
  is_public = or_false item.is_public;
  realm_id = realm_id;
}

abbrev pub with_types : Tables → List ResourceType → ℕ → Tables
with_types t rows n = record t { types = rows; next_type = n }

pub apply_types-new :
    (items : List TypeItem) (c : Counts) (t : Tables) (rows : List ResourceType) (n : ℕ)
    → AreNew (map (λ i. i.name) items) (map (λ rt. rt.name) rows)
    → apply_types items c (with_types t rows n) ≡ (
      added (length items) c,
      with_types t (rows ++ rows_from (type_row t.id) n items) (n + length items),
    )
unfolding apply_types
apply_types-new [] c t rows n h = at_end (with_types t) c rows n
apply_types-new (item ∷ items) c t rows n (free, h) =
    let row = type_row t.id n item in
    let rest : AreNew (map (λ i. i.name) items) (map (λ rt. rt.name) (rows ++ row ∷ [])) =
      rw (map-snoc (λ rt. rt.name) rows row) h in
    rw (new_name (λ rt. rt.name) item.name rows free) (
      apply_types-new items (count_created c) t (rows ++ row ∷ []) (suc n) rest
      ∙ one_more (with_types t) c rows row (rows_from (type_row t.id) (suc n) items) n
          (length items))

-- ---- actions
abbrev pub action_row : ℕ → ℕ → String → Action
action_row realm_id id name = record { id = id; name = name; realm_id = realm_id }

abbrev pub with_actions : Tables → List Action → ℕ → Tables
with_actions t rows n = record t { actions = rows; next_action = n }

pub apply_actions-new :
    (names : List String) (c : Counts) (t : Tables) (rows : List Action) (n : ℕ)
    → AreNew names (map (λ a. a.name) rows)
    → apply_actions names c (with_actions t rows n) ≡ (
      added (length names) c,
      with_actions t (rows ++ rows_from (action_row t.id) n names) (n + length names),
    )
unfolding apply_actions
apply_actions-new [] c t rows n h = at_end (with_actions t) c rows n
apply_actions-new (name ∷ names) c t rows n (free, h) =
    let row = action_row t.id n name in
    let rest : AreNew names (map (λ a. a.name) (rows ++ row ∷ [])) =
      rw (map-snoc (λ a. a.name) rows row) h in
    rw free (
      apply_actions-new names (count_created c) t (rows ++ row ∷ []) (suc n) rest
      ∙ one_more (with_actions t) c rows row (rows_from (action_row t.id) (suc n) names) n
          (length names))

-- ---- roles
abbrev pub role_row : ℕ → ℕ → RoleItem → RoleRow
role_row realm_id id item = record {
  id = id;
  name = item.name;
  realm_id = realm_id;
  attributes = or_null item.attributes;
}

abbrev pub with_roles : Tables → List RoleRow → ℕ → Tables
with_roles t rows n = record t { roles = rows; next_role = n }

sort_roles-new :
    (items : List RoleItem) (c : Counts) (t : Tables) (news : List RoleItem)
    → sort_roles [] items (record { counts = c; new_roles = news; tables = t })
      ≡ record { counts = added (length items) c; new_roles = news ++ items; tables = t }
unfolding sort_roles
sort_roles-new [] c t news =
    ap₂ (λ k rest. record { counts = k; new_roles = rest; tables = t }) (added-zero c)
      (sym (append-nil news))
sort_roles-new (item ∷ items) c t news =
    sort_roles-new items (count_created c) t (news ++ item ∷ [])
    ∙ ap₂ (λ k rest. record { counts = k; new_roles = rest; tables = t })
        (added-suc (length items) c) (append_cons news item items)

insert_roles-rows :
    (items : List RoleItem) (t : Tables) (rows : List RoleRow) (n : ℕ)
    → insert_roles items (with_roles t rows n)
      ≡ with_roles t (rows ++ rows_from (role_row t.id) n items) (n + length items)
insert_roles-rows [] t rows n = ap₂ (with_roles t) (sym (append-nil rows)) (omega arith)
insert_roles-rows (item ∷ items) t rows n =
    let row = role_row t.id n item in
    insert_roles-rows items t (rows ++ row ∷ []) (suc n)
    ∙ ap₂ (with_roles t) (append_cons rows row (rows_from (role_row t.id) (suc n) items))
        (omega arith)

pub apply_roles-new :
    (items : List RoleItem) (t : Tables) (n : ℕ)
    → apply_roles items (with_roles t [] n) ≡ (
      added (length items) no_counts,
      with_roles t (rows_from (role_row t.id) n items) (n + length items),
    )
unfolding apply_roles
apply_roles-new items t n =
    ap add_roles (sort_roles-new items no_counts (with_roles t [] n) [])
    ∙ ap (λ u. (added (length items) no_counts, u)) (insert_roles-rows items t [] n)
