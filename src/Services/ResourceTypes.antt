-- ===== src/Services/ResourceTypes.antt =====
-- common/application/resource_type_service.py: the types of one realm and the realm map in Redis. The
-- rows are those of the realm, by which every statement selects; the table has a unique constraint on
-- the name. An operation that raises returns no state.
pub mod Entries
pub mod Changes
pub mod Removed
pub mod Hash
pub mod Rows
pub mod Kept
pub mod Written
pub mod Batches
use stateful_abac_policy_eng.Prelude.{
  ℕ, suc, String, Bool, true, false, not, ◌&&◌, Option, none, some, List, [], ◌∷◌, ◌++◌, ◌==◌,
  eq_text, mem_id, any, if◌then◌else◌, Result, ok, err, ◌>>=◌, where_true,
}
use stateful_abac_policy_eng.Policy.{ResourceType}
use stateful_abac_policy_eng.RealmCache.{
  RealmState, update_realm_type, remove_realm_type, invalidate_realm,
}
use stateful_abac_policy_eng.Services.Acls.Rows.{one_or_none}

abbrev pub with_types : RealmState → List ResourceType → RealmState
with_types s types = record s { types = types }

abbrev pub has_name : String → ResourceType → Bool
has_name name t = eq_text t.name name

abbrev pub has_id : ℕ → ResourceType → Bool
has_id id t = t.id == id

abbrev pub new_type : RealmState → String → Bool → ResourceType
new_type s name is_public = record {
  id = s.next_id;
  name = name;
  is_public = is_public;
  realm_id = s.id;
}

-- INSERT
abbrev pub insert_type : String → Bool → RealmState → RealmState
insert_type name is_public s = record s {
  types = s.types ++ new_type s name is_public ∷ [];
  next_id = suc s.next_id;
}

abbrev pub create_found :
    String → Bool → RealmState → Option ResourceType → ResourceType × RealmState
create_found name is_public s none = (
  new_type s name is_public,
  update_realm_type (new_type s name is_public) (insert_type name is_public s),
)
create_found name is_public s (some existing) = (existing, update_realm_type existing s)

unfoldable pub create_resource_type :
    String → Bool → RealmState → Result (ResourceType × RealmState)
create_resource_type name is_public s = do
  existing ← one_or_none (where_true (has_name name) s.types)
  ok (create_found name is_public s existing)

abbrev pub or_kept {ℓ} : {A : Type ℓ} → Option A → A → A
or_kept none old = old
or_kept (some new) old = new

abbrev pub changed_type : Option String → Option Bool → ResourceType → ResourceType
changed_type name is_public t = record t {
  name = or_kept name t.name;
  is_public = or_kept is_public t.is_public;
}

abbrev pub replace_type : ResourceType → List ResourceType → List ResourceType
replace_type new [] = []
replace_type new (t ∷ ts) = (if t.id == new.id then new else t) ∷ replace_type new ts

-- another row of the name, which the constraint forbids
abbrev pub is_taken : ResourceType → ResourceType → Bool
is_taken new t = eq_text t.name new.name && not (t.id == new.id)

-- UPDATE
abbrev pub write_type : ResourceType → RealmState → Result RealmState
write_type new s =
    if any (is_taken new) s.types then err else ok (with_types s (replace_type new s.types))

-- the cached entry of the old name goes first, if the type was renamed
abbrev pub recache : ResourceType → ResourceType → RealmState → RealmState
recache old new s =
    update_realm_type new (if eq_text old.name new.name then s else remove_realm_type old.name s)

abbrev pub update_found :
    Option String
    → Option Bool
    → RealmState
    → Option ResourceType
    → Result (Option ResourceType × RealmState)
update_found name is_public s none = ok (none, s)
update_found name is_public s (some t) = do
  written ← write_type (changed_type name is_public t) s
  ok (some (changed_type name is_public t), recache t (changed_type name is_public t) written)

unfoldable pub update_resource_type :
    ℕ → Option String → Option Bool → RealmState → Result (Option ResourceType × RealmState)
update_resource_type rt_id name is_public s = do
  found ← one_or_none (where_true (has_id rt_id) s.types)
  update_found name is_public s found

abbrev pub without_type : ResourceType → RealmState → RealmState
without_type t s = with_types s (where_true (λ u. not (u.id == t.id)) s.types)

abbrev pub delete_found : RealmState → Option ResourceType → Bool × RealmState
delete_found s none = (false, s)
delete_found s (some t) = (true, remove_realm_type t.name (without_type t s))

unfoldable pub delete_resource_type : ℕ → RealmState → Result (Bool × RealmState)
delete_resource_type rt_id s = do
  found ← one_or_none (where_true (has_id rt_id) s.types)
  ok (delete_found s found)

pub record TypeCreate : Type 0 where
  pub name : String
  pub is_public : Bool

pub record TypeUpdate : Type 0 where
  pub id : Option ℕ
  pub name : Option String
  pub is_public : Option Bool

pub record BatchTypes : Type 0 where
  pub create : List TypeCreate
  pub update : List TypeUpdate
  pub delete : List ℕ

abbrev insert_found : TypeCreate → RealmState → Option ResourceType → RealmState
insert_found item s none = insert_type item.name item.is_public s
insert_found item s (some existing) = s

abbrev pub create_types : List TypeCreate → RealmState → Result RealmState
create_types [] s = ok s
create_types (item ∷ rest) s = do
  existing ← one_or_none (where_true (has_name item.name) s.types)
  create_types rest (insert_found item s existing)

-- an id that is not 0, or a name that is not empty; the outer `none` skips the item
abbrev by_name : Option String → Option (ResourceType → Bool)
by_name none = none
by_name (some name) = if eq_text name "" then none else some (has_name name)

abbrev pub selected : Option ℕ → Option String → Option (ResourceType → Bool)
selected none name = by_name name
selected (some id) name = if id == 0 then by_name name else some (has_id id)

abbrev write_found : TypeUpdate → RealmState → Option ResourceType → Result RealmState
write_found item s none = ok s
write_found item s (some t) = write_type (changed_type item.name item.is_public t) s

abbrev update_one : TypeUpdate → RealmState → Option (ResourceType → Bool) → Result RealmState
update_one item s none = ok s
update_one item s (some test) = do
  found ← one_or_none (where_true test s.types)
  write_found item s found

abbrev pub update_types : List TypeUpdate → RealmState → Result RealmState
update_types [] s = ok s
update_types (item ∷ rest) s = do
  t ← update_one item s (selected item.id item.name)
  update_types rest t

abbrev pub delete_types : List ℕ → RealmState → RealmState
delete_types ids s = with_types s (where_true (λ t. not (mem_id t.id ids)) s.types)

unfoldable pub batch_resource_types : BatchTypes → RealmState → Result RealmState
batch_resource_types o s = do
  created ← create_types o.create s
  written ← update_types o.update created
  ok (invalidate_realm (delete_types o.delete written))
