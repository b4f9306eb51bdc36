-- ===== src/Services/Actions.antt =====
-- common/application/action_service.py: the actions of one realm and the realm map in Redis. The rows
-- are those of the realm; the table has a unique constraint on the name. An operation that raises
-- returns no state.
pub mod Stale
use stateful_abac_policy_eng.Prelude.{
  ℕ, suc, String, Bool, true, false, not, ◌&&◌, Option, none, some, List, [], ◌∷◌, ◌++◌, ◌==◌,
  eq_text, mem_id, any, if◌then◌else◌, Result, ok, err, ◌>>=◌, where_true,
}
use stateful_abac_policy_eng.Policy.{Action}
use stateful_abac_policy_eng.RealmCache.{RealmState, invalidate_realm}
use stateful_abac_policy_eng.Services.Acls.Rows.{one_or_none}

abbrev pub with_actions : RealmState → List Action → RealmState
with_actions s actions = record s { actions = actions }

abbrev pub has_name : String → Action → Bool
has_name name a = eq_text a.name name

abbrev pub has_id : ℕ → Action → Bool
has_id id a = a.id == id

abbrev pub new_action : RealmState → String → Action
new_action s name = record { id = s.next_action_id; name = name; realm_id = s.id }

-- INSERT
abbrev pub insert_action : String → RealmState → RealmState
insert_action name s = record s {
  actions = s.actions ++ new_action s name ∷ [];
  next_action_id = suc s.next_action_id;
}

abbrev pub create_found : String → RealmState → Option Action → Action × RealmState
create_found name s none = (new_action s name, invalidate_realm (insert_action name s))
create_found name s (some existing) = (existing, s)

unfoldable pub create_action : String → RealmState → Result (Action × RealmState)
create_action name s = do
  existing ← one_or_none (where_true (has_name name) s.actions)
  ok (create_found name s existing)

abbrev pub renamed : Option String → Action → Action
renamed none a = a
renamed (some name) a = if eq_text name "" then a else record a { name = name }

abbrev pub replace_action : Action → List Action → List Action
replace_action new [] = []
replace_action new (a ∷ actions) = (if a.id == new.id then new else a) ∷ replace_action new actions

-- another row of the name, which the constraint forbids
abbrev pub is_taken : Action → Action → Bool
is_taken new a = eq_text a.name new.name && not (a.id == new.id)

-- UPDATE
abbrev pub write_action : Action → RealmState → Result RealmState
write_action new s =
    if any (is_taken new) s.actions then err else ok (with_actions s (replace_action new s.actions))

abbrev pub update_found :
    Option String → RealmState → Option Action → Result (Option Action × RealmState)
update_found name s none = ok (none, s)
update_found name s (some a) = do
  written ← write_action (renamed name a) s
  ok (some (renamed name a), invalidate_realm written)

unfoldable pub update_action : ℕ → Option String → RealmState → Result (Option Action × RealmState)
update_action action_id name s = do
  found ← one_or_none (where_true (has_id action_id) s.actions)
  update_found name s found

abbrev pub without_action : Action → RealmState → RealmState
without_action a s = with_actions s (where_true (λ b. not (b.id == a.id)) s.actions)

abbrev pub delete_found : RealmState → Option Action → Bool × RealmState
delete_found s none = (false, s)
delete_found s (some a) = (true, invalidate_realm (without_action a s))

unfoldable pub delete_action : ℕ → RealmState → Result (Bool × RealmState)
delete_action action_id s = do
  found ← one_or_none (where_true (has_id action_id) s.actions)
  ok (delete_found s found)

pub record ActionUpdate : Type 0 where
  pub id : Option ℕ
  pub name : Option String

pub record BatchActions : Type 0 where
  pub create : List String
  pub update : List ActionUpdate
  pub delete : List ℕ

abbrev pub insert_found : String → RealmState → Option Action → RealmState
insert_found name s none = insert_action name s
insert_found name s (some existing) = s

abbrev pub create_actions : List String → RealmState → Result RealmState
create_actions [] s = ok s
create_actions (name ∷ rest) s = do
  existing ← one_or_none (where_true (has_name name) s.actions)
  create_actions rest (insert_found name s existing)

-- an id that is not 0, or a name that is not empty; `none` skips the item
abbrev by_name : Option String → Option (Action → Bool)
by_name none = none
by_name (some name) = if eq_text name "" then none else some (has_name name)

abbrev pub selected : Option ℕ → Option String → Option (Action → Bool)
selected none name = by_name name
selected (some id) name = if id == 0 then by_name name else some (has_id id)

abbrev pub write_found : ActionUpdate → RealmState → Option Action → Result RealmState
write_found item s none = ok s
write_found item s (some a) = write_action (renamed item.name a) s

abbrev pub update_one : ActionUpdate → RealmState → Option (Action → Bool) → Result RealmState
update_one item s none = ok s
update_one item s (some test) = do
  found ← one_or_none (where_true test s.actions)
  write_found item s found

abbrev pub update_actions : List ActionUpdate → RealmState → Result RealmState
update_actions [] s = ok s
update_actions (item ∷ rest) s = do
  t ← update_one item s (selected item.id item.name)
  update_actions rest t

abbrev pub delete_actions : List ℕ → RealmState → RealmState
delete_actions ids s = with_actions s (where_true (λ a. not (mem_id a.id ids)) s.actions)

-- `batch_actions`, which does not invalidate the realm map
unfoldable pub batch_actions : BatchActions → RealmState → Result RealmState
batch_actions o s = do
  created ← create_actions o.create s
  written ← update_actions o.update created
  ok (delete_actions o.delete written)
