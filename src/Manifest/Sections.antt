-- ===== src/Manifest/Sections.antt =====
-- common/application/manifest_service.py, `apply_manifest`: resource types, actions, roles and
-- principals.
use stateful_abac_policy_eng.Prelude.{
  ℕ, suc, String, Bool, true, false, Option, none, some, List, [], ◌∷◌, ◌++◌, ◌==◌, eq_text, map,
  if◌then◌else◌, Result, ok, err, ◌>>=◌, mem_id, mem_text,
}
use stateful_abac_policy_eng.Json.{Json, null}
use stateful_abac_policy_eng.Policy.{ResourceType}
use stateful_abac_policy_eng.Auth.Roles.{PrincipalRoles}
use stateful_abac_policy_eng.Services.PrincipalCache.{PrincipalRow}
use stateful_abac_policy_eng.Services.ResourceTypes.{replace_type}
use stateful_abac_policy_eng.Manifest.{TypeItem, RoleItem, PrincipalItem}
use stateful_abac_policy_eng.Manifest.Tables.{RoleRow, Tables, last_where, Counts, no_counts}

abbrev pub count_created : Counts → Counts
count_created c = record c { created = suc c.created }

abbrev pub count_updated : Counts → Counts
count_updated c = record c { updated = suc c.updated }

abbrev pub count_skipped : Counts → Counts
count_skipped c = record c { skipped = suc c.skipped }

-- `item.get("is_public", False)`
abbrev pub or_false : Option Bool → Bool
or_false none = false
or_false (some b) = b

-- ---- resource types
abbrev pub insert_type : TypeItem → Tables → Tables
insert_type item t = record t {
  types =
      t.types
      ++ record {
        id = t.next_type;
        name = item.name;
        is_public = or_false item.is_public;
        realm_id = t.id;
      }
        ∷ [];
  next_type = suc t.next_type;
}

abbrev pub apply_type : TypeItem → Counts → Tables → Option ResourceType → Counts × Tables
apply_type item c t (some rt) = (
  count_updated c,
  record t { types = replace_type (record rt { is_public = or_false item.is_public }) t.types },
)
apply_type item c t none = (count_created c, insert_type item t)

abbrev pub type_named : String → Tables → Option ResourceType
type_named name t = last_where (λ rt. eq_text rt.name name) t.types

unfoldable pub apply_types : List TypeItem → Counts → Tables → Counts × Tables
apply_types [] c t = (c, t)
apply_types (item ∷ items) c t =
    let step = apply_type item c t (type_named item.name t) in apply_types items step.0 step.1

-- ---- actions
abbrev pub insert_action : String → Tables → Tables
insert_action name t = record t {
  actions = t.actions ++ record { id = t.next_action; name = name; realm_id = t.id } ∷ [];
  next_action = suc t.next_action;
}

abbrev pub apply_action : String → Counts → Tables → Bool → Counts × Tables
apply_action name c t true = (c, t)
apply_action name c t false = (count_created c, insert_action name t)

abbrev pub has_action : String → Tables → Bool
has_action name t = mem_text name (map (λ a. a.name) t.actions)

unfoldable pub apply_actions : List String → Counts → Tables → Counts × Tables
apply_actions [] c t = (c, t)
apply_actions (name ∷ names) c t =
    let step = apply_action name c t (has_action name t) in apply_actions names step.0 step.1

-- ---- roles
-- `attributes` of a new row: a missing key and None are null
abbrev pub or_null : Option Json → Json
or_null none = null
or_null (some j) = j

abbrev pub new_role : RoleItem → Tables → RoleRow
new_role item t = record {
  id = t.next_role;
  name = item.name;
  realm_id = t.id;
  attributes = or_null item.attributes;
}

abbrev pub insert_role : RoleItem → Tables → Tables
insert_role item t = record t {
  roles = t.roles ++ new_role item t ∷ [];
  next_role = suc t.next_role;
}

abbrev pub insert_roles : List RoleItem → Tables → Tables
insert_roles [] t = t
insert_roles (item ∷ items) t = insert_roles items (insert_role item t)

abbrev pub set_role : ℕ → Json → List RoleRow → List RoleRow
set_role id attributes [] = []
set_role id attributes (r ∷ rs) =
    (if r.id == id then record r { attributes = attributes } else r) ∷ set_role id attributes rs

abbrev pub update_role : Option Json → RoleRow → Tables → Tables
update_role none role t = t
update_role (some attributes) role t = record t { roles = set_role role.id attributes t.roles }

-- the loop, over the rows that were there before it: it returns the items to insert
pub record RoleLoop : Type 0 where
  pub counts : Counts
  pub new_roles : List RoleItem
  pub tables : Tables

abbrev pub sort_role : RoleItem → RoleLoop → Option RoleRow → RoleLoop
sort_role item l none = record l {
  counts = count_created l.counts;
  new_roles = l.new_roles ++ item ∷ [];
}
sort_role item l (some role) = record l {
  counts = count_updated l.counts;
  tables = update_role item.attributes role l.tables;
}

unfoldable pub sort_roles : List RoleRow → List RoleItem → RoleLoop → RoleLoop
sort_roles existing [] l = l
sort_roles existing (item ∷ items) l =
    sort_roles existing items
      (sort_role item l (last_where (λ r. eq_text r.name item.name) existing))

abbrev pub add_roles : RoleLoop → Counts × Tables
add_roles l = (l.counts, insert_roles l.new_roles l.tables)

unfoldable pub apply_roles : List RoleItem → Tables → Counts × Tables
unfolding sort_roles
apply_roles items t =
    add_roles (sort_roles t.roles items (record { counts = no_counts; new_roles = []; tables = t }))

-- ---- principals
abbrev pub role_id : Option RoleRow → List ℕ → List ℕ
role_id none ids = ids
role_id (some r) ids = r.id ∷ ids

-- the roles of the realm that an item names; other names are passed over
abbrev pub role_ids : List RoleRow → List String → List ℕ
role_ids roles [] = []
role_ids roles (name ∷ names) =
    role_id (last_where (λ r. eq_text r.name name) roles) (role_ids roles names)

abbrev pub given_names : Option (List String) → List String
given_names none = []
given_names (some names) = names

abbrev pub assignments : ℕ → List ℕ → List PrincipalRoles
assignments id [] = []
assignments id (r ∷ rs) = record { principal_id = id; role_id = r } ∷ assignments id rs

-- the primary key of principal_roles
abbrev pub has_twice : List ℕ → Bool
has_twice [] = false
has_twice (n ∷ ns) = if mem_id n ns then true else has_twice ns

abbrev pub new_principal : PrincipalItem → Tables → PrincipalRow
new_principal item t = record {
  id = t.next_principal;
  username = item.username;
  realm_id = t.id;
  attributes = or_null item.attributes;
}

abbrev pub insert_principal : PrincipalItem → List ℕ → Tables → Tables
insert_principal item ids t = record t {
  principals = t.principals ++ new_principal item t ∷ [];
  principal_roles = t.principal_roles ++ assignments t.next_principal ids;
  next_principal = suc t.next_principal;
}

abbrev pub apply_principal :
    PrincipalItem → Counts → Tables → Bool → List ℕ → Result (Counts × Tables)
apply_principal item c t true ids = ok (c, t)
apply_principal item c t false ids =
    if has_twice ids then err else ok (count_created c, insert_principal item ids t)

abbrev pub has_principal : String → Tables → Bool
has_principal username t = mem_text username (map (λ p. p.username) t.principals)

unfoldable pub apply_principals : List PrincipalItem → Counts → Tables → Result (Counts × Tables)
apply_principals [] c t = ok (c, t)
apply_principals (item ∷ items) c t = do
  (d, u) ←
      apply_principal item c t (has_principal item.username t)
        (role_ids t.roles (given_names item.roles))
  apply_principals items d u
