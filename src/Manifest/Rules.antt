-- ===== src/Manifest/Rules.antt =====
-- common/application/manifest_service.py, `apply_manifest`: the rows of acl.
use stateful_abac_policy_eng.Prelude.{
  ℕ, suc, String, not, ◌&&◌, Option, none, some, List, [], ◌∷◌, ◌++◌, eq_text, any, if◌then◌else◌,
  Result, ok, err, ◌>>=◌,
}
use stateful_abac_policy_eng.Json.{Json, str}
use stateful_abac_policy_eng.Policy.{ResourceType, Action}
use stateful_abac_policy_eng.Services.PrincipalCache.{PrincipalRow}
use stateful_abac_policy_eng.Services.Acls.Rows.{RuleKey, passes_check, violates_index, column_of}
use stateful_abac_policy_eng.Services.Acls.Operations.{new_row}
use stateful_abac_policy_eng.Manifest.{AclItem}
use stateful_abac_policy_eng.Manifest.Tables.{RoleRow, Tables, last_named, Counts, no_counts}
use stateful_abac_policy_eng.Manifest.Sections.{count_created, count_skipped}
use stateful_abac_policy_eng.Manifest.Bulk.{known_resource}

abbrev pub id_of_role : Option RoleRow → Option ℕ
id_of_role none = none
id_of_role (some r) = some r.id

abbrev pub id_of_principal : Option PrincipalRow → Option ℕ
id_of_principal none = none
id_of_principal (some p) = some p.id

-- "anonymous" is the principal 0; the key principal_id counts where there is no name
abbrev pub principal_of : Option String → Option ℕ → Tables → Option ℕ
principal_of none id t = id
principal_of (some name) id t =
    if eq_text name "anonymous"
    then some 0
    else id_of_principal (last_named (λ p. p.username) (some name) t.principals)

abbrev pub resource_for : Option String → Tables → Option ℕ
resource_for none t = none
resource_for (some e) t = known_resource none e t

-- the text "null" is no condition
abbrev pub conditions_of : Option Json → Option Json
conditions_of (some (str s)) = if eq_text s "null" then none else some (str s)
conditions_of c = c

abbrev pub key_of_item : AclItem → ℕ → ℕ → Tables → RuleKey
key_of_item item type_id action_id t = record {
  realm_id = t.id;
  resource_type_id = type_id;
  action_id = action_id;
  principal_id = principal_of item.principal item.principal_id t;
  role_id = id_of_role (last_named (λ r. r.name) item.role t.roles);
  resource_id = resource_for item.resource_external_id t;
}

abbrev pub id_of_type : Option ResourceType → Option ℕ
id_of_type none = none
id_of_type (some rt) = some rt.id

abbrev pub id_of_action : Option Action → Option ℕ
id_of_action none = none
id_of_action (some a) = some a.id

abbrev pub type_id_of : Option String → Tables → Option ℕ
type_id_of name t = id_of_type (last_named (λ rt. rt.name) name t.types)

abbrev pub action_id_of : Option String → Tables → Option ℕ
action_id_of name t = id_of_action (last_named (λ a. a.name) name t.actions)

-- `results["acls"]`: an exception of the commit is caught, after a rollback
pub data AclResult : Type 0 where
  counted : Counts → AclResult
  failed : AclResult

abbrev pub rolled_back : Tables → Result (Counts × Tables) → AclResult × Tables
rolled_back t (ok (c, u)) = (counted c, u)
rolled_back t err = (failed, t)

module _ (compile : Option Json → Result (Option String)) where
  -- INSERT, with the trigger, the CHECK and the unique index
  abbrev pub insert_rule : RuleKey → Option Json → Tables → Result Tables
  insert_rule k conditions t = do
    sql ← compile (column_of conditions)
    if passes_check k.principal_id k.role_id && not (any (violates_index k) t.acls)
        then ok (record t {
          acls = t.acls ++ new_row t.next_acl k conditions sql ∷ [];
          next_acl = suc t.next_acl;
        })
        else err

  abbrev pub apply_rule : AclItem → Counts → Tables → Option ℕ → Option ℕ → Result (Counts × Tables)
  apply_rule item c t (some type_id) (some action_id) = do
    u ← insert_rule (key_of_item item type_id action_id t) (conditions_of item.conditions) t
    ok (count_created c, u)
  apply_rule item c t _ _ = ok (count_skipped c, t)

  unfoldable pub apply_rules : List AclItem → Counts → Tables → Result (Counts × Tables)
  apply_rules [] c t = ok (c, t)
  apply_rules (item ∷ items) c t = do
    (d, u) ← apply_rule item c t (type_id_of item.resource_type t) (action_id_of item.action t)
    apply_rules items d u

  unfoldable pub apply_acls : List AclItem → Tables → AclResult × Tables
  unfolding apply_rules
  apply_acls items t = rolled_back t (apply_rules items no_counts t)
