-- ===== src/Policy.antt =====
-- common/models.py: the rows that the policy functions read. A nullable column is an `Option`.
pub mod Conditions
pub mod Resources
pub mod Permitted
use stateful_abac_policy_eng.Prelude.{
  ℕ, String, Bool, true, false, ◌&&◌, ◌||◌, Option, none, some, List, is_id, mem_id, ◌==◌,
}
use stateful_abac_policy_eng.Json.{Json}

pub record Acl : Type 0 where
  pub id : ℕ
  pub realm_id : ℕ
  pub resource_type_id : ℕ
  pub action_id : ℕ
  pub principal_id : Option ℕ
  pub role_id : Option ℕ
  pub resource_id : Option ℕ
  pub conditions : Option Json
  pub compiled_sql : Option String

pub record ExternalId : Type 0 where
  pub resource_id : ℕ
  pub realm_id : ℕ
  pub resource_type_id : ℕ
  pub external_id : String

pub record Resource : Type 0 where
  pub id : ℕ
  pub realm_id : ℕ
  pub resource_type_id : ℕ
  pub attributes : Json

pub record ResourceType : Type 0 where
  pub id : ℕ
  pub name : String
  pub is_public : Bool
  pub realm_id : ℕ

pub record Action : Type 0 where
  pub id : ℕ
  pub name : String
  pub realm_id : ℕ

-- the arguments that the functions under alembic/versions share
pub record Query : Type 0 where
  pub realm_id : ℕ
  pub principal_id : ℕ
  pub role_ids : List ℕ
  pub resource_type_id : ℕ
  pub action_id : ℕ

-- `role_id = ANY(p_role_ids)`, where NULL never matches
abbrev pub has_role : Option ℕ → List ℕ → Bool
has_role none roles = false
has_role (some r) roles = mem_id r roles

-- `realm_id = p_realm_id AND resource_type_id = p_resource_type_id AND action_id = p_action_id`
abbrev pub concerns : Query → Acl → Bool
concerns q a =
    (a.realm_id == q.realm_id)
    && (a.resource_type_id == q.resource_type_id)
    && (a.action_id == q.action_id)

-- `principal_id = p_principal_id OR role_id = ANY(p_role_ids)`
abbrev pub is_held : Query → Acl → Bool
is_held q a = is_id a.principal_id q.principal_id || has_role a.role_id q.role_ids

-- the same `OR (principal_id = 0 AND role_id = 0)`, which is everybody's
abbrev pub is_held_or_open : Query → Acl → Bool
is_held_or_open q a = is_held q a || (is_id a.principal_id 0 && is_id a.role_id 0)
