-- ===== src/Auth/Externals.antt =====
-- The mapping of external ids: its cache in common/services/cache.py, and
-- `AuthService._batch_resolve_external_ids` of common/application/auth_service.py. A key of the cache is
-- its three parts; a row's external id is unique in its realm and type, which is the primary key.
pub mod Table
use stateful_abac_policy_eng.Prelude.{
  ℕ, String, Bool, true, false, not, ◌&&◌, ◌||◌, Option, none, some, List, [], ◌∷◌, ◌++◌, ◌==◌,
  is_none, eq_text, if◌then◌else◌, Result, ok, err, mem_text, where_true,
}
use stateful_abac_policy_eng.Policy.{ExternalId}
use stateful_abac_policy_eng.Auth.{Entry, Ids, resolve_ids}

-- extid:{realm_id}:{type_id}:{external_id}, and its value
pub record CachedExternal : Type 0 where
  pub realm_id : ℕ
  pub type_id : ℕ
  pub external_id : String
  pub resource_id : ℕ

-- an entry of a mapping {external_id: resource_id}
pub record Mapping : Type 0 where
  pub external_id : String
  pub resource_id : ℕ

abbrev pub is_key : ℕ → ℕ → String → CachedExternal → Bool
is_key realm_id type_id e c =
    (c.realm_id == realm_id) && (c.type_id == type_id) && eq_text c.external_id e

-- `CacheService.get_external_id_mapping`
abbrev pub get_external_id_mapping : List CachedExternal → ℕ → ℕ → String → Option ℕ
get_external_id_mapping [] realm_id type_id e = none
get_external_id_mapping (c ∷ cs) realm_id type_id e =
    let rest = get_external_id_mapping cs realm_id type_id e in
    if is_key realm_id type_id e c then some c.resource_id else rest

abbrev pub or_absent : String → Option ℕ → List Mapping → List Mapping
or_absent e none rest = rest
or_absent e (some id) rest = record { external_id = e; resource_id = id } ∷ rest

-- `CacheService.get_external_id_mappings_batch`
unfoldable pub get_external_id_mappings_batch :
    List CachedExternal → ℕ → ℕ → List String → List Mapping
get_external_id_mappings_batch cache realm_id type_id [] = []
get_external_id_mappings_batch cache realm_id type_id (e ∷ es) =
    or_absent e (get_external_id_mapping cache realm_id type_id e)
      (get_external_id_mappings_batch cache realm_id type_id es)

-- `CacheService.set_external_id_mappings_batch`
unfoldable pub set_external_id_mappings_batch :
    List CachedExternal → ℕ → ℕ → List Mapping → List CachedExternal
set_external_id_mappings_batch cache realm_id type_id [] = cache
set_external_id_mappings_batch cache realm_id type_id (m ∷ ms) =
    let entry : CachedExternal = record {
      realm_id = realm_id;
      type_id = type_id;
      external_id = m.external_id;
      resource_id = m.resource_id;
    } in
    set_external_id_mappings_batch (entry ∷ cache) realm_id type_id ms

-- `CacheService.invalidate_external_id`
unfoldable pub invalidate_external_id : List CachedExternal → ℕ → ℕ → String → List CachedExternal
invalidate_external_id cache realm_id type_id e =
    where_true (λ c. not (is_key realm_id type_id e c)) cache

-- `CacheService.invalidate_external_ids_for_type`
unfoldable pub invalidate_external_ids_for_type : List CachedExternal → ℕ → ℕ → List CachedExternal
invalidate_external_ids_for_type cache realm_id type_id =
    where_true (λ c. not ((c.realm_id == realm_id) && (c.type_id == type_id))) cache

-- `mapping.get(e)`
abbrev pub mapped_id : List Mapping → String → Option ℕ
mapped_id [] e = none
mapped_id (m ∷ ms) e =
    let rest = mapped_id ms e in if eq_text m.external_id e then some m.resource_id else rest

-- `[eid for eid in ext_ids if eid not in cached]`
abbrev pub misses_of : List Mapping → List String → List String
misses_of cached names = where_true (λ e. is_none (mapped_id cached e)) names

abbrev pub is_missed : ℕ → ℕ → List String → ExternalId → Bool
is_missed realm_id type_id misses x =
    (x.realm_id == realm_id) && (x.resource_type_id == type_id) && mem_text x.external_id misses

abbrev pub mappings_of : List ExternalId → List Mapping
mappings_of [] = []
mappings_of (x ∷ xs) =
    record { external_id = x.external_id; resource_id = x.resource_id } ∷ mappings_of xs

-- The mapping of a type, and the cache afterwards.
pub record Resolved : Type 0 where
  pub mapping : List Mapping
  pub cache : List CachedExternal

-- what is cached, and for the others the rows of the table, which are then cached
unfoldable pub resolve_type : List ExternalId → List CachedExternal → ℕ → ℕ → List String → Resolved
unfolding get_external_id_mappings_batch set_external_id_mappings_batch
resolve_type table cache realm_id type_id names =
    let cached = get_external_id_mappings_batch cache realm_id type_id names in
    let found =
      mappings_of (where_true (is_missed realm_id type_id (misses_of cached names)) table) in
    record {
      mapping = cached ++ found;
      cache = set_external_id_mappings_batch cache realm_id type_id found;
    }
