-- ===== src/Tests/RealmMaps.antt =====
-- A realm with two types whose map is cached, and calls on it.
use stateful_abac_policy_eng.Prelude.{
  true, false, none, some, List, [], ◌∷◌, ◌≡◌, refl, ok, ◌>>=◌, digit, digits, str_of, any, arith,
}
use stateful_abac_policy_eng.Policy.{ResourceType}
use stateful_abac_policy_eng.Auth.{find, or_raise, int_of, read_digits, resolve_ids}
use stateful_abac_policy_eng.RealmCache.{
  RealmState, get_realm_map, mapping_of, update_realm_type, remove_realm_type,
}
use stateful_abac_policy_eng.Services.ResourceTypes.{
  create_resource_type, update_resource_type, delete_resource_type, has_name,
}
use stateful_abac_policy_eng.Services.ResourceTypes.Kept.{Inv}
use stateful_abac_policy_eng.Services.Actions.{BatchActions, batch_actions}
use stateful_abac_policy_eng.Services.Actions.Stale.{batch_actions-stale}
use stateful_abac_policy_eng.Services.RealmMaps.{
  Call, creates, updates, deletes, reads, step, run, run-map,
}
use stateful_abac_policy_eng.Services.RealmMaps.Names.{
  rebuild_from, run-type_id, create_resource_type-race,
}

abbrev document : ResourceType
document = record { id = 3; name = "document"; is_public = false; realm_id = 1 }

abbrev folder : ResourceType
folder = record { id = 12; name = "folder"; is_public = true; realm_id = 1 }

abbrev cold : RealmState
cold = record {
  id = 1;
  keycloak_config = none;
  actions = record { id = 7; name = "read"; realm_id = 1 } ∷ [];
  types = document ∷ folder ∷ [];
  roles = record { id = 4; name = "editor" } ∷ [];
  next_id = 13;
  next_action_id = 8;
  hash = none;
}

cold-Inv : Inv cold
cold-Inv = record {
  distinct = (refl, (refl, tt));
  below = (omega arith, (omega arith, tt));
  agrees = tt;
}

-- the map is read, a type renamed, one deleted and one added, and the map read again
abbrev calls : List Call
calls = reads ∷ updates 3 (some "file") none ∷ deletes 12 ∷ creates "note" true ∷ reads ∷ []

run-map_example :
    find "type:file" (get_realm_map (run calls cold)).0
    ≡ find "type:file" (mapping_of (run calls cold))
run-map_example = run-map calls "type:file" cold cold-Inv

run-type_id_example :
    (or_raise (find "type:note" (get_realm_map (run calls cold)).0) >>= int_of) ≡ ok 13
unfolding run step get_realm_map mapping_of update_realm_type remove_realm_type create_resource_type
    update_resource_type delete_resource_type str_of digits digit
run-type_id_example =
    run-type_id calls "note" cold
      (some (record { id = 13; name = "note"; is_public = true; realm_id = 1 })) cold-Inv refl

create_resource_type-race_example :
    (out : ResourceType × RealmState) × (create_resource_type "note" true cold ≡ ok out)
    × (any (has_name "note") out.1.types ≡ true)
    × (find "type:note" (get_realm_map (rebuild_from cold out.1).1).0 ≡ none)
create_resource_type-race_example = create_resource_type-race "note" true cold refl refl

-- the action is deleted, and its name is still resolved
abbrev batch : BatchActions
batch = record { create = []; update = []; delete = 7 ∷ [] }

abbrev warm : RealmState
unfolding get_realm_map
warm = (get_realm_map cold).1

abbrev without_read : RealmState
unfolding get_realm_map
without_read = record warm { actions = [] }

batch_actions-stale_example :
    resolve_ids (get_realm_map without_read).0 "read" "folder"
    ≡ resolve_ids (get_realm_map warm).0 "read" "folder"
unfolding batch_actions get_realm_map
batch_actions-stale_example =
    batch_actions-stale batch warm without_read (mapping_of cold) "read" "folder" refl refl

-- A created type is found in the cached map.
new_type-resolved :
    (or_raise (find "type:note" (get_realm_map (run calls cold)).0) >>= int_of) ≡ ok 13
unfolding run step get_realm_map mapping_of update_realm_type remove_realm_type create_resource_type
    update_resource_type delete_resource_type str_of digits digit int_of read_digits
new_type-resolved = refl

deleted_action-resolved :
    resolve_ids (get_realm_map without_read).0 "read" "folder"
    ≡ ok (record { action_id = 7; type_id = 12 })
unfolding get_realm_map mapping_of resolve_ids str_of digits digit int_of read_digits
deleted_action-resolved = refl
