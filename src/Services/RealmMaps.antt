-- ===== src/Services/RealmMaps.antt =====
-- Calls in sequence on one realm: the operations of `ResourceTypeService`, those of `ActionService` on
-- single rows, and reads of the realm map. A call that raises leaves the rows and the hash as they were.
pub mod Names
use stateful_abac_policy_eng.Prelude.{
  ℕ, suc, String, Bool, true, false, Option, none, some, List, [], ◌∷◌, ◌++◌, ◌≡◌, refl, sym, ap,
  ◌∙◌, where_true, any, any-none, Result, ok, err, ok_of_bind, ok_injective, arith, ◌<◌, Bool-cases,
  inl, inr, err_absurd,
}
use stateful_abac_policy_eng.Policy.{Action, ResourceType}
use stateful_abac_policy_eng.Auth.{Entry, find}
use stateful_abac_policy_eng.RealmCache.{
  RealmState, assignments, mapping_of, get_realm_map, invalidate_realm, or_mapping, with_hash,
  populate_if_absent, looked_up,
}
use stateful_abac_policy_eng.RealmCache.Lookups.{find-mapping_of}
use stateful_abac_policy_eng.Services.Acls.Rows.{one_or_none}
use stateful_abac_policy_eng.Services.Acls.Kept.{one_or_none-found, one_or_none-missing}
use stateful_abac_policy_eng.Services.ResourceTypes.{
  TypeCreate, TypeUpdate, BatchTypes, has_name, has_id, new_type, insert_type, changed_type,
  replace_type, write_type, create_resource_type, update_resource_type, delete_resource_type,
  batch_resource_types,
}
use stateful_abac_policy_eng.Services.Actions.{
  create_action, update_action, delete_action, write_action, is_taken, has_name as has_action_name,
  has_id as has_action_id, create_found as create_action_found, delete_found as delete_action_found,
  update_found as update_action_found, renamed, replace_action,
}
use stateful_abac_policy_eng.Services.ResourceTypes.Hash.{AgreesWith}
use stateful_abac_policy_eng.Services.ResourceTypes.Changes.{AllDistinct}
use stateful_abac_policy_eng.Services.ResourceTypes.Rows.{
  AllBelow, AllBelow-next, AllBelow-append, AllBelow-where_true, AllBelow-replace,
  AllDistinct-append, AllDistinct-where_true, AllDistinct-replace,
}
use stateful_abac_policy_eng.Services.ResourceTypes.Kept.{row_value, Inv, create_resource_type-Inv}
use stateful_abac_policy_eng.Services.ResourceTypes.Batches.{batch_resource_types-Inv}
use stateful_abac_policy_eng.Services.ResourceTypes.Written.{
  update_resource_type-Inv, delete_resource_type-Inv,
}

pub data Call : Type 0 where
  creates : String → Bool → Call
  updates : ℕ → Option String → Option Bool → Call
  deletes : ℕ → Call
  batches : BatchTypes → Call
  creates_action : String → Call
  updates_action : ℕ → Option String → Call
  deletes_action : ℕ → Call
  reads : Call

abbrev pub after {ℓ} : {A : Type ℓ} → RealmState → Result (A × RealmState) → RealmState
after s (ok (a, t)) = t
after s err = s

abbrev pub after_batch : RealmState → Result RealmState → RealmState
after_batch s (ok t) = t
after_batch s err = s

unfoldable pub step : Call → RealmState → RealmState
step (creates name p) s = after s (create_resource_type name p s)
step (updates id name p) s = after s (update_resource_type id name p s)
step (deletes id) s = after s (delete_resource_type id s)
step (batches o) s = after_batch s (batch_resource_types o s)
step (creates_action name) s = after s (create_action name s)
step (updates_action id name) s = after s (update_action id name s)
step (deletes_action id) s = after s (delete_action id s)
step reads s = (get_realm_map s).1

unfoldable pub run : List Call → RealmState → RealmState
run [] s = s
run (c ∷ cs) s = run cs (step c s)

-- A hash that is populated of the rows, or was there.
get_realm_map-Inv : (s : RealmState) → Inv s → Inv (get_realm_map s).1
unfolding get_realm_map
get_realm_map-Inv s v = kept s.hash refl
  where
    populated :
        (h : Option (List Entry))
        → h ≡ none
        → AgreesWith (row_value s) (populate_if_absent (mapping_of s) h)
    populated h cold = rw cold (λ k. find-mapping_of k s)

    kept : (h : Option (List Entry)) → s.hash ≡ h → Inv (looked_up (mapping_of s) h s).1
    kept none cold = record {
      distinct = v.distinct;
      below = v.below;
      agrees = populated s.hash cold;
    }
    kept (some hash) warm = v

-- The actions of a realm without a hash do not matter.
create_action-Inv :
    (name : String) (s : RealmState) (out : Action × RealmState)
    → create_action name s ≡ ok out
    → Inv s
    → Inv out.1
unfolding create_action
create_action-Inv name s out h v =
    let (found, looked, done) =
      ok_of_bind (one_or_none (where_true (has_action_name name) s.actions)) _ out h in
    rw (← ok_injective _ out done) (either found)
  where
    either : (found : Option Action) → Inv (create_action_found name s found).1
    either none = record { distinct = v.distinct; below = v.below; agrees = tt }
    either (some a) = v

write_action-Inv :
    (new : Action) (s out : RealmState)
    → write_action new s ≡ ok out
    → Inv s
    → Inv (invalidate_realm out)
write_action-Inv new s out h v = elim (Bool-cases (any (is_taken new) s.actions)) [
  | inl taken ↦ err_absurd out (rw taken at h)
  | inr free ↦
      rw (← ok_injective _ out (rw free at h))
        record { distinct = v.distinct; below = v.below; agrees = tt }
]

update_action-Inv :
    (id : ℕ) (name : Option String) (s : RealmState) (out : Option Action × RealmState)
    → update_action id name s ≡ ok out
    → Inv s
    → Inv out.1
unfolding update_action
update_action-Inv id name s out h v =
    let (found, looked, done) =
      ok_of_bind (one_or_none (where_true (has_action_id id) s.actions)) _ out h in
    either found done
  where
    either : (found : Option Action) → update_action_found name s found ≡ ok out → Inv out.1
    either none done = rw (← ok_injective _ out done) v
    either (some a) done =
        let (w, written, end) = ok_of_bind (write_action (renamed name a) s) _ out done in
        rw (← ok_injective _ out end) (write_action-Inv (renamed name a) s w written v)

delete_action-Inv :
    (id : ℕ) (s : RealmState) (out : Bool × RealmState)
    → delete_action id s ≡ ok out
    → Inv s
    → Inv out.1
unfolding delete_action
delete_action-Inv id s out h v =
    let (found, looked, done) =
      ok_of_bind (one_or_none (where_true (has_action_id id) s.actions)) _ out h in
    rw (← ok_injective _ out done) (either found)
  where
    either : (found : Option Action) → Inv (delete_action_found s found).1
    either none = v
    either (some a) = record { distinct = v.distinct; below = v.below; agrees = tt }

-- A call that may raise.
after-Inv {ℓ} :
    {A : Type ℓ} (s : RealmState) (r : Result (A × RealmState))
    → Inv s
    → ((out : A × RealmState) → r ≡ ok out → Inv out.1)
    → Inv (after s r)
after-Inv s (ok out) v k = k out refl
after-Inv s err v k = v

step-Inv : (c : Call) (s : RealmState) → Inv s → Inv (step c s)
unfolding step
step-Inv (creates name p) s v = after-Inv s _ v λ out h. create_resource_type-Inv name p s out h v
step-Inv (updates id name p) s v =
    after-Inv s _ v λ out h. update_resource_type-Inv id name p s out h v
step-Inv (deletes id) s v = after-Inv s _ v λ out h. delete_resource_type-Inv id s out h v
step-Inv (batches o) s v = after_batch-Inv (batch_resource_types o s) refl
  where
    after_batch-Inv : (r : Result RealmState) → batch_resource_types o s ≡ r → Inv (after_batch s r)
    after_batch-Inv (ok out) h = batch_resource_types-Inv o s out h v
    after_batch-Inv err h = v
step-Inv (creates_action name) s v = after-Inv s _ v λ out h. create_action-Inv name s out h v
step-Inv (updates_action id name) s v = after-Inv s _ v λ out h. update_action-Inv id name s out h v
step-Inv (deletes_action id) s v = after-Inv s _ v λ out h. delete_action-Inv id s out h v
step-Inv reads s v = get_realm_map-Inv s v

pub run-Inv : (cs : List Call) (s : RealmState) → Inv s → Inv (run cs s)
unfolding run
run-Inv [] s v = v
run-Inv (c ∷ cs) s v = run-Inv cs (step c s) (step-Inv c s v)

-- From a realm in which no two types have one name or one id, every id of a type is below the next one,
-- and the hash, if there is one, answers every key as a mapping made of the rows would: after any calls
-- of `ResourceTypeService`, of `create_action`, `update_action` and `delete_action`, and of
-- `get_realm_map`, those that raise included, the realm map that is read answers every key as a mapping
-- made anew of the rows would, whether it comes from the hash or not.
pub run-map :
    (cs : List Call) (k : String) (s : RealmState)
    → Inv s
    → find k (get_realm_map (run cs s)).0 ≡ find k (mapping_of (run cs s))
unfolding get_realm_map
run-map cs k s v = answer (run cs s).hash refl (run-Inv cs s v).agrees
  where
    answer :
        (h : Option (List Entry))
        → (run cs s).hash ≡ h
        → AgreesWith (row_value (run cs s)) h
        → find k (looked_up (mapping_of (run cs s)) h (run cs s)).0 ≡ find k (mapping_of (run cs s))
    answer none cold a = ap (λ h. find k (or_mapping h (mapping_of (run cs s)))) cold
    answer (some hash) warm a = a k ∙ sym (find-mapping_of k (run cs s))
