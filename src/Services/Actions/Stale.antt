-- ===== src/Services/Actions/Stale.antt =====
-- `batch_actions` and the map that it leaves in Redis.
use stateful_abac_policy_eng.Prelude.{
  String, Bool, Option, none, some, List, [], ◌∷◌, ◌≡◌, refl, sym, ap, ◌∙◌, ok, ok_of_bind,
  ok_injective, where_true, any, Bool-cases, inl, inr, err_absurd,
}
use stateful_abac_policy_eng.Policy.{Action}
use stateful_abac_policy_eng.Auth.{Entry, resolve_ids}
use stateful_abac_policy_eng.RealmCache.{RealmState, get_realm_map-some, get_realm_map}
use stateful_abac_policy_eng.Services.Acls.Rows.{one_or_none}
use stateful_abac_policy_eng.Services.Actions.{
  ActionUpdate, BatchActions, batch_actions, create_actions, update_actions, insert_found,
  update_one, write_found, write_action, selected, renamed, is_taken, has_name,
}

insert_found-hash :
    (name : String) (s : RealmState) (found : Option Action)
    → (insert_found name s found).hash ≡ s.hash
insert_found-hash name s none = refl
insert_found-hash name s (some existing) = refl

create_actions-hash :
    (names : List String) (s out : RealmState) → create_actions names s ≡ ok out → out.hash ≡ s.hash
create_actions-hash [] s out h = ap (λ t. t.hash) (sym (ok_injective _ out h))
create_actions-hash (name ∷ rest) s out h =
    let (found, looked, later) =
      ok_of_bind (one_or_none (where_true (has_name name) s.actions)) _ out h in
    create_actions-hash rest (insert_found name s found) out later ∙ insert_found-hash name s found

write_action-hash :
    (new : Action) (s out : RealmState) → write_action new s ≡ ok out → out.hash ≡ s.hash
write_action-hash new s out h = elim (Bool-cases (any (is_taken new) s.actions)) [
  | inl taken ↦ err_absurd out (rw taken at h)
  | inr free ↦ ap (λ t. t.hash) (sym (ok_injective _ out (rw free at h)))
]

write_found-hash :
    (item : ActionUpdate) (s out : RealmState) (found : Option Action)
    → write_found item s found ≡ ok out
    → out.hash ≡ s.hash
write_found-hash item s out none h = ap (λ t. t.hash) (sym (ok_injective _ out h))
write_found-hash item s out (some a) h = write_action-hash (renamed item.name a) s out h

update_one-hash :
    (item : ActionUpdate) (s out : RealmState) (test : Option (Action → Bool))
    → update_one item s test ≡ ok out
    → out.hash ≡ s.hash
update_one-hash item s out none h = ap (λ t. t.hash) (sym (ok_injective _ out h))
update_one-hash item s out (some test) h =
    let (found, looked, later) = ok_of_bind (one_or_none (where_true test s.actions)) _ out h in
    write_found-hash item s out found later

update_actions-hash :
    (items : List ActionUpdate) (s out : RealmState)
    → update_actions items s ≡ ok out
    → out.hash ≡ s.hash
update_actions-hash [] s out h = ap (λ t. t.hash) (sym (ok_injective _ out h))
update_actions-hash (item ∷ rest) s out h =
    let (t, one, later) = ok_of_bind (update_one item s (selected item.id item.name)) _ out h in
    update_actions-hash rest t out later ∙ update_one-hash item s t (selected item.id item.name) one

-- If the realm map is cached, then whatever a batch creates, renames or deletes, every pair of names is
-- resolved after it as it was before it.
pub batch_actions-stale :
    (o : BatchActions) (s out : RealmState) (hash : List Entry) (action_name type_name : String)
    → s.hash ≡ some hash
    → batch_actions o s ≡ ok out
    → resolve_ids (get_realm_map out).0 action_name type_name
      ≡ resolve_ids (get_realm_map s).0 action_name type_name
unfolding batch_actions
batch_actions-stale o s out hash action_name type_name cached h =
    let (created, made, h₁) = ok_of_bind (create_actions o.create s) _ out h in
    let (written, changed, done) = ok_of_bind (update_actions o.update created) _ out h₁ in
    let kept : out.hash ≡ s.hash =
      ap (λ t. t.hash) (sym (ok_injective _ out done))
      ∙ update_actions-hash o.update created written changed
      ∙ create_actions-hash o.create s created made in
    rw (get_realm_map-some out hash (kept ∙ cached), get_realm_map-some s hash cached) refl
