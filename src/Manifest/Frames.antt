-- ===== src/Manifest/Frames.antt =====
-- common/application/manifest_service.py, `apply_manifest`: the sections that leave types, actions and
-- principals as they are.
use stateful_abac_policy_eng.Prelude.{
  ℕ, ◌+◌, ◌%◌, ◌==◌, String, Option, none, some, List, [], ◌∷◌, length, Result, ok, err, ◌>>=◌,
  Bool-cases, Result-cases, inl, inr, any, not, ◌&&◌, eq_text,
}
use stateful_abac_policy_eng.Json.{Json}
use stateful_abac_policy_eng.Policy.{ResourceType}
use stateful_abac_policy_eng.Services.Acls.Rows.{RuleKey, passes_check, violates_index, column_of}
use stateful_abac_policy_eng.Manifest.{RoleItem, ResourceItem, AclItem}
use stateful_abac_policy_eng.Manifest.Tables.{
  RoleRow, Tables, Counts, no_counts, last_where, last_named, commit, Run,
}
use stateful_abac_policy_eng.Manifest.Sections.{
  insert_role, insert_roles, update_role, RoleLoop, sort_role, sort_roles, apply_roles,
  count_created,
}
use stateful_abac_policy_eng.Manifest.Bulk.{
  Statements, TypeGroup, Update, bulk_update, update_rows, insert_batch, add_resource, is_used,
  sent_values, insert_values, sent_updates, run_update, or_raised, committed_at, bulk_insert,
  batches, batch_size, write_sorted, sort_items, apply_group, apply_groups, apply_resources,
  group_items,
}
use stateful_abac_policy_eng.Manifest.Rules.{
  apply_rule, apply_rules, apply_acls, insert_rule, key_of_item, conditions_of, rolled_back,
  type_id_of, action_id_of,
}
use stateful_abac_policy_eng.Manifest.Sound.{
  IsSoundRealm, AtEnd, AtEnd-bind, AfterRun, AfterRun-then_run, AfterRun-commit,
}

insert_roles-IsSound :
    (items : List RoleItem) (t : Tables) → IsSoundRealm t → IsSoundRealm (insert_roles items t)
insert_roles-IsSound [] t v = v
insert_roles-IsSound (item ∷ items) t v = insert_roles-IsSound items (insert_role item t) v

update_role-IsSound :
    (attributes : Option Json) (role : RoleRow) (t : Tables)
    → IsSoundRealm t
    → IsSoundRealm (update_role attributes role t)
update_role-IsSound none role t v = v
update_role-IsSound (some attributes) role t v = v

sort_role-IsSound :
    (item : RoleItem) (l : RoleLoop) (found : Option RoleRow)
    → IsSoundRealm l.tables
    → IsSoundRealm (sort_role item l found).tables
sort_role-IsSound item l none v = v
sort_role-IsSound item l (some role) v = update_role-IsSound item.attributes role l.tables v

sort_roles-IsSound :
    (existing : List RoleRow) (items : List RoleItem) (l : RoleLoop)
    → IsSoundRealm l.tables
    → IsSoundRealm (sort_roles existing items l).tables
unfolding sort_roles
sort_roles-IsSound existing [] l v = v
sort_roles-IsSound existing (item ∷ items) l v =
    let found = last_where (λ r. eq_text r.name item.name) existing in
    sort_roles-IsSound existing items (sort_role item l found) (sort_role-IsSound item l found v)

pub apply_roles-IsSound :
    (items : List RoleItem) (t : Tables) → IsSoundRealm t → IsSoundRealm (apply_roles items t).1
unfolding apply_roles
apply_roles-IsSound items t v =
    let start : RoleLoop = record { counts = no_counts; new_roles = []; tables = t } in
    let l = sort_roles t.roles items start in
    insert_roles-IsSound l.new_roles l.tables (sort_roles-IsSound t.roles items start v)

-- ---- resources
committed_at-IsSound :
    (i : ℕ) (kept t : Tables)
    → IsSoundRealm kept
    → IsSoundRealm t
    → IsSoundRealm (committed_at i kept t)
committed_at-IsSound i kept t k v = elim (Bool-cases ((i + batch_size) % 50000 == 0)) [
  | inl now ↦ rw now v
  | inr later ↦ rw later k
]

module _ (db : Statements) where
  AfterRun-or_raised :
      (sent : Result (List Update)) (kept t : Tables) (next : Tables → Run (Unit {0}))
      → IsSoundRealm kept
      → IsSoundRealm t
      → ((u : Tables) → IsSoundRealm u → AfterRun IsSoundRealm (next u))
      → AfterRun IsSoundRealm (or_raised (run_update sent t) kept next)
  AfterRun-or_raised err kept t next k v later = k
  AfterRun-or_raised (ok us) kept t next k v later =
      later (record t { resources = update_rows us t.resources }) v

  bulk_update-IsSound :
      (bs : List (List Update)) (i : ℕ) (kept t : Tables)
      → IsSoundRealm kept
      → IsSoundRealm t
      → AfterRun IsSoundRealm (bulk_update db bs i kept t)
  unfolding bulk_update
  bulk_update-IsSound [] i kept t k v = v
  bulk_update-IsSound (us ∷ bs) i kept t k v =
      AfterRun-or_raised (sent_updates db us) kept t
        (λ u. bulk_update db bs (i + batch_size) (committed_at i kept u) u) k v
        (λ u w.
          bulk_update-IsSound bs (i + batch_size) (committed_at i kept u) u
            (committed_at-IsSound i kept u k w) w)

  AtEnd-values :
      (item : ResourceItem) (type_id : ℕ) (c : Counts) (t : Tables)
      (next : Counts → Tables → Result (Counts × Tables))
      → IsSoundRealm t
      → ((d : Counts) (u : Tables) → IsSoundRealm u → AtEnd IsSoundRealm (next d u))
      → AtEnd IsSoundRealm
          (sent_values db item >>= λ w. insert_values w type_id t >>= λ u. next (count_created c) u)
  AtEnd-values item type_id c t next v later = elim (Result-cases (sent_values db item)) [
    | inl fails ↦ rw fails tt
    | inr (w, sent) ↦
        rw sent (elim (Bool-cases (any (is_used type_id w.external_id) t.external_ids)) [
          | inl used ↦ rw used tt
          | inr free ↦ rw free (later (count_created c) (add_resource w type_id t) v)
        ])
  ]

  insert_batch-IsSound :
      (items : List ResourceItem) (type_id : ℕ) (c : Counts) (t : Tables)
      → IsSoundRealm t
      → AtEnd IsSoundRealm (insert_batch db items type_id c t)
  unfolding insert_batch
  insert_batch-IsSound [] type_id c t v = v
  insert_batch-IsSound (item ∷ items) type_id c t v =
      AtEnd-values item type_id c t (λ d u. insert_batch db items type_id d u) v
        (λ d u w. insert_batch-IsSound items type_id d u w)

  bulk_insert-IsSound :
      (bs : List (List ResourceItem)) (type_id : ℕ) (c : Counts) (t : Tables)
      → IsSoundRealm t
      → AfterRun IsSoundRealm (bulk_insert db bs type_id c t)
  unfolding bulk_insert
  bulk_insert-IsSound [] type_id c t v = v
  bulk_insert-IsSound (b ∷ bs) type_id c t v =
      AfterRun-then_run IsSoundRealm (commit t (insert_batch db b type_id c t))
        (λ d u. bulk_insert db bs type_id d u)
        (AfterRun-commit IsSoundRealm t (insert_batch db b type_id c t) v
          (insert_batch-IsSound b type_id c t v))
        (λ d u w. bulk_insert-IsSound bs type_id d u w)

  apply_group-IsSound :
      (g : TypeGroup) (c : Counts) (t : Tables) (found : Option ResourceType)
      → IsSoundRealm t
      → AfterRun IsSoundRealm (apply_group db g c t found)
  unfolding apply_group write_sorted
  apply_group-IsSound g c t none v = v
  apply_group-IsSound g c t (some rt) v =
      let s = sort_items g.items rt.id t (record { counts = c; updates = []; news = [] }) in
      let us = batches (length s.updates) batch_size s.updates in
      AfterRun-then_run IsSoundRealm (bulk_update db us 0 t t)
        (λ _ u. bulk_insert db (batches (length s.news) batch_size s.news) rt.id s.counts u)
        (bulk_update-IsSound us 0 t t v v)
        (λ _ u w.
          bulk_insert-IsSound (batches (length s.news) batch_size s.news) rt.id s.counts u w)

  apply_groups-IsSound :
      (gs : List TypeGroup) (types : List ResourceType) (c : Counts) (t : Tables)
      → IsSoundRealm t
      → AfterRun IsSoundRealm (apply_groups db gs types c t)
  unfolding apply_groups
  apply_groups-IsSound [] types c t v = v
  apply_groups-IsSound (g ∷ gs) types c t v =
      let found = last_named (λ rt. rt.name) g.type_name types in
      AfterRun-then_run IsSoundRealm (apply_group db g c t found)
        (λ d u. apply_groups db gs types d u) (apply_group-IsSound g c t found v)
        (λ d u w. apply_groups-IsSound gs types d u w)

  pub apply_resources-IsSound :
      (items : List ResourceItem) (t : Tables)
      → IsSoundRealm t
      → AfterRun IsSoundRealm (apply_resources db items t)
  unfolding apply_resources
  apply_resources-IsSound items t v =
      apply_groups-IsSound (group_items items []) t.types no_counts t v

-- ---- rules
module _ (compile : Option Json → Result (Option String)) where
  insert_rule-IsSound :
      (k : RuleKey) (conditions : Option Json) (t : Tables) (c : Counts)
      → IsSoundRealm t
      → AtEnd IsSoundRealm (insert_rule compile k conditions t >>= λ u. ok (count_created c, u))
  insert_rule-IsSound k conditions t c v = elim (Result-cases (compile (column_of conditions))) [
    | inl fails ↦ rw fails tt
    | inr (sql, compiled) ↦
        elim (Bool-cases
          (passes_check k.principal_id k.role_id && not (any (violates_index k) t.acls))) [
            | inl passed ↦ rw compiled (rw passed v)
            | inr off ↦ rw compiled (rw off tt)
          ]
  ]

  apply_rule-IsSound :
      (item : AclItem) (c : Counts) (t : Tables) (type_id action_id : Option ℕ)
      → IsSoundRealm t
      → AtEnd IsSoundRealm (apply_rule compile item c t type_id action_id)
  apply_rule-IsSound item c t (some type_id) (some action_id) v =
      insert_rule-IsSound (key_of_item item type_id action_id t) (conditions_of item.conditions) t c
        v
  apply_rule-IsSound item c t none action_id v = v
  apply_rule-IsSound item c t (some type_id) none v = v

  apply_rules-IsSound :
      (items : List AclItem) (c : Counts) (t : Tables)
      → IsSoundRealm t
      → AtEnd IsSoundRealm (apply_rules compile items c t)
  unfolding apply_rules
  apply_rules-IsSound [] c t v = v
  apply_rules-IsSound (item ∷ items) c t v =
      let type_id = type_id_of item.resource_type t in
      let action_id = action_id_of item.action t in
      AtEnd-bind IsSoundRealm (apply_rule compile item c t type_id action_id)
        (λ out. apply_rules compile items out.0 out.1)
        (apply_rule-IsSound item c t type_id action_id v) (λ d u w. apply_rules-IsSound items d u w)

  rolled_back-IsSound :
      (t : Tables) (r : Result (Counts × Tables))
      → IsSoundRealm t
      → AtEnd IsSoundRealm r
      → IsSoundRealm (rolled_back t r).1
  rolled_back-IsSound t err v w = v
  rolled_back-IsSound t (ok (c, u)) v w = w

  pub apply_acls-IsSound :
      (items : List AclItem) (t : Tables)
      → IsSoundRealm t
      → IsSoundRealm (apply_acls compile items t).1
  unfolding apply_acls
  apply_acls-IsSound items t v =
      rolled_back-IsSound t (apply_rules compile items no_counts t) v
        (apply_rules-IsSound items no_counts t v)
