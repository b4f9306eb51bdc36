-- ===== src/Manifest/Kept.antt =====
-- common/application/manifest_service.py, `apply_manifest`: what every call keeps of the realm's rows.
use stateful_abac_policy_eng.Prelude.{
  String, Bool, true, false, Option, none, some, Result, ok, err, Result-cases, inl, inr,
}
use stateful_abac_policy_eng.Json.{Json}
use stateful_abac_policy_eng.Manifest.{Manifest, RealmItem}
use stateful_abac_policy_eng.Manifest.Tables.{Tables, no_counts, Run, done, raised, commit}
use stateful_abac_policy_eng.Manifest.Sections.{
  apply_types, apply_actions, apply_roles, apply_principals,
}
use stateful_abac_policy_eng.Manifest.Bulk.{Statements, apply_resources}
use stateful_abac_policy_eng.Manifest.Apply.{
  Mode, replace, create, update, RealmStatus, Results, Sequences, Applied, applied, stopped,
  deleted, next_keycloak, updated_realm, apply_realm, sync, has_secret, apply_sections, after_realm,
  with_realm, as_applied, apply_manifest,
}
use stateful_abac_policy_eng.Manifest.Sound.{
  IsSoundRealm, AtEnd, AfterRun, AfterRun-then_run, AfterRun-commit, apply_types-IsSound,
  apply_actions-IsSound, apply_principals-IsSound,
}
use stateful_abac_policy_eng.Manifest.Frames.{
  apply_roles-IsSound, apply_resources-IsSound, apply_acls-IsSound,
}

-- the realm, if it is there
abbrev pub IsSoundFound : Option Tables → Type 0
IsSoundFound none = Unit
IsSoundFound (some t) = IsSoundRealm t

abbrev pub IsSoundAfter : Applied → Type 0
IsSoundAfter (applied results t) = IsSoundRealm t
IsSoundAfter (stopped found) = IsSoundFound found

deleted-IsSound :
    (mode : Mode) (found : Option Tables) → IsSoundFound found → IsSoundFound (deleted mode found).1
deleted-IsSound replace none v = tt
deleted-IsSound replace (some t) v = tt
deleted-IsSound create found v = v
deleted-IsSound update found v = v

updated_realm-IsSound :
    (item : RealmItem) (t : Tables) → IsSoundRealm t → AtEnd IsSoundRealm (updated_realm item t)
updated_realm-IsSound item t v =
    elim (Result-cases (next_keycloak item.keycloak_config t.keycloak_config)) [
      | inl fails ↦ rw fails tt
      | inr (row, taken) ↦ rw taken v
    ]

apply_realm-IsSound :
    (mode : Mode) (item : RealmItem) (found : Option Tables) (s : Sequences)
    → IsSoundFound found
    → AtEnd IsSoundRealm (apply_realm mode item found s)
unfolding apply_realm
apply_realm-IsSound mode item none s v =
    elim (Result-cases (next_keycloak item.keycloak_config none)) [
      | inl fails ↦ rw fails tt
      | inr (row, taken) ↦
          rw taken (record {
            types_apart = tt;
            types_below = tt;
            actions_apart = tt;
            principals_apart = tt;
          })
    ]
apply_realm-IsSound create item (some t) s v = v
apply_realm-IsSound update item (some t) s v = updated_realm-IsSound item t v
apply_realm-IsSound replace item (some t) s v = updated_realm-IsSound item t v

module _ (compile : Option Json → Result (Option String)) (db : Statements)
    (sync_realm : Tables → Bool × Tables)
    (sync-keeps : (t : Tables) → IsSoundRealm t → IsSoundRealm (sync_realm t).1) where
  sync-IsSound :
      (secret : Option Bool) (t : Tables)
      → IsSoundRealm t
      → IsSoundRealm (sync compile db sync_realm secret t).1
  sync-IsSound none t v = v
  sync-IsSound (some false) t v = v
  sync-IsSound (some true) t v = sync-keeps t v

  apply_sections-IsSound :
      (m : Manifest) (item : RealmItem) (gone : Bool) (status : RealmStatus) (t : Tables)
      → IsSoundRealm t
      → AfterRun IsSoundRealm (apply_sections compile db sync_realm m item gone status t)
  unfolding apply_sections
  apply_sections-IsSound m item gone status t v =
      let types = apply_types m.resource_types no_counts t in
      let actions = apply_actions m.actions no_counts types.1 in
      let roles = apply_roles m.roles actions.1 in
      let written : IsSoundRealm roles.1 = apply_roles-IsSound m.roles actions.1 (
        apply_actions-IsSound m.actions no_counts types.1
          (apply_types-IsSound m.resource_types no_counts t v)) in
      AfterRun-then_run IsSoundRealm
        (commit roles.1 (apply_principals m.principals no_counts roles.1)) _
        (AfterRun-commit IsSoundRealm roles.1 (apply_principals m.principals no_counts roles.1)
          written (apply_principals-IsSound m.principals no_counts roles.1 written))
        λ principals u w.
          let synced = sync compile db sync_realm (has_secret item.keycloak_config) u in
          AfterRun-then_run IsSoundRealm (apply_resources db m.resources synced.1) _
            (apply_resources-IsSound db m.resources synced.1
              (sync-IsSound (has_secret item.keycloak_config) u w))
            λ resources x z. apply_acls-IsSound compile m.acls x z

  as_applied-IsSound :
      (r : Run Results)
      → AfterRun IsSoundRealm r
      → IsSoundAfter (as_applied compile db sync_realm r)
  as_applied-IsSound (done results t) v = v
  as_applied-IsSound (raised t) v = v

  after_realm-IsSound :
      (m : Manifest) (item : RealmItem) (gone : Bool) (found : Option Tables)
      (r : Result (RealmStatus × Tables))
      → IsSoundFound found
      → AtEnd IsSoundRealm r
      → IsSoundAfter (after_realm compile db sync_realm m item gone found r)
  unfolding after_realm
  after_realm-IsSound m item gone found err v w = v
  after_realm-IsSound m item gone found (ok (status, t)) v w =
      as_applied-IsSound (apply_sections compile db sync_realm m item gone status t)
        (apply_sections-IsSound m item gone status t w)

  with_realm-IsSound :
      (mode : Mode) (m : Manifest) (found : Option Tables) (s : Sequences)
      (realm : Option RealmItem)
      → IsSoundFound found
      → IsSoundAfter (with_realm compile db sync_realm mode m found s realm)
  unfolding with_realm
  with_realm-IsSound mode m found s none v = v
  with_realm-IsSound mode m found s (some item) v =
      let start = deleted mode found in
      let kept = deleted-IsSound mode found v in
      after_realm-IsSound m item start.0 start.1 (apply_realm mode item start.1 s) kept
        (apply_realm-IsSound mode item start.1 s kept)

  -- Whatever the manifest and the mode, and whether the call returns or raises: if before it no two
  -- types of the realm had one name or one id, every id of a type was given out by the sequence, and no
  -- two actions and no two principals had one name, then so it is after it. It is a
  -- hypothesis that the synchronisation with Keycloak keeps this.
  pub apply_manifest-IsSound :
      (mode : Mode) (m : Manifest) (found : Option Tables) (s : Sequences)
      → IsSoundFound found
      → IsSoundAfter (apply_manifest compile db sync_realm mode m found s)
  unfolding apply_manifest
  apply_manifest-IsSound mode m found s v = with_realm-IsSound mode m found s m.realm v
