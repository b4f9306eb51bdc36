-- ===== src/Auth/Externals/Table.antt =====
-- The mapping of external ids is the one of the table.
use stateful_abac_policy_eng.Prelude.{
  ℕ, String, Bool, true, false, ◌&&◌, Option, none, some, List, [], ◌∷◌, ◌++◌, ◌==◌, ◌≡◌, refl, ap,
  ap₂, sym, ◌∙◌, arith, eq_text, eq_iff, is_none, if◌then◌else◌, mem_text, where_true, Bool-cases,
  Option-cases, inl, inr, ==_iff,
}
use stateful_abac_policy_eng.Policy.{ExternalId}
use stateful_abac_policy_eng.Auth.Externals.{
  CachedExternal, Mapping, is_key, get_external_id_mapping, get_external_id_mappings_batch,
  set_external_id_mappings_batch, mapped_id, misses_of, is_missed, mappings_of, resolve_type,
}

-- the resource that the table gives an external id of the realm and type
abbrev pub stored_id : List ExternalId → ℕ → ℕ → String → Option ℕ
stored_id [] realm_id type_id e = none
stored_id (x ∷ xs) realm_id type_id e =
    let rest = stored_id xs realm_id type_id e in
    if (x.realm_id == realm_id) && (x.resource_type_id == type_id) && eq_text x.external_id e
    then some x.resource_id
    else rest

-- What is cached is what the table has.
abbrev pub Agrees : List ExternalId → List CachedExternal → Type 0
Agrees table cache =
    (realm_id type_id : ℕ) (e : String) (id : ℕ)
    → get_external_id_mapping cache realm_id type_id e ≡ some id
    → stored_id table realm_id type_id e ≡ some id

-- the first of two answers
abbrev or_else : Option ℕ → Option ℕ → Option ℕ
or_else none o = o
or_else (some id) o = some id

mapped_id-append :
    (ms ns : List Mapping) (e : String)
    → mapped_id (ms ++ ns) e ≡ or_else (mapped_id ms e) (mapped_id ns e)
mapped_id-append [] ns e = refl
mapped_id-append (m ∷ ms) ns e = elim (Bool-cases (eq_text m.external_id e)) [
  | inl here ↦ rw here refl
  | inr other ↦ rw other (mapped_id-append ms ns e)
]

if-none : (b : Bool) (o : Option ℕ) → o ≡ none → (if b then o else none) ≡ o
if-none true o h = refl
if-none false o h = sym h

batch_found :
    (cache : List CachedExternal) (realm_id type_id : ℕ) (names : List String) (e : String)
    → mapped_id (get_external_id_mappings_batch cache realm_id type_id names) e
      ≡ (if mem_text e names then get_external_id_mapping cache realm_id type_id e else none)
unfolding get_external_id_mappings_batch
batch_found cache realm_id type_id [] e = refl
batch_found cache realm_id type_id (d ∷ names) e = elim (Bool-cases (eq_text d e)) [
  | inl same ↦
      let at_e : get_external_id_mapping cache realm_id type_id d
          ≡ get_external_id_mapping cache realm_id type_id e =
        ap (get_external_id_mapping cache realm_id type_id) ((eq_iff d e).0 same) in
      elim (Option-cases (get_external_id_mapping cache realm_id type_id d)) [
        | inl absent ↦
            rw (absent, same)
              (batch_found cache realm_id type_id names e
                ∙ if-none (mem_text e names) _ (sym at_e ∙ absent))
        | inr (id, found) ↦ rw (found, same) (sym found ∙ at_e)
      ]
  | inr other ↦ elim (Option-cases (get_external_id_mapping cache realm_id type_id d)) [
    | inl absent ↦ rw (absent, other) (batch_found cache realm_id type_id names e)
    | inr (id, found) ↦ rw (found, other) (batch_found cache realm_id type_id names e)
  ]
]

mapped_id-rows :
    (table : List ExternalId) (realm_id type_id : ℕ) (misses : List String) (e : String)
    → mem_text e misses ≡ true
    → mapped_id (mappings_of (where_true (is_missed realm_id type_id misses) table)) e
      ≡ stored_id table realm_id type_id e
mapped_id-rows [] realm_id type_id misses e there = refl
mapped_id-rows (x ∷ table) realm_id type_id misses e there =
    let later = mapped_id-rows table realm_id type_id misses e there in
    elim (Bool-cases ((x.realm_id == realm_id) && (x.resource_type_id == type_id))) [
      | inl of_type ↦ elim (Bool-cases (eq_text x.external_id e)) [
        | inl same ↦
            let missed : mem_text x.external_id misses ≡ true =
              ap (λ t. mem_text t misses) ((eq_iff x.external_id e).0 same) ∙ there in
            rw (of_type, missed, same) refl
        | inr other ↦ elim (Bool-cases (mem_text x.external_id misses)) [
          | inl missed ↦ rw (of_type, missed, other) later
          | inr kept ↦ rw (of_type, kept, other) later
        ]
      ]
      | inr foreign ↦ rw foreign later
    ]

mem_text-where_true :
    (e : String) (test : String → Bool) (names : List String)
    → mem_text e names ≡ true
    → test e ≡ true
    → mem_text e (where_true test names) ≡ true
mem_text-where_true e test [] there good = cc
mem_text-where_true e test (d ∷ names) there good = elim (Bool-cases (eq_text d e)) [
  | inl same ↦ rw (ap test ((eq_iff d e).0 same) ∙ good, same) refl
  | inr other ↦
      let later = mem_text-where_true e test names (rw other at there) good in
      elim (Bool-cases (test d)) [
        | inl kept ↦ rw (kept, other) later
        | inr dropped ↦ rw dropped later
      ]
]

resolved_id :
    (table : List ExternalId) (cache : List CachedExternal) (realm_id type_id : ℕ)
    (names : List String) (e : String)
    → Agrees table cache
    → mem_text e names ≡ true
    → mapped_id (resolve_type table cache realm_id type_id names).mapping e
      ≡ stored_id table realm_id type_id e
unfolding resolve_type
resolved_id table cache realm_id type_id names e agrees there =
    let cached = get_external_id_mappings_batch cache realm_id type_id names in
    let misses = misses_of cached names in
    let rows = mappings_of (where_true (is_missed realm_id type_id misses) table) in
    let found : mapped_id cached e ≡ get_external_id_mapping cache realm_id type_id e =
      batch_found cache realm_id type_id names e ∙ rw there refl in
    mapped_id-append cached rows e ∙ elim (Option-cases (mapped_id cached e)) [
      | inl missed ↦ rw missed (
          mapped_id-rows table realm_id type_id misses e (
            mem_text-where_true e (λ d. is_none (mapped_id cached d)) names there (rw missed refl)))
      | inr (id, hit) ↦ rw hit (sym (agrees realm_id type_id e id (sym found ∙ hit)))
    ]

-- Every entry is one of the table.
abbrev AllStored : List ExternalId → ℕ → ℕ → List Mapping → Type 0
AllStored table realm_id type_id [] = Unit
AllStored table realm_id type_id (m ∷ ms) =
    (stored_id table realm_id type_id m.external_id ≡ some m.resource_id)
    × AllStored table realm_id type_id ms

three_parts : (a b c : Bool) → (a && b && c) ≡ true → (a ≡ true) × (b ≡ true) × (c ≡ true)
three_parts a b c h = ground arith

entry_for : ℕ → ℕ → Mapping → CachedExternal
entry_for realm_id type_id m = record {
  realm_id = realm_id;
  type_id = type_id;
  external_id = m.external_id;
  resource_id = m.resource_id;
}

add-Agrees :
    (table : List ExternalId) (cache : List CachedExternal) (realm_id type_id : ℕ) (m : Mapping)
    → Agrees table cache
    → stored_id table realm_id type_id m.external_id ≡ some m.resource_id
    → Agrees table (entry_for realm_id type_id m ∷ cache)
unfolding entry_for
add-Agrees table cache realm_id type_id m agrees stored r t e id found =
    elim (Bool-cases (is_key r t e (entry_for realm_id type_id m))) [
      | inl here ↦
          let (realm, type, name) =
            three_parts (realm_id == r) (type_id == t) (eq_text m.external_id e) here in
          rw
            (
              ← (==_iff realm_id r).0 realm,
              ← (==_iff type_id t).0 type,
              ← (eq_iff m.external_id e).0 name,
            )
            (stored ∙ (rw here at found))
      | inr other ↦ agrees r t e id (rw other at found)
    ]

set-Agrees :
    (table : List ExternalId) (cache : List CachedExternal) (realm_id type_id : ℕ)
    (ms : List Mapping)
    → Agrees table cache
    → AllStored table realm_id type_id ms
    → Agrees table (set_external_id_mappings_batch cache realm_id type_id ms)
unfolding set_external_id_mappings_batch entry_for
set-Agrees table cache realm_id type_id [] agrees h = agrees
set-Agrees table cache realm_id type_id (m ∷ ms) agrees h =
    set-Agrees table _ realm_id type_id ms (add-Agrees table cache realm_id type_id m agrees h.0)
      h.1

-- Each row is the one that its key finds, as the primary key has it.
abbrev pub EachStored : List ExternalId → List ExternalId → Type 0
EachStored table [] = Unit
EachStored table (x ∷ xs) =
    (stored_id table x.realm_id x.resource_type_id x.external_id ≡ some x.resource_id)
    × EachStored table xs

missed-AllStored :
    (table : List ExternalId) (realm_id type_id : ℕ) (misses : List String) (rows : List ExternalId)
    → EachStored table rows
    → AllStored table realm_id type_id
        (mappings_of (where_true (is_missed realm_id type_id misses) rows))
missed-AllStored table realm_id type_id misses [] h = tt
missed-AllStored table realm_id type_id misses (x ∷ rows) h =
    let later = missed-AllStored table realm_id type_id misses rows h.1 in
    elim (Bool-cases (is_missed realm_id type_id misses x)) [
      | inl missed ↦
          let (realm, type, _) =
            three_parts (x.realm_id == realm_id) (x.resource_type_id == type_id)
              (mem_text x.external_id misses) missed in
          rw missed (
            ap₂ (λ r t. stored_id table r t x.external_id)
                  (sym ((==_iff x.realm_id realm_id).0 realm))
                  (sym ((==_iff x.resource_type_id type_id).0 type))
                ∙ h.0,
            later,
          )
      | inr kept ↦ rw kept later
    ]

-- If the primary key of the table holds and every cached external id is cached with the resource that
-- the table gives it, then the mapping of a type has, for every external id that it was asked for,
-- the resource of the table and no other, and what is cached afterwards is again what the table has.
pub resolve_type-table :
    (table : List ExternalId) (cache : List CachedExternal) (realm_id type_id : ℕ)
    (names : List String)
    → EachStored table table
    → Agrees table cache
    → ((e : String)
        → mem_text e names ≡ true
        → mapped_id (resolve_type table cache realm_id type_id names).mapping e
          ≡ stored_id table realm_id type_id e)
      × Agrees table (resolve_type table cache realm_id type_id names).cache
unfolding resolve_type
resolve_type-table table cache realm_id type_id names keyed agrees = (
  λ e there. resolved_id table cache realm_id type_id names e agrees there,
  set-Agrees table cache realm_id type_id _ agrees (
      missed-AllStored table realm_id type_id
        (misses_of (get_external_id_mappings_batch cache realm_id type_id names) names) table
        keyed),
)
