-- ===== src/Auth/Access/Listed.antt =====
-- Which external ids an answer lists.
use stateful_abac_policy_eng.Prelude.{
  ℕ, String, Bool, true, false, Option, some, List, [], ◌∷◌, ◌++◌, ◌==◌, ◌≡◌, refl, ap, sym, ◌∙◌,
  arith, Result, ok, Bool-cases, Option-cases, inl, inr, ==_iff, eq_text, eq_iff, mem_id, mem_text,
  mem_text-append, or-true, or-false, where_true, ok_injective, ok_of_bind,
}
use stateful_abac_policy_eng.Json.{Json}
use stateful_abac_policy_eng.Policy.{Resource}
use stateful_abac_policy_eng.Policy.Resources.{get_authorized_resources}
use stateful_abac_policy_eng.Auth.{Ids, resolve_ids}
use stateful_abac_policy_eng.Auth.Roles.{is_empty}
use stateful_abac_policy_eng.Auth.Decisions.{CachedDecision}
use stateful_abac_policy_eng.Auth.Externals.{Mapping, mapped_id}
use stateful_abac_policy_eng.Auth.Access.{
  Request, AccessRequestItem, Outcome, Answer, allowed, ids, id_list, Mapped, put, add_mapping,
  map_externals, no_mapping, external_of, externals_of_ids, distinct_ids, final_outcome, by_sql,
  final_answer, finish_sql, answer_of, uncached, process_access_item, is_public_type, query_of,
  resource_filter,
}
use stateful_abac_policy_eng.Auth.Access.Chunks.{mem_id-distinct_ids}

-- an item that asks for the list of those of its external ids that are authorized
abbrev pub list_item : String → String → String → List String → AccessRequestItem
list_item action_name type_name e es = record {
  action_name = action_name;
  resource_type_name = type_name;
  return_type = id_list;
  external_resource_ids = e ∷ es;
}

abbrev pub listed : Answer → List String
listed (allowed b) = []
listed (ids names) = names

mem_text_first : (s : String) (ss : List String) → mem_text s (s ∷ ss) ≡ true
mem_text_first s ss = ground (arith, eq_iff s s)

mem_id_first : (n : ℕ) (ns : List ℕ) → mem_id n (n ∷ ns) ≡ true
mem_id_first n ns = rw ((==_iff n n).1 refl) refl

only_text : (t s : String) → mem_text s (t ∷ []) ≡ true → t ≡ s
only_text t s h = (eq_iff t s).0 (sym (or-false (eq_text t s)) ∙ h)

later_text :
    (s : String) (ss ts : List String)
    → mem_text s ss ≡ false
    → mem_text s (ss ++ ts) ≡ true
    → mem_text s ts ≡ true
later_text s ss ts no_first h = ground (arith, mem_text-append s ss ts)

mem_id-kept :
    (n : ℕ) (test : ℕ → Bool) (ns : List ℕ) → mem_id n (where_true test ns) ≡ true → test n ≡ true
mem_id-kept n test [] h = cc
mem_id-kept n test (m ∷ ns) h = elim (Bool-cases (test m)) [
  | inl good ↦ elim (Bool-cases (m == n)) [
    | inl same ↦ sym (ap test ((==_iff m n).0 same)) ∙ good
    | inr other ↦ mem_id-kept n test ns (rw (good, other) at h)
  ]
  | inr bad ↦ mem_id-kept n test ns (rw bad at h)
]

module _ (known : List Mapping) (asked : List String) where
  -- Every pair of the dict is a requested external id with the resource it names.
  abbrev Faithful : List Mapping → Type 0
  Faithful [] = Unit
  Faithful (n ∷ ns) =
      ((mapped_id known n.external_id ≡ some n.resource_id) × (mem_text n.external_id asked ≡ true))
      × Faithful ns

  put-Faithful :
      (id : ℕ) (e : String) (m : List Mapping)
      → mapped_id known e ≡ some id
      → mem_text e asked ≡ true
      → Faithful m
      → Faithful (put id e m)
  put-Faithful id e [] known_as there h = ((known_as, there), tt)
  put-Faithful id e (n ∷ ns) known_as there h = elim (Bool-cases (n.resource_id == id)) [
    | inl same ↦ rw same ((known_as, there), h.1)
    | inr other ↦ rw other (h.0, put-Faithful id e ns known_as there h.1)
  ]

  add_mapping-Faithful :
      (e : String) (m : Mapped)
      → mem_text e asked ≡ true
      → Faithful m.external_map
      → Faithful (add_mapping (mapped_id known e) e m).external_map
  add_mapping-Faithful e m there h = elim (Option-cases (mapped_id known e)) [
    | inl unknown ↦ rw unknown h
    | inr (id, known_as) ↦ rw known_as (put-Faithful id e m.external_map known_as there h)
  ]

  map_externals-Faithful :
      (es : List String) (m : Mapped)
      → ((s : String) → mem_text s es ≡ true → mem_text s asked ≡ true)
      → Faithful m.external_map
      → Faithful (map_externals known es m).external_map
  unfolding map_externals
  map_externals-Faithful [] m within h = h
  map_externals-Faithful (e ∷ es) m within h =
      map_externals-Faithful es (add_mapping (mapped_id known e) e m)
        (λ s there. within s (rw there (or-true (eq_text e s))))
        (add_mapping-Faithful e m (within e (mem_text_first e es)) h)

  -- an external id that was asked for and names the resource
  abbrev pub Asked : String → ℕ → Type 0
  Asked s id = (mem_text s asked ≡ true) × (mapped_id known s ≡ some id)

  external_of-Asked :
      (m : List Mapping) (id : ℕ) (s : String)
      → Faithful m
      → mem_text s (external_of m id) ≡ true
      → Asked s id
  external_of-Asked [] id s h there = cc
  external_of-Asked (n ∷ ns) id s h there = elim (Bool-cases (n.resource_id == id)) [
    | inl same ↦
        let is_n : n.external_id ≡ s = only_text n.external_id s (rw same at there) in
        rw (← is_n) (h.0.1, h.0.0 ∙ ap some ((==_iff n.resource_id id).0 same))
    | inr other ↦ external_of-Asked ns id s h.1 (rw other at there)
  ]

  externals_of_ids-Asked :
      (m : List Mapping) (valid : List ℕ) (s : String)
      → Faithful m
      → mem_text s (externals_of_ids m valid) ≡ true
      → (id : ℕ) × (mem_id id valid ≡ true) × Asked s id
  externals_of_ids-Asked m [] s h there = cc
  externals_of_ids-Asked m (id ∷ valid) s h there =
      elim (Bool-cases (mem_text s (external_of m id))) [
        | inl here ↦ (id, mem_id_first id valid, external_of-Asked m id s h here)
        | inr later ↦
            let (i, valid_i, asked_i) =
              externals_of_ids-Asked m valid s h (later_text s _ _ later there) in
            (i, rw valid_i (or-true (id == i)), asked_i)
      ]

module _ (run : String → Json → Resource → Result (Option Bool))
    (eval : String → Json → Result Bool) (action_name type_name e : String) (es : List String) where
  abbrev item : AccessRequestItem
  item = list_item action_name type_name e es

  abbrev pub mapped : Request → Mapped
  mapped req = map_externals req.type_mappings (e ∷ es) no_mapping

  mapped-Faithful : (req : Request) → Faithful req.type_mappings (e ∷ es) (mapped req).external_map
  mapped-Faithful req =
      map_externals-Faithful req.type_mappings (e ∷ es) (e ∷ es) no_mapping (λ s there. there) tt

  -- Every external id of the list was asked for and names a resource of the rows.
  abbrev pub FromRows : Request → List ℕ → Answer → Type 0
  FromRows req rows answer =
      (s : String)
      → mem_text s (listed answer) ≡ true
      → (id : ℕ) × (mem_id id rows ≡ true) × Asked req.type_mappings (e ∷ es) s id

  -- the list, which no fallback follows
  abbrev pub id_answer : Request → Ids → List ℕ → Answer
  id_answer req found rows =
      answer_of id_list (final_answer run eval req item found (mapped req) (distinct_ids rows))

  final-FromRows :
      (req : Request) (found : Ids) (cache : List CachedDecision) (rows : List ℕ)
      → FromRows req rows
          (final_outcome run eval req item found cache
            (mapped req)
            (distinct_ids rows)
            (id_answer req found rows)).result.answer
  final-FromRows req found cache rows s there =
      let valid = where_true (λ id. mem_id id (distinct_ids rows)) (mapped req).filter_ids in
      let (id, is_valid, asked) =
        externals_of_ids-Asked req.type_mappings (e ∷ es) (mapped req).external_map valid s
          (mapped-Faithful req) there in
      (
        id,
        sym (mem_id-distinct_ids id rows)
            ∙ mem_id-kept id (λ i. mem_id i (distinct_ids rows)) (mapped req).filter_ids is_valid,
        asked,
      )

-- For an item that asks for a list and names resources of a type that is not public, at least one of
-- which is known: if the code returns, then `get_authorized_resources`, called with the known ids as its
-- filter, returned, and every external id of the answer is one of the item's and names, in the
-- mapping of the type, a resource that `get_authorized_resources` returned.
pub process_access_item-listed :
    (run : String → Json → Resource → Result (Option Bool)) (eval : String → Json → Result Bool)
    (action_name type_name e : String) (es : List String) (req : Request)
    (cache : List CachedDecision) (found : Ids) (out : Outcome)
    → resolve_ids req.realm_map action_name type_name ≡ ok found
    → is_empty (map_externals req.type_mappings (e ∷ es) no_mapping).filter_ids ≡ false
    → is_public_type run eval req (list_item action_name type_name e es) ≡ false
    → process_access_item run eval req (list_item action_name type_name e es) cache ≡ ok out
    → (rows : List ℕ) × (get_authorized_resources run req.ctx req.tables.types req.tables.resources
          req.tables.acls
          (query_of req found)
          (resource_filter (map_externals req.type_mappings (e ∷ es) no_mapping).filter_ids)
        ≡ ok rows)
      × FromRows run eval action_name type_name e es req rows out.result.answer
unfolding process_access_item uncached by_sql
process_access_item-listed run eval action_name type_name e es req cache found out resolved
      some_known closed done =
    let item = list_item action_name type_name e es in
    let m = map_externals req.type_mappings (e ∷ es) no_mapping in
    let (rows, ran, same) =
      ok_of_bind
        (get_authorized_resources run req.ctx req.tables.types req.tables.resources req.tables.acls
          (query_of req found) (resource_filter m.filter_ids))
        (λ rows. finish_sql run eval req item found cache m (distinct_ids rows)) out
        (rw (resolved, some_known, closed) at done) in
    (
      rows,
      ran,
      rw
          (← ok_injective
            (final_outcome run eval req item found cache m (distinct_ids rows)
              (id_answer run eval action_name type_name e es req found rows))
            out same)
          (final-FromRows run eval action_name type_name e es req found cache rows),
    )
