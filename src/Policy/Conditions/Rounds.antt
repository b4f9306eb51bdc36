-- ===== src/Policy/Conditions/Rounds.antt =====
-- The rounds of the loop: each adds what its group of rows lets through.
use stateful_abac_policy_eng.Prelude.{
  String, Bool, true, false, ◌&&◌, ◌||◌, not, Option, none, some, List, [], ◌∷◌, ◌++◌, ◌≡◌, refl,
  ap, ◌∙◌, sym, or-false, any, any-append, mem_text, mem_text-append, Result, ok, has_prefix,
  Bool-cases, inl, inr,
}
use stateful_abac_policy_eng.Json.{Json}
use stateful_abac_policy_eng.Resolve.{resolve_abac_condition, is_json_bool}
use stateful_abac_policy_eng.Resolve.Meaning.{meaning}
use stateful_abac_policy_eng.Resolve.Sound.{somes-append, false-means, true-means}
use stateful_abac_policy_eng.Policy.Conditions.{
  Filter, Collected, Group, is_unconditional, granted, context_refs_of, collect, handle_group,
  continue, after_resolve, is_partial,
}
use stateful_abac_policy_eng.Policy.Conditions.Allows.{
  is_true, filter_allows, condition_passes, group_passes,
}
-- the condition on the external ids that need no further condition
use stateful_abac_policy_eng.Policy.Conditions.Merged.{
  gathered, finish-allows, scoped_json, scoped-somes, scoped-passes, somes-append_list, grant_bools,
  ids_bools, skip_bools, found_bools,
}

module _ (render : Json → String) (other : String → Option String → Option Json → Option Bool)
    (attribute : String → Option String) (ctx : Json) (e : String)
    (external_id : attribute "external_id" ≡ some e) where
  abbrev pass : Json → Bool
  pass j = is_true (meaning render other attribute j)

  abbrev allows : Filter → Bool
  allows = filter_allows render other attribute ctx e

  -- What is asked of a group: its condition, if any, resolves without an exception and not to NULL,
  -- and its external ids are not spelled like references to the resource.
  abbrev pub Resolves : Option Json → Type 0
  Resolves c =
      is_unconditional c ≡ false → (j : Json) × (resolve_abac_condition render ctx c ≡ ok (some j))

  abbrev pub PlainIds : List String → Type 0
  PlainIds ids = any (has_prefix "$resource.") ids ≡ false

  module _ (refers : Json → Bool) where
    abbrev base : List Json → List String → Bool
    base js ids = any pass js || mem_text e ids

    abbrev group_ok : Group → Bool
    group_ok = group_passes render other attribute ctx e

    abbrev cond_ok : Option Json → Bool
    cond_ok = condition_passes render other attribute ctx e

    abbrev Exactly : Bool → Result Filter → Type 0
    Exactly allowed r = (f : Filter) × (r ≡ ok f) × (allows f ≡ allowed)

    abbrev loop : List Group → List Json → List String → Bool → Result Filter
    loop gs js ids refs = collect render refers ctx gs (gathered js ids refs)

    -- What the rest of the loop does, from whatever has been collected.
    abbrev RestExact : List Group → Type 0
    RestExact gs =
        (js : List Json) (ids : List String) (refs : Bool)
        → Exactly (base js ids || any group_ok gs) (loop gs js ids refs)

    module _ (g : Group) (gs : List Group) (rest : RestExact gs) (js : List Json)
        (ids : List String) (refs : Bool) where
      abbrev here : Bool
      here = base js ids || (group_ok g || any group_ok gs)

      unconditional_round :
          (valid : Bool) (res : Option Json)
          → cond_ok g.conditions ≡ true
          → (valid && is_json_bool false res) ≡ false
          → (valid && is_partial res) ≡ false
          → Exactly here (
              continue render refers ctx
                (ok (after_resolve render refers ctx g valid res (gathered js ids refs)))
                (collect render refers ctx gs))
      unconditional_round valid res true_here not_false not_partial =
          elim (Bool-cases g.is_type_level) [
            | inl whole ↦
                rw (not_false, not_partial, whole) (granted, refl, grant_bools _ _ _ true_here)
            | inr part ↦
                rw (not_false, not_partial, part)
                  (let (f, done, same) = rest js (ids ++ g.resource_ids) refs in
                    (
                      f,
                      done,
                      same ∙ ids_bools _ _ _ _ _ _ (mem_text-append e ids g.resource_ids) true_here,
                    ))
          ]

      skipped_round :
          (j : Json)
          → cond_ok g.conditions ≡ pass j
          → is_json_bool false (some j) ≡ true
          → Exactly here (
              continue render refers ctx
                (ok (after_resolve render refers ctx g true (some j) (gathered js ids refs)))
                (collect render refers ctx gs))
      skipped_round j means_j h =
          let (f, done, same) = rest js ids refs in
          rw h (
            f,
            done,
            same
                ∙ skip_bools (base js ids) (g.is_type_level || mem_text e g.resource_ids) _
                    (any group_ok gs)
                    (means_j ∙ ap is_true (false-means render other attribute j h)),
          )

      partial_round :
          (j : Json)
          → cond_ok g.conditions ≡ pass j
          → PlainIds g.resource_ids
          → is_json_bool false (some j) ≡ false
          → is_partial (some j) ≡ true
          → Exactly here (
              continue render refers ctx
                (ok (after_resolve render refers ctx g true (some j) (gathered js ids refs)))
                (collect render refers ctx gs))
      partial_round j means_j plain not_false partly = elim (Bool-cases g.is_type_level) [
        | inl whole ↦
            rw (not_false, partly, whole, means_j, somes-append js j)
              (let (f, done, same) =
                  rest (js ++ j ∷ []) ids
                    (refs || context_refs_of render refers ctx g.conditions) in
                (
                  f,
                  done,
                  same
                      ∙ found_bools (any pass js) (mem_text e ids) true (pass j) _ (any group_ok gs)
                          (any-append pass js (j ∷ [])
                            ∙ ap (λ b. any pass js || b) (or-false (pass j))),
                ))
        | inr part ↦
            rw
              (
                not_false,
                partly,
                part,
                means_j,
                scoped-somes g.resource_ids j,
                somes-append_list js (scoped_json g.resource_ids j),
              )
              (let (f, done, same) =
                  rest (js ++ scoped_json g.resource_ids j) ids
                    (refs || context_refs_of render refers ctx g.conditions) in
                (
                  f,
                  done,
                  same
                      ∙ found_bools (any pass js) (mem_text e ids) (mem_text e g.resource_ids)
                          (pass j) _ (any group_ok gs)
                          (any-append pass js (scoped_json g.resource_ids j)
                            ∙ ap (λ b. any pass js || b)
                                (scoped-passes render other attribute ctx e external_id
                                  g.resource_ids j plain)),
                ))
      ]

      abbrev RoundExact : Type 0
      RoundExact = Exactly here (
          continue render refers ctx (handle_group render refers ctx g (gathered js ids refs))
            (collect render refers ctx gs))

      handle-conditional :
          (j : Json) (c : Collected)
          → is_unconditional g.conditions ≡ false
          → resolve_abac_condition render ctx g.conditions ≡ ok (some j)
          → handle_group render refers ctx g c
            ≡ ok (after_resolve render refers ctx g true (some j) c)
      unfolding handle_group
      handle-conditional j c u answered = rw (u, answered)

      handle-unconditional :
          (c : Collected)
          → is_unconditional g.conditions ≡ true
          → handle_group render refers ctx g c ≡ ok (after_resolve render refers ctx g false none c)
      unfolding handle_group
      handle-unconditional c u = rw u

      conditional_round :
          (j : Json)
          → is_unconditional g.conditions ≡ false
          → resolve_abac_condition render ctx g.conditions ≡ ok (some j)
          → PlainIds g.resource_ids
          → RoundExact
      conditional_round j u answered plain =
          let means_j : cond_ok g.conditions ≡ pass j = rw (u, answered) in
          rw (handle-conditional j (gathered js ids refs) u answered)
            (elim (Bool-cases (is_json_bool false (some j))) [
              | inl no_pass ↦ skipped_round j means_j no_pass
              | inr maybe ↦ elim (Bool-cases (is_json_bool true (some j))) [
                | inl all ↦
                    unconditional_round true (some j)
                      (means_j ∙ ap is_true (true-means render other attribute j all)) maybe
                      (ap not all)
                | inr partly ↦ partial_round j means_j plain maybe (ap not partly)
              ]
            ])

      group_round : Resolves g.conditions → PlainIds g.resource_ids → RoundExact
      group_round resolves plain = elim (Bool-cases (is_unconditional g.conditions)) [
        | inl u ↦
            rw (handle-unconditional (gathered js ids refs) u)
              (unconditional_round false none (rw u) refl refl)
        | inr c ↦ let (j, answered) = resolves c in conditional_round j c answered plain
      ]

    abbrev pub AllSound : List Group → Type 0
    AllSound [] = Unit
    AllSound (g ∷ gs) = (Resolves g.conditions × PlainIds g.resource_ids) × AllSound gs

    pub collect-exact : (gs : List Group) → AllSound gs → RestExact gs
    unfolding collect
    collect-exact [] h js ids refs = (
      _,
      refl,
      finish-allows render other attribute ctx e external_id js ids refs
          ∙ sym (or-false (base js ids)),
    )
    collect-exact (g ∷ gs) ((resolves, plain), h) js ids refs =
        group_round g gs (collect-exact gs h) js ids refs resolves plain
