-- ===== src/Auth/Access/Grants.antt =====
-- The loop of `_process_access_item_with_preresolved` of common/application/auth_service.py over the
-- rows for the whole type.
use stateful_abac_policy_eng.Prelude.{
  Every, String, Bool, true, false, ◌||◌, Option, none, some, List, [], ◌∷◌, ◌++◌, ◌≡◌, refl, ap,
  ◌∙◌, Result, ok, err, if◌then◌else◌, ap₂, Bool-cases, inl, inr, any,
}
use stateful_abac_policy_eng.Json.{Json}
use stateful_abac_policy_eng.Policy.{Acl, Resource}
use stateful_abac_policy_eng.Auth.Access.{or_next, row_grants, any_grants, is_blank}

pub or_next-ok : (a b : Bool) → or_next (ok a) (ok b) ≡ ok (a || b)
or_next-ok true b = refl
or_next-ok false b = refl

pub or_next-false :
    (r rest : Result Bool) → or_next r rest ≡ ok false → (r ≡ ok false) × (rest ≡ ok false)
or_next-false (ok true) rest h = cc
or_next-false (ok false) rest h = (refl, h)
or_next-false err rest h = cc

-- A row for the whole type grants if it is empty or true by itself.
abbrev pub grants_by : (String → Bool) → Option String → Bool
grants_by holds none = true
grants_by holds (some sql) = is_blank sql || holds sql

-- a clause that is not blank gives `holds` by itself
abbrev pub Evaluates :
    (String → Json → Result Bool) → Json → (String → Bool) → Option String → Type 0
Evaluates eval ctx holds clause =
    (sql : String) → clause ≡ some sql → is_blank sql ≡ false → eval sql ctx ≡ ok (holds sql)

module _ (run : String → Json → Resource → Result (Option Bool))
    (eval : String → Json → Result Bool) (ctx : Json) where
  -- Where no evaluation raises, the loop finds out whether some row grants.
  row_grants-holds :
      (holds : String → Bool) (clause : Option String)
      → Evaluates eval ctx holds clause
      → row_grants run eval ctx clause ≡ ok (grants_by holds clause)
  row_grants-holds holds none evaluates = refl
  row_grants-holds holds (some sql) evaluates = elim (Bool-cases (is_blank sql)) [
    | inl blank ↦ rw blank refl
    | inr filled ↦ rw filled (evaluates sql refl filled)
  ]

  pub any_grants-any :
      (holds : String → Bool) (rows : List Acl)
      → Every (λ a. Evaluates eval ctx holds a.compiled_sql) rows
      → any_grants run eval ctx rows ≡ ok (any (λ a. grants_by holds a.compiled_sql) rows)
  any_grants-any holds [] evaluate = refl
  any_grants-any holds (a ∷ rows) (evaluates, later) =
      ap₂ or_next (row_grants-holds holds a.compiled_sql evaluates)
        (any_grants-any holds rows later)
      ∙ or_next-ok (grants_by holds a.compiled_sql) (any (λ b. grants_by holds b.compiled_sql) rows)

  -- Rows that do not grant are passed over.
  any_grants-append :
      (before rows : List Acl)
      → any_grants run eval ctx before ≡ ok false
      → any_grants run eval ctx (before ++ rows) ≡ any_grants run eval ctx rows
  any_grants-append [] rows h = refl
  any_grants-append (a ∷ before) rows h =
      let (here, later) =
        or_next-false (row_grants run eval ctx a.compiled_sql) (any_grants run eval ctx before) h in
      rw here (any_grants-append before rows later)

  pub any_grants-raises :
      (before rows : List Acl) (a : Acl) (sql : String)
      → any_grants run eval ctx before ≡ ok false
      → a.compiled_sql ≡ some sql
      → is_blank sql ≡ false
      → eval sql ctx ≡ err
      → any_grants run eval ctx (before ++ a ∷ rows) ≡ err
  any_grants-raises before rows a sql passed clause filled raises =
      any_grants-append before (a ∷ rows) passed
      ∙ ap (λ o. or_next (row_grants run eval ctx o) (any_grants run eval ctx rows)) clause
      ∙ ap (λ b. or_next (if b then ok true else eval sql ctx) (any_grants run eval ctx rows))
          filled
      ∙ ap (λ r. or_next r (any_grants run eval ctx rows)) raises
