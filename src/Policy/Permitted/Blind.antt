-- ===== src/Policy/Permitted/Blind.antt =====
-- What the rows that the function returns depend on, and whose they are.
use stateful_abac_policy_eng.Prelude.{
  ℕ, String, Bool, true, false, not, ◌&&◌, ◌||◌, Option, none, some, List, [], ◌∷◌, ◌==◌, ◌≡◌, refl,
  ap, sym, ◌∙◌, arith, is_none, is_id, if◌then◌else◌, Result, ok, err, where_true, any, any-append,
  or-true, Bool-cases, inl, inr,
}
use stateful_abac_policy_eng.Json.{Json}
use stateful_abac_policy_eng.Policy.{Acl, Action, Resource, ResourceType, Query}
use stateful_abac_policy_eng.Policy.Resources.{
  is_empty_sql, is_true_sql, is_public, in_filter, of_type,
}
use stateful_abac_policy_eng.Policy.Permitted.{
  Permitted, is_held_for_type, is_blanket, blanket_row, blanket_rows, has_rows, returns_row,
  resource_rows, is_within, add_row, granted, get_permitted_actions_batch, passes_execute,
}

abbrev pub raises : Result Bool → Bool
raises err = true
raises (ok b) = false

module _ (eval other_eval : String → Json → Result Bool) (ctx : Json)
    (same : (sql : String) → raises (eval sql ctx) ≡ raises (other_eval sql ctx)) where
  passes_execute-same :
      (sql : Option String) (found : Bool)
      → passes_execute eval ctx sql found ≡ passes_execute other_eval ctx sql found
  passes_execute-same none found = refl
  passes_execute-same (some sql) found = ground (arith, same sql)

  returns_row-same :
      (sql : Option String) (found : Bool)
      → returns_row eval ctx sql found ≡ returns_row other_eval ctx sql found
  unfolding returns_row
  returns_row-same sql found =
      ap (λ b. if is_empty_sql sql then true else b) (passes_execute-same sql found)

  resource_rows-same :
      (q : Query) (filter : Option (List ℕ)) (found : Bool) (acls : List Acl)
      → resource_rows eval ctx q filter found acls
        ≡ resource_rows other_eval ctx q filter found acls
  unfolding resource_rows
  resource_rows-same q filter found [] = refl
  resource_rows-same q filter found (a ∷ acls) =
      rw
        (
          resource_rows-same q filter found acls,
          resource_rows-same q filter true acls,
          returns_row-same a.compiled_sql found,
        )
        refl

-- The rows of `get_permitted_actions_batch` do not depend on whether the stored conditions hold: two
-- evaluations that raise an exception on the same clauses give the same rows, whatever else they
-- answer, since EXECUTE leaves FOUND as the statements before it did.
pub get_permitted_actions_batch-blind :
    (eval other_eval : String → Json → Result Bool) (ctx : Json)
    → ((sql : String) → raises (eval sql ctx) ≡ raises (other_eval sql ctx))
    → (types : List ResourceType) (actions : List Action) (resources : List Resource)
      (acls : List Acl) (q : Query) (filter : Option (List ℕ))
    → get_permitted_actions_batch eval ctx types actions resources acls q filter
      ≡ get_permitted_actions_batch other_eval ctx types actions resources acls q filter
unfolding get_permitted_actions_batch
get_permitted_actions_batch-blind eval other_eval ctx same types actions resources acls q filter =
    let asked = where_true (λ r. of_type q r && in_filter filter r.id) resources in
    let blanket = blanket_rows (where_true (is_blanket q) acls) asked in
    rw (resource_rows-same eval other_eval ctx same q filter (has_rows blanket) acls) refl

-- the row of acl for which a row is returned
abbrev pub accounts_for : Query → Permitted → Acl → Bool
accounts_for q p a =
    (is_held_for_type q a && (a.action_id == p.action_id))
    && (if p.is_type_level
        then is_none a.resource_id && (is_empty_sql a.compiled_sql || is_true_sql a.compiled_sql)
        else is_id a.resource_id p.resource_id)

abbrev pub same_row : Permitted → Permitted → Bool
same_row p o =
    (o.resource_id == p.resource_id)
    && (o.action_id == p.action_id)
    && (if p.is_type_level then o.is_type_level else not o.is_type_level)

abbrev pub is_returned : Permitted → List Permitted → Bool
is_returned p rows = any (same_row p) rows

blanket_bools :
    (whole clear held id_eq act lvl for_id : Bool)
    → (whole && clear && held) ≡ true
    → (id_eq && act && (if lvl then true else false)) ≡ true
    → ((held && act) && (if lvl then whole && clear else for_id)) ≡ true
blanket_bools whole clear held id_eq act lvl for_id h m = ground arith

resource_bools :
    (held act lvl other_part for_id : Bool)
    → held ≡ true
    → (for_id && act && (if lvl then false else true)) ≡ true
    → ((held && act) && (if lvl then other_part else for_id)) ≡ true
resource_bools held act lvl other_part for_id h m = ground arith

or_rest : (a b : Bool) → a ≡ false → (a || b) ≡ true → b ≡ true
or_rest a b h m = ground arith

first_of_three : (a b c : Bool) → (a && b && c) ≡ true → a ≡ true
first_of_three a b c h = ground arith

blanket_row-accounts :
    (q : Query) (p : Permitted) (a : Acl) (rs : List Resource)
    → is_blanket q a ≡ true
    → is_returned p (blanket_row a.action_id rs) ≡ true
    → accounts_for q p a ≡ true
blanket_row-accounts q p a [] h m = cc
blanket_row-accounts q p a (r ∷ rs) h m =
    let row : Permitted = record {
      resource_id = r.id;
      action_id = a.action_id;
      is_type_level = true;
    } in
    elim (Bool-cases (same_row p row)) [
      | inl here ↦
          blanket_bools (is_none a.resource_id)
            (is_empty_sql a.compiled_sql || is_true_sql a.compiled_sql) (is_held_for_type q a)
            (r.id == p.resource_id) (a.action_id == p.action_id) p.is_type_level
            (is_id a.resource_id p.resource_id) h here
      | inr later ↦ blanket_row-accounts q p a rs h (or_rest (same_row p row) _ later m)
    ]

blanket_rows-accounts :
    (q : Query) (p : Permitted) (rs : List Resource) (acls : List Acl)
    → is_returned p (blanket_rows (where_true (is_blanket q) acls) rs) ≡ true
    → any (accounts_for q p) acls ≡ true
blanket_rows-accounts q p rs [] m = cc
blanket_rows-accounts q p rs (a ∷ acls) m = elim (Bool-cases (is_blanket q a)) [
  | inl blanket ↦
      let rows = blanket_row a.action_id rs in
      let rest = blanket_rows (where_true (is_blanket q) acls) rs in
      let split = sym (any-append (same_row p) rows rest) ∙ (rw blanket at m) in
      elim (Bool-cases (is_returned p rows)) [
        | inl here ↦ rw (blanket_row-accounts q p a rs blanket here) refl
        | inr later ↦
            rw (blanket_rows-accounts q p rs acls (or_rest (is_returned p rows) _ later split))
              (or-true (accounts_for q p a))
      ]
  | inr other_row ↦
      rw (blanket_rows-accounts q p rs acls (rw other_row at m)) (or-true (accounts_for q p a))
]

add_row-accounts :
    (q : Query) (p : Permitted) (a : Acl) (acls : List Acl) (rest : List Permitted) (o : Option ℕ)
    → a.resource_id ≡ o
    → is_held_for_type q a ≡ true
    → (is_returned p rest ≡ true → any (accounts_for q p) acls ≡ true)
    → is_returned p (add_row o a.action_id rest) ≡ true
    → any (accounts_for q p) (a ∷ acls) ≡ true
add_row-accounts q p a acls rest none e held later m = rw (later m) (or-true (accounts_for q p a))
add_row-accounts q p a acls rest (some id) e held later m =
    elim (Bool-cases (same_row p (granted id a.action_id))) [
      | inl here ↦
          let accounts : accounts_for q p a ≡ true =
            resource_bools (is_held_for_type q a) (a.action_id == p.action_id) p.is_type_level
              (is_none a.resource_id && (is_empty_sql a.compiled_sql || is_true_sql a.compiled_sql))
              (is_id a.resource_id p.resource_id) held
              (rw (ap (λ o. is_id o p.resource_id) e) here) in
          rw accounts refl
      | inr other_row ↦
          rw (later (or_rest (same_row p (granted id a.action_id)) _ other_row m))
            (or-true (accounts_for q p a))
    ]

module _ (eval : String → Json → Result Bool) (ctx : Json) where
  resource_rows-accounts :
      (q : Query) (filter : Option (List ℕ)) (p : Permitted) (found : Bool) (acls : List Acl)
      → is_returned p (resource_rows eval ctx q filter found acls) ≡ true
      → any (accounts_for q p) acls ≡ true
  unfolding resource_rows
  resource_rows-accounts q filter p found [] m = cc
  resource_rows-accounts q filter p found (a ∷ acls) m =
      elim (Bool-cases (
        is_held_for_type q a
        && is_within filter a.resource_id
        && returns_row eval ctx a.compiled_sql found)) [
          | inl returned ↦
              let held =
                first_of_three (is_held_for_type q a) (is_within filter a.resource_id) _ returned in
              add_row-accounts q p a acls (resource_rows eval ctx q filter true acls) a.resource_id
                refl held (resource_rows-accounts q filter p true acls) (rw returned at m)
          | inr skipped ↦
              rw (resource_rows-accounts q filter p found acls (rw skipped at m))
                (or-true (accounts_for q p a))
        ]

-- Every row that `get_permitted_actions_batch` returns for a type that is not public has a row of acl that
-- the caller holds, of the realm, the type and the action: for a type-level result one that is for the
-- whole type and whose clause is empty or reads TRUE, for any other one that is for the resource.
pub get_permitted_actions_batch-held :
    (eval : String → Json → Result Bool) (ctx : Json) (types : List ResourceType)
    (actions : List Action) (resources : List Resource) (acls : List Acl) (q : Query)
    (filter : Option (List ℕ)) (p : Permitted)
    → is_public types q.resource_type_id ≡ false
    → is_returned p (get_permitted_actions_batch eval ctx types actions resources acls q filter)
      ≡ true
    → any (accounts_for q p) acls ≡ true
unfolding get_permitted_actions_batch
get_permitted_actions_batch-held eval ctx types actions resources acls q filter p closed m =
    let asked = where_true (λ r. of_type q r && in_filter filter r.id) resources in
    let blanket = blanket_rows (where_true (is_blanket q) acls) asked in
    let later = resource_rows eval ctx q filter (has_rows blanket) acls in
    let split = sym (any-append (same_row p) blanket later) ∙ (rw closed at m) in
    elim (Bool-cases (is_returned p blanket)) [
      | inl here ↦ blanket_rows-accounts q p asked acls here
      | inr other_row ↦
          resource_rows-accounts eval ctx q filter p (has_rows blanket) acls
            (or_rest (is_returned p blanket) _ other_row split)
    ]
