-- ===== src/Manifest/Granted.antt =====
-- common/application/manifest_service.py, `apply_manifest` and `export_manifest`: the rows of acl, by the
-- names of what they stand for.
use stateful_abac_policy_eng.Prelude.{
  Every, ℕ, suc, ◌+◌, String, true, false, not, ◌&&◌, Option, none, some, List, [], ◌∷◌, ◌++◌, ◌≡◌,
  refl, sym, ap, ap₂, ◌∙◌, ◌⊎◌, inl, inr, map, any, any-never, length, arith, if◌then◌else◌,
  is_none, Result, ok,
}
use stateful_abac_policy_eng.Json.{Json}
use stateful_abac_policy_eng.Policy.{Acl}
use stateful_abac_policy_eng.Services.Acls.Rows.{RuleKey, passes_check, violates_index, column_of}
use stateful_abac_policy_eng.Services.Acls.Operations.{new_row}
use stateful_abac_policy_eng.Manifest.{AclItem}
use stateful_abac_policy_eng.Manifest.Tables.{Tables, Counts, last_named}
use stateful_abac_policy_eng.Manifest.Sections.{count_created}
use stateful_abac_policy_eng.Manifest.Rules.{
  id_of_role, principal_of, conditions_of, key_of_item, type_id_of, action_id_of, insert_rule,
  apply_rule, apply_rules,
}
use stateful_abac_policy_eng.Manifest.Export.{
  export_acl, export_principal_of, type_name, action_name,
}
use stateful_abac_policy_eng.Manifest.Written.{added, at_end, one_more}
use stateful_abac_policy_eng.Manifest.Named.{
  IsRule, IsReady, type_again, action_again, role_again, principal_again, resource_again,
}
use stateful_abac_policy_eng.Manifest.WithAcls.{with_acls, key_of_item-with_acls}

either_none :
    (role principal : Option String)
    → (role ≡ none) ⊎ (principal ≡ none)
    → (if is_none role then principal else none) ≡ principal
either_none none principal h = refl
either_none (some r) principal (inl h) = ground (arith, h)
either_none (some r) principal (inr h) = sym h

either_id :
    (role principal : Option ℕ)
    → (role ≡ none) ⊎ (principal ≡ none)
    → (passes_check principal role ≡ true) × (not (is_none principal) && not (is_none role)) ≡ false
either_id none none h = (refl, refl)
either_id none (some p) h = (refl, refl)
either_id (some r) none h = (refl, refl)
either_id (some r) (some p) (inl h) = ground (arith, h)
either_id (some r) (some p) (inr h) = ground (arith, h)

abbrev item_of :
    Option String
    → Option String
    → Option String
    → Option String
    → Option String
    → Option Json
    → AclItem
item_of type action role principal external conditions = record {
  resource_type = type;
  action = action;
  role = role;
  principal = principal;
  principal_id = none;
  resource_external_id = external;
  conditions = conditions;
}

same_item :
    (item : AclItem) (type action role principal external : Option String)
    (conditions : Option Json)
    → type ≡ item.resource_type
    → action ≡ item.action
    → role ≡ item.role
    → principal ≡ item.principal
    → external ≡ item.resource_external_id
    → conditions ≡ item.conditions
    → item.principal_id ≡ none
    → item_of type action role principal external conditions ≡ item
same_item item type action role principal external conditions ty ac ro pr ex co no_id =
    ap₂ (λ a b. item_of a b role principal external conditions) ty ac
    ∙ ap₂ (λ a b. item_of item.resource_type item.action a b external conditions) ro pr
    ∙ ap₂ (λ a b. item_of item.resource_type item.action item.role item.principal a b) ex co
    ∙ ap (λ o. record item { principal_id = o }) (sym no_id)

module _ (compile : Option Json → Result (Option String)) (t : Tables) where
  insert_rule-new :
      (k : RuleKey) (conditions : Option Json) (sql : Option String) (rows : List Acl) (n : ℕ)
      → compile (column_of conditions) ≡ ok sql
      → passes_check k.principal_id k.role_id ≡ true
      → (not (is_none k.principal_id) && not (is_none k.role_id)) ≡ false
      → insert_rule compile k conditions (with_acls t rows n)
        ≡ ok (with_acls t (rows ++ new_row n k conditions sql ∷ []) (suc n))
  insert_rule-new k conditions sql rows n compiles passes apart =
      let free : any (violates_index k) rows ≡ false =
        any-never (violates_index k) rows (λ a. ground (arith, apart)) in
      rw compiles (rw passes (rw free refl))

  apply_rule-new :
      (item : AclItem) (c : Counts) (u w : Tables) (type action : Option ℕ) (type_id action_id : ℕ)
      → type ≡ some type_id
      → action ≡ some action_id
      → insert_rule compile (key_of_item item type_id action_id u) (conditions_of item.conditions) u
        ≡ ok w
      → apply_rule compile item c u type action ≡ ok (count_created c, w)
  apply_rule-new item c u w type action type_id action_id typed acted inserted =
      ap₂ (apply_rule compile item c u) typed acted ∙ rw inserted refl

  module _ (externals : List String) (ready : IsReady externals t) (item : AclItem)
      (rule : IsRule compile
        (map (λ rt. rt.name) t.types)
        (map (λ a. a.name) t.actions)
        (map (λ r. r.name) t.roles)
        (map (λ p. p.username) t.principals)
        externals
        item) where
    one_subject :
        (type_id action_id : ℕ)
        → ((key_of_item item type_id action_id t).role_id ≡ none)
          ⊎ ((key_of_item item type_id action_id t).principal_id ≡ none)
    one_subject type_id action_id = elim rule.not_both [
      | inl role ↦ inl (ap (λ o. id_of_role (last_named (λ r. r.name) o t.roles)) role)
      | inr principal ↦ inr (ap₂ (λ o id. principal_of o id t) principal rule.no_id)
    ]

    export-rule :
        (n type_id action_id : ℕ) (sql : Option String)
        → type_name t.types type_id ≡ rule.type
        → action_name t.actions action_id ≡ rule.action
        → export_acl t
            (new_row n (key_of_item item type_id action_id t) (conditions_of item.conditions) sql)
          ≡ item
    export-rule n type_id action_id sql type action =
        let role = role_again externals t ready item.role rule.role_known in
        let principal : export_principal_of t (principal_of item.principal item.principal_id t)
            ≡ item.principal =
          ap (λ id. export_principal_of t (principal_of item.principal id t)) rule.no_id
          ∙ principal_again externals t ready item.principal rule.principal_known in
        let subject =
          ap₂ (λ b o. if b then o else none) role.0 principal
          ∙ either_none item.role item.principal rule.not_both in
        let external =
          resource_again externals t ready item.resource_external_id rule.resource_known in
        let row =
          new_row n (key_of_item item type_id action_id t) (conditions_of item.conditions) sql in
        let out = export_acl t row in
        same_item item out.resource_type out.action out.role out.principal out.resource_external_id
          out.conditions (ap some type ∙ sym rule.type_given)
          (ap some action ∙ sym rule.action_given) role.1 subject external rule.conditions_kept
          rule.no_id

  -- Every rule is written once, and read as it was written.
  pub apply_rules-new :
      (externals : List String)
      → IsReady externals t
      → (items : List AclItem) (c : Counts) (rows : List Acl) (n : ℕ)
      → Every
          (IsRule compile
            (map (λ rt. rt.name) t.types)
            (map (λ a. a.name) t.actions)
            (map (λ r. r.name) t.roles)
            (map (λ p. p.username) t.principals)
            externals)
          items
      → (news : List Acl) × (apply_rules compile items c (with_acls t rows n)
          ≡ ok (added (length items) c, with_acls t (rows ++ news) (n + length items)))
        × (map (export_acl t) news ≡ items)
  unfolding apply_rules
  apply_rules-new externals ready [] c rows n all =
      ([], ap ok (at_end (with_acls t) c rows n), refl)
  apply_rules-new externals ready (item ∷ items) c rows n (rule, all) =
      let (type_id, typed, type) = type_again externals t ready rule.type rule.type_known in
      let (action_id, acted, action) =
        action_again externals t ready rule.action rule.action_known in
      let k = key_of_item item type_id action_id t in
      let row = new_row n k (conditions_of item.conditions) rule.sql in
      let (passes, apart) =
        either_id k.role_id k.principal_id
          (one_subject externals ready item rule type_id action_id) in
      let (news, written, read) =
        apply_rules-new externals ready items (count_created c) (rows ++ row ∷ []) (suc n) all in
      let inserted =
        insert_rule-new k (conditions_of item.conditions) rule.sql rows n rule.compiles passes
          apart in
      let step =
        apply_rule-new item c (with_acls t rows n) (with_acls t (rows ++ row ∷ []) (suc n))
          (type_id_of item.resource_type t) (action_id_of item.action t) type_id action_id
          (ap (λ o. type_id_of o t) rule.type_given ∙ typed)
          (ap (λ o. action_id_of o t) rule.action_given ∙ acted)
          (ap (λ l. insert_rule compile l (conditions_of item.conditions) (with_acls t rows n))
              (key_of_item-with_acls item type_id action_id t rows n)
            ∙ inserted) in
      (
        row ∷ news,
        rw step (written ∙ ap ok (one_more (with_acls t) c rows row news n (length items))),
        ap₂ ◌∷◌ (export-rule externals ready item rule n type_id action_id rule.sql type action)
            read,
      )
