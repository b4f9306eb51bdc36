-- ===== src/Manifest/Twice.antt =====
-- common/application/manifest_service.py, `apply_manifest`: the rows of acl, which are not looked for
-- before they are written, and external ids that are not known.
use stateful_abac_policy_eng.Prelude.{
  Every, ℕ, ◌+◌, String, Option, none, some, List, [], ◌∷◌, ◌++◌, ◌≡◌, refl, ap, ◌∙◌, map, length,
  length-append, arith, Result, ok, ◌>>=◌,
}
use stateful_abac_policy_eng.Json.{Json}
use stateful_abac_policy_eng.Services.Acls.Rows.{RuleKey}
use stateful_abac_policy_eng.Manifest.{AclItem}
use stateful_abac_policy_eng.Manifest.Tables.{Tables, Counts, no_counts}
use stateful_abac_policy_eng.Manifest.Sections.{count_created}
use stateful_abac_policy_eng.Manifest.Bulk.{known_resource}
use stateful_abac_policy_eng.Manifest.Rules.{
  apply_rule, apply_rules, apply_acls, counted, rolled_back, key_of_item, insert_rule,
  conditions_of, resource_for, type_id_of, action_id_of,
}
use stateful_abac_policy_eng.Manifest.Export.{export_acl}
use stateful_abac_policy_eng.Manifest.Written.{added}
use stateful_abac_policy_eng.Manifest.Named.{IsRule, IsReady}
use stateful_abac_policy_eng.Manifest.Granted.{apply_rules-new}
use stateful_abac_policy_eng.Manifest.WithAcls.{with_acls}

length-map {ℓ κ} :
    {A : Type ℓ} {B : Type κ} (f : A → B) (xs : List A) → length (map f xs) ≡ length xs
length-map f [] = refl
length-map f (x ∷ xs) = omega (arith, length-map f xs)

module _ (compile : Option Json → Result (Option String)) where
  -- For rules that each name a type, an action and at most one of a role and a principal (or
  -- "anonymous"), and perhaps an external id, which are all there, that have no `principal_id`, and
  -- whose conditions the trigger compiles and are not empty: where no two types, actions, roles or
  -- principals have one id, none of the roles and principals has the id 0, and each of these external
  -- ids leads to a resource, not 0, whose first external id it is, they are written once more each time that they are applied.
  -- The second time counts as many created rows as the first, and leaves as many rows more.
  pub apply_acls-again :
      (externals : List String) (t : Tables) (items : List AclItem)
      → IsReady externals t
      → Every
          (IsRule compile
            (map (λ rt. rt.name) t.types)
            (map (λ a. a.name) t.actions)
            (map (λ r. r.name) t.roles)
            (map (λ p. p.username) t.principals)
            externals)
          items
      → (u v : Tables) × (apply_acls compile items t
          ≡ (counted (added (length items) no_counts), u))
        × (apply_acls compile items u ≡ (counted (added (length items) no_counts), v))
        × (length v.acls ≡ length t.acls + length items + length items)
  unfolding apply_acls
  apply_acls-again externals t items ready rules =
      let (news, written, read) =
        apply_rules-new compile t externals ready items no_counts t.acls t.next_acl rules in
      let rows = t.acls ++ news in
      let n = t.next_acl + length items in
      let (more, again, read_again) =
        apply_rules-new compile t externals ready items no_counts rows n rules in
      (
        with_acls t rows n,
        with_acls t (rows ++ more) (n + length items),
        ap (rolled_back t) written,
        ap (rolled_back (with_acls t rows n)) again,
        omega (
          arith,
          length-append rows more,
          length-append t.acls news,
          length-map (export_acl t) news,
          length-map (export_acl t) more,
          ap length read,
          ap length read_again,
        ),
      )

  apply_rule-without :
      (item : AclItem) (e : String) (c : Counts) (t : Tables) (type_id action_id : Option ℕ)
      → item.resource_external_id ≡ some e
      → known_resource none e t ≡ none
      → apply_rule compile item c t type_id action_id
        ≡ apply_rule compile (record item { resource_external_id = none }) c t type_id action_id
  apply_rule-without item e c t (some type_id) (some action_id) given missing =
      let resource : resource_for item.resource_external_id t ≡ none =
        ap (λ o. resource_for o t) given ∙ missing in
      let key : Option ℕ → RuleKey =
        λ id. record (key_of_item item type_id action_id t) { resource_id = id } in
      ap
        (λ id. insert_rule compile (key id) (conditions_of item.conditions) t >>= λ u.
          ok (count_created c, u))
        resource
  apply_rule-without item e c t none action_id given missing = refl
  apply_rule-without item e c t (some type_id) none given missing = refl

  -- A rule for one resource whose external id is not known is applied as the same rule for all
  -- resources of its type, whatever rules follow.
  pub apply_acls-unknown_external_id :
      (item : AclItem) (items : List AclItem) (e : String) (t : Tables)
      → item.resource_external_id ≡ some e
      → known_resource none e t ≡ none
      → apply_acls compile (item ∷ items) t
        ≡ apply_acls compile (record item { resource_external_id = none } ∷ items) t
  unfolding apply_acls apply_rules
  apply_acls-unknown_external_id item items e t given missing =
      ap (λ r. rolled_back t (r >>= λ out. apply_rules compile items out.0 out.1))
        (apply_rule-without item e no_counts t (type_id_of item.resource_type t)
          (action_id_of item.action t) given missing)
