-- ===== src/Policy/Conditions/Exact.antt =====
-- The filter of `get_authorization_conditions` lets through a resource exactly if one of the rows
-- that apply does.
use stateful_abac_policy_eng.Prelude.{
  String, Bool, true, false, ◌&&◌, Option, some, List, [], ◌∷◌, ◌≡◌, any, has_prefix,
}
use stateful_abac_policy_eng.Json.{Json}
use stateful_abac_policy_eng.Policy.{Acl, ExternalId, Query}
use stateful_abac_policy_eng.Policy.Conditions.{Group, applies}
use stateful_abac_policy_eng.Policy.Conditions.Allows.{row_passes}
use stateful_abac_policy_eng.Policy.Conditions.Rounds.{Resolves, AllSound}

abbrev pub PlainExternals : List ExternalId → Type 0
PlainExternals externals = any (λ x. has_prefix "$resource." x.external_id) externals ≡ false

module _ (render : Json → String) (other : String → Option String → Option Json → Option Bool)
    (attribute : String → Option String) (ctx : Json) (e : String)
    (external_id : attribute "external_id" ≡ some e) (refers : Json → Bool) where
  abbrev RowResolves : Option Json → Type 0
  RowResolves = Resolves render other attribute ctx e external_id

  abbrev GroupsSound : List Group → Type 0
  GroupsSound = AllSound render other attribute ctx e external_id refers

  -- Every row that applies has a condition that resolves, if it has one.
  abbrev pub RowsResolve : Query → List Acl → Type 0
  RowsResolve q [] = Unit
  RowsResolve q (a ∷ acls) = (applies q a ≡ true → RowResolves a.conditions) × RowsResolve q acls

  -- the rows of the action that the principal holds and that are for the resource and pass
  abbrev pub row_grants : Query → List ExternalId → Acl → Bool
  row_grants q externals a = applies q a && row_passes render other attribute ctx e externals a
