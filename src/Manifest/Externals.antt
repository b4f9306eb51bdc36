-- ===== src/Manifest/Externals.antt =====
-- common/application/manifest_service.py, `export_manifest`: the first external id of a resource.
use stateful_abac_policy_eng.Prelude.{
  ℕ, false, Option, none, some, List, [], ◌∷◌, ◌++◌, ◌≡◌, refl, sym, ap, ap₂, ◌∙◌, ◌==◌, any, arith,
  if◌then◌else◌, Bool-cases, inl, inr, some_injective, ==_iff, ==_self,
}
use stateful_abac_policy_eng.Policy.{ExternalId}
use stateful_abac_policy_eng.Manifest.Tables.{last_or, last_where}
use stateful_abac_policy_eng.Manifest.Export.{first_external}
use stateful_abac_policy_eng.Manifest.Lookup.{IsUnique, last_where-none}

-- ---- the first external id of a resource
pub first_external-here :
    (before rest : List ExternalId) (x : ExternalId) (n : ℕ)
    → x.resource_id ≡ n
    → first_external before n ≡ none
    → first_external (before ++ x ∷ rest) n ≡ some x.external_id
first_external-here [] rest x n own free = rw (own, ==_self n) refl
first_external-here (y ∷ before) rest x n own free = elim (Bool-cases (y.resource_id == n)) [
  | inl other ↦ ground (arith, free, other)
  | inr off ↦ rw off (
      first_external-here before rest x n own
        (sym (ap (λ b. if b then some y.external_id else first_external before n) off) ∙ free))
]

pub first_external-apart :
    (before : List ExternalId) (x : ExternalId) (n : ℕ)
    → (x.resource_id == n) ≡ false
    → first_external before n ≡ none
    → first_external (before ++ x ∷ []) n ≡ none
first_external-apart [] x n off free = rw off refl
first_external-apart (y ∷ before) x n off free = elim (Bool-cases (y.resource_id == n)) [
  | inl other ↦ ground (arith, free, other)
  | inr apart ↦ rw apart (
      first_external-apart before x n off
        (sym (ap (λ b. if b then some y.external_id else first_external before n) apart) ∙ free))
]

last_or-false {ℓ} : {A : Type ℓ} (o : Option A) (x : A) → o ≡ last_or o x false
last_or-false none x = refl
last_or-false (some y) x = refl

-- Where no resource has two, the first is the one that is found.
pub first_external-found :
    (xs : List ExternalId) (k : ℕ) (r : ExternalId)
    → IsUnique (λ x. x.resource_id) xs
    → last_where (λ x. x.resource_id == k) xs ≡ some r
    → first_external xs k ≡ some r.external_id
first_external-found [] k r u h = ground (arith, h)
first_external-found (x ∷ xs) k r (apart, u) h = elim (Bool-cases (x.resource_id == k)) [
  | inl own ↦
      let missing : last_where (λ y. y.resource_id == k) xs ≡ none =
        last_where-none (λ y. y.resource_id == k) xs
          (ap (λ m. any (λ y. y.resource_id == m) xs) (sym ((==_iff x.resource_id k).0 own))
            ∙ apart) in
      let last : some x ≡ some r = sym (ap₂ (λ o b. last_or o x b) missing own) ∙ h in
      rw own (ap (λ y. some y.external_id) (some_injective x r last))
  | inr off ↦ rw off (
      first_external-found xs k r u (
        last_or-false (last_where (λ y. y.resource_id == k) xs) x
        ∙ sym (ap (last_or (last_where (λ y. y.resource_id == k) xs) x) off)
        ∙ h))
]
