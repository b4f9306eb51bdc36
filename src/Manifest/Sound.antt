-- ===== src/Manifest/Sound.antt =====
-- common/application/manifest_service.py, `apply_manifest`: names that the sections keep apart.
use stateful_abac_policy_eng.Prelude.{
  ℕ, suc, String, Bool, false, some, List, [], ◌∷◌, ◌++◌, ◌≡◌, refl, sym, ap, ◌∙◌, eq_text, eq_iff,
  map, any, arith, mem_text, mem_text-append, Bool-cases, Option-cases, inl, inr, or_parts, Result,
  ok, err, ◌>>=◌, ==_self, ap₂, some_injective,
}
use mathlib.Core.Path.{subst}
use stateful_abac_policy_eng.Policy.{ResourceType}
use stateful_abac_policy_eng.Services.ResourceTypes.{is_taken}
use stateful_abac_policy_eng.Services.ResourceTypes.Changes.{differs, AllDistinct}
use stateful_abac_policy_eng.Services.ResourceTypes.Rows.{
  AllBelow, AllBelow-next, AllBelow-append, AllBelow-replace, AllDistinct-append,
  AllDistinct-replace,
}
use stateful_abac_policy_eng.Manifest.{TypeItem, PrincipalItem}
use stateful_abac_policy_eng.Manifest.Tables.{
  Tables, Counts, last_where, last_or, Run, done, raised, then_run, commit,
}
use stateful_abac_policy_eng.Manifest.Sections.{
  apply_type, apply_types, type_named, or_false, apply_action, apply_actions, has_action,
  apply_principal, apply_principals, has_principal, has_twice, role_ids, given_names,
}
use stateful_abac_policy_eng.Manifest.Lookup.{AreDistinct, any-missing, found_not}
use stateful_abac_policy_eng.Manifest.Written.{map-snoc, type_row, action_row}
use stateful_abac_policy_eng.Manifest.Members.{principal_row}
use stateful_abac_policy_eng.Manifest.Placed.{any-narrower}

AreDistinct-snoc :
    (n : String) (ns : List String)
    → AreDistinct ns
    → mem_text n ns ≡ false
    → AreDistinct (ns ++ n ∷ [])
AreDistinct-snoc n [] d free = (refl, tt)
AreDistinct-snoc n (m ∷ ns) (out, d) free =
    let (head, tail) = or_parts (eq_text m n) (mem_text n ns) free in
    (
      ground (arith, mem_text-append m ns (n ∷ []), out, head, eq_iff m n, eq_iff n m),
      AreDistinct-snoc n ns d tail,
    )

-- No two types have one name or one id, no id was given out by a later insert, and no two actions
-- and no two principals have one name.
pub record IsSound (types : List ResourceType) (next_type : ℕ) (actions principals : List String)
    : Type 0 where
  pub types_apart : AllDistinct types
  pub types_below : AllBelow next_type types
  pub actions_apart : AreDistinct actions
  pub principals_apart : AreDistinct principals

abbrev pub IsSoundRealm : Tables → Type 0
IsSoundRealm t =
    IsSound t.types t.next_type (map (λ a. a.name) t.actions) (map (λ p. p.username) t.principals)

-- The type of a name is the only one.
taken-named :
    (n : String) (flag : Bool) (types : List ResourceType) (rt : ResourceType)
    → AllDistinct types
    → last_where (λ x. eq_text x.name n) types ≡ some rt
    → any (is_taken (record rt { is_public = flag })) types ≡ false
taken-named n flag [] rt d h = refl
taken-named n flag (x ∷ xs) rt (apart, d) h =
    elim (Option-cases (last_where (λ y. eq_text y.name n) xs)) [
      | inr (s, found) ↦
          let same : s ≡ rt =
            some_injective s rt (sym (ap (λ o. last_or o x (eq_text x.name n)) found) ∙ h) in
          let at = found ∙ ap some same in
          let off : differs x rt ≡ false =
            found_not (differs x) (λ y. eq_text y.name n) xs rt apart at in
          rw (taken-named n flag xs rt d at) (ground (arith, off))
      | inl missing ↦ elim (Bool-cases (eq_text x.name n)) [
        | inr off ↦ ground (arith, sym (ap₂ (λ o b. last_or o x b) missing off) ∙ h)
        | inl passed ↦
            let same : x ≡ rt =
              some_injective x rt (sym (ap₂ (λ o b. last_or o x b) missing passed) ∙ h) in
            let others : any (is_taken (record x { is_public = flag })) xs ≡ false =
              any-narrower (is_taken (record x { is_public = flag })) (differs x) xs
                (λ y off. ground (arith, off, eq_iff x.name y.name, eq_iff y.name x.name)) apart in
            subst (λ r. any (is_taken (record r { is_public = flag })) (x ∷ xs) ≡ false) same
              (rw (others, ==_self x.id) (ground arith))
      ]
    ]

apply_type-IsSound :
    (item : TypeItem) (c : Counts) (t : Tables)
    → IsSoundRealm t
    → IsSoundRealm (apply_type item c t (type_named item.name t)).1
apply_type-IsSound item c t v = elim (Option-cases (type_named item.name t)) [
  | inl missing ↦
      subst (λ o. IsSoundRealm (apply_type item c t o).1) (sym missing)
        (record {
          types_apart =
              AllDistinct-append (type_row t.id t.next_type item) t.types v.types_apart
                v.types_below (any-missing (λ rt. eq_text rt.name item.name) t.types missing);
          types_below =
              AllBelow-append (suc t.next_type) t.types (type_row t.id t.next_type item)
                (AllBelow-next t.next_type t.types v.types_below) (omega arith);
          actions_apart = v.actions_apart;
          principals_apart = v.principals_apart;
        })
  | inr (rt, found) ↦
      subst (λ o. IsSoundRealm (apply_type item c t o).1) (sym found)
        (record {
          types_apart =
              AllDistinct-replace (record rt { is_public = or_false item.is_public }) t.types
                v.types_apart
                (taken-named item.name (or_false item.is_public) t.types rt v.types_apart found);
          types_below =
              AllBelow-replace (record rt { is_public = or_false item.is_public }) t.next_type
                t.types v.types_below;
          actions_apart = v.actions_apart;
          principals_apart = v.principals_apart;
        })
]

pub apply_types-IsSound :
    (items : List TypeItem) (c : Counts) (t : Tables)
    → IsSoundRealm t
    → IsSoundRealm (apply_types items c t).1
unfolding apply_types
apply_types-IsSound [] c t v = v
apply_types-IsSound (item ∷ items) c t v =
    let step = apply_type item c t (type_named item.name t) in
    apply_types-IsSound items step.0 step.1 (apply_type-IsSound item c t v)

apply_action-IsSound :
    (name : String) (c : Counts) (t : Tables)
    → IsSoundRealm t
    → IsSoundRealm (apply_action name c t (has_action name t)).1
apply_action-IsSound name c t v = elim (Bool-cases (has_action name t)) [
  | inl there ↦ subst (λ b. IsSoundRealm (apply_action name c t b).1) (sym there) v
  | inr free ↦
      subst (λ b. IsSoundRealm (apply_action name c t b).1) (sym free)
        (record {
          types_apart = v.types_apart;
          types_below = v.types_below;
          actions_apart =
              subst AreDistinct
                (sym (map-snoc (λ a. a.name) t.actions (action_row t.id t.next_action name)))
                (AreDistinct-snoc name (map (λ a. a.name) t.actions) v.actions_apart free);
          principals_apart = v.principals_apart;
        })
]

pub apply_actions-IsSound :
    (names : List String) (c : Counts) (t : Tables)
    → IsSoundRealm t
    → IsSoundRealm (apply_actions names c t).1
unfolding apply_actions
apply_actions-IsSound [] c t v = v
apply_actions-IsSound (name ∷ names) c t v =
    let step = apply_action name c t (has_action name t) in
    apply_actions-IsSound names step.0 step.1 (apply_action-IsSound name c t v)

-- What holds at the end of a part that may raise, and of a call.
abbrev pub AtEnd {ℓ} : {A : Type ℓ} → (Tables → Type 0) → Result (A × Tables) → Type 0
AtEnd P err = Unit
AtEnd P (ok (a, t)) = P t

pub AtEnd-bind {ℓ κ} :
    {A : Type ℓ} {B : Type κ} (P : Tables → Type 0) (r : Result (A × Tables))
    (f : A × Tables → Result (B × Tables))
    → AtEnd P r
    → ((a : A) (t : Tables) → P t → AtEnd P (f (a, t)))
    → AtEnd P (r >>= f)
AtEnd-bind P err f p h = tt
AtEnd-bind P (ok (a, t)) f p h = h a t p

abbrev pub AfterRun {ℓ} : {A : Type ℓ} → (Tables → Type 0) → Run A → Type 0
AfterRun P (done a t) = P t
AfterRun P (raised t) = P t

pub AfterRun-then_run {ℓ κ} :
    {A : Type ℓ} {B : Type κ} (P : Tables → Type 0) (r : Run A) (f : A → Tables → Run B)
    → AfterRun P r
    → ((a : A) (t : Tables) → P t → AfterRun P (f a t))
    → AfterRun P (then_run r f)
AfterRun-then_run P (done a t) f p h = h a t p
AfterRun-then_run P (raised t) f p h = p

pub AfterRun-commit {ℓ} :
    {A : Type ℓ} (P : Tables → Type 0) (before : Tables) (r : Result (A × Tables))
    → P before
    → AtEnd P r
    → AfterRun P (commit before r)
AfterRun-commit P before err p q = p
AfterRun-commit P before (ok (a, t)) p q = q

apply_principal-IsSound :
    (item : PrincipalItem) (c : Counts) (t : Tables) (ids : List ℕ)
    → IsSoundRealm t
    → AtEnd IsSoundRealm (apply_principal item c t (has_principal item.username t) ids)
apply_principal-IsSound item c t ids v = elim (Bool-cases (has_principal item.username t)) [
  | inl there ↦ subst (λ b. AtEnd IsSoundRealm (apply_principal item c t b ids)) (sym there) v
  | inr free ↦
      subst (λ b. AtEnd IsSoundRealm (apply_principal item c t b ids)) (sym free)
        (elim (Bool-cases (has_twice ids)) [
          | inl twice ↦ rw twice tt
          | inr once ↦ rw once (record {
            types_apart = v.types_apart;
            types_below = v.types_below;
            actions_apart = v.actions_apart;
            principals_apart =
                subst AreDistinct
                  (sym (
                    map-snoc (λ p. p.username) t.principals
                      (principal_row t.id t.next_principal item)))
                  (AreDistinct-snoc item.username (map (λ p. p.username) t.principals)
                    v.principals_apart free);
          })
        ])
]

pub apply_principals-IsSound :
    (items : List PrincipalItem) (c : Counts) (t : Tables)
    → IsSoundRealm t
    → AtEnd IsSoundRealm (apply_principals items c t)
unfolding apply_principals
apply_principals-IsSound [] c t v = v
apply_principals-IsSound (item ∷ items) c t v =
    let ids = role_ids t.roles (given_names item.roles) in
    AtEnd-bind IsSoundRealm (apply_principal item c t (has_principal item.username t) ids)
      (λ out. apply_principals items out.0 out.1) (apply_principal-IsSound item c t ids v)
      (λ d u w. apply_principals-IsSound items d u w)
