-- ===== src/Policy/Resources/Ids.antt =====
-- Lists of ids and the truth values that decide what is in them.
use stateful_abac_policy_eng.Prelude.{
  ℕ, Bool, true, false, ◌&&◌, ◌||◌, Option, none, some, List, [], ◌∷◌, is_none, any, mem_id,
  where_true, ◌==◌, if◌then◌else◌, ok, ◌≡◌, refl, arith, ap,
}
use stateful_abac_policy_eng.Policy.{Resource}
use stateful_abac_policy_eng.Policy.Resources.{ids_of, for_resource, keep_id}
use stateful_abac_policy_eng.Policy.Conditions.Allows.{is_true}

abbrev pub is_one : ℕ → (Resource → Bool) → Resource → Bool
is_one n test r = (r.id == n) && test r

pub if-ok {ℓ} :
    {A : Type ℓ} → (b : Bool) (x y : A) → (if b then ok x else ok y) ≡ ok (if b then x else y)
if-ok true x y = refl
if-ok false x y = refl

pub one_more :
    (one typed for_it filtered holds rest ap : Bool)
    → ap ≡ true
    → ((one && (((typed && for_it) && filtered) && holds))
        || (one && ((typed && filtered) && rest)))
      ≡ (one && ((typed && filtered) && ((ap && (for_it && holds)) || rest)))
one_more one typed for_it filtered holds rest ap h = ground arith

pub none_more :
    (one parts lets rest ap : Bool)
    → ap ≡ false
    → (one && (parts && rest)) ≡ (one && (parts && ((ap && lets) || rest)))
none_more one parts lets rest ap h = ground arith

pub all_ones :
    (one parts open_to : Bool) → open_to ≡ true → (one && parts) ≡ (one && (parts && open_to))
all_ones one parts open_to h = ground arith

pub mem_id-ids_of :
    (n : ℕ) (test : Resource → Bool) (resources : List Resource)
    → mem_id n (ids_of (where_true test resources)) ≡ any (is_one n test) resources
mem_id-ids_of n test [] = refl
mem_id-ids_of n test (r ∷ rs) = ground (arith, mem_id-ids_of n test rs)

pub none_for_all : (o : Option ℕ) (id : ℕ) → is_none o ≡ true → for_resource o id ≡ true
none_for_all none id h = refl
none_for_all (some r) id h = cc

pub blanket_parts :
    (row all_types clear held : Bool)
    → ((row && all_types) && (clear && held)) ≡ true
    → (all_types ≡ true) × (clear ≡ true) × ((row && held) ≡ true)
blanket_parts row all_types clear held h = ground arith

pub lets_first :
    (applied for_it holds rest : Bool)
    → applied ≡ true
    → for_it ≡ true
    → holds ≡ true
    → ((applied && (for_it && holds)) || rest) ≡ true
lets_first applied for_it holds rest a f h = ground arith

pub never_one : (id parts : Bool) → (id && (parts && false)) ≡ false
never_one id parts = ground arith

pub mem_id-kept :
    (n id : ℕ) (t : Bool) (b : Option Bool) (rest : List ℕ) (found : Bool)
    → mem_id n rest ≡ found
    → mem_id n (if t then keep_id id b rest else rest) ≡ (((id == n) && (t && is_true b)) || found)
mem_id-kept n id t none rest found h = ground arith
mem_id-kept n id t (some b) rest found h = ground arith
