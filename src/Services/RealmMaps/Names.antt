-- ===== src/Services/RealmMaps/Names.antt =====
-- What a realm map says of the name of a type.
use Prim.Native.String
use mathlib.Core.Path.{subst}
use stateful_abac_policy_eng.Prelude.{
  ℕ, String, Bool, true, false, Option, none, some, List, [], ◌∷◌, ◌++◌, ◌≡◌, refl, sym, ap, ◌∙◌,
  eq_text, eq_iff, eq_refl, where_true, any, Bool-cases, inl, inr, arith, str_of, ok, Result,
  strip_prefix, strip_prefix-append, cons_head, err, ◌>>=◌, or-true,
}
use stateful_abac_policy_eng.Policy.{ResourceType}
use stateful_abac_policy_eng.Auth.{Entry, find, int_of, or_raise}
use stateful_abac_policy_eng.RealmCache.{
  RealmState, mapping_of, get_realm_map, rebuild, update_realm_type,
}
use stateful_abac_policy_eng.RealmCache.Lookups.{or_else, find-mapping_of}
use stateful_abac_policy_eng.RealmCache.Numbers.{int_of-str_of, str_of-nonempty}
use stateful_abac_policy_eng.Services.ResourceTypes.{has_name, new_type, create_resource_type}
use stateful_abac_policy_eng.Services.Acls.Rows.{one_or_none}
use stateful_abac_policy_eng.Services.Acls.Kept.{one_or_none-found, one_or_none-missing}
use stateful_abac_policy_eng.Services.RealmMaps.{Call, run, run-Inv, run-map}
use stateful_abac_policy_eng.Services.ResourceTypes.Entries.{is_key_of, not_type}
use stateful_abac_policy_eng.Services.ResourceTypes.Changes.{value_at, lookup, lookup-apart}
use stateful_abac_policy_eng.Services.ResourceTypes.Hash.{
  last-assignments, roles_silent, others_silent,
}
use stateful_abac_policy_eng.Services.ResourceTypes.Kept.{Inv, row_value, lookup-present}

-- the keys of a name
abbrev pub type_key : String → String
type_key name = String.◌++◌ "type:" name

abbrev pub public_key : String → String
public_key name = String.◌++◌ "type_public:" name

type_key-is_key_of : (name : String) → is_key_of (type_key name) name ≡ true
type_key-is_key_of name = rw (eq_refl (type_key name)) refl

keys_differ : (name : String) → eq_text (public_key name) (type_key name) ≡ false
keys_differ name = elim (Bool-cases (eq_text (public_key name) (type_key name))) [
  | inl same ↦ clash (
      sym (not_type name)
      ∙ ap (strip_prefix "type:") ((eq_iff (public_key name) (type_key name)).0 same)
      ∙ strip_prefix-append "type:" name)
  | inr other ↦ other
]
  where
    clash : none ≡ some name → eq_text (public_key name) (type_key name) ≡ false
    clash h = cc

-- Rows that are apart: the key of a name has the id of the row of the name, and none without a row.
own_value :
    (t : ResourceType) (s : RealmState)
    → Inv s
    → where_true (has_name t.name) s.types ≡ t ∷ []
    → row_value s (type_key t.name) ≡ some (str_of t.id)
own_value t s v found =
    let k = type_key t.name in
    let own : value_at k t ≡ some (str_of t.id) = rw (keys_differ t.name, eq_refl k) refl in
    let here : lookup k s.types ≡ some (str_of t.id) =
      sym (lookup-present k (has_name t.name) t s.types v.distinct found)
      ∙ ap (λ o. or_else o (lookup k s.types)) own in
    last-assignments k s ∙ rw (roles_silent k t.name s (type_key-is_key_of t.name), here) refl

row_value-type :
    (name : String) (t : ResourceType) (s : RealmState)
    → Inv s
    → where_true (has_name name) s.types ≡ t ∷ []
    → t.name ≡ name
    → row_value s (type_key name) ≡ some (str_of t.id)
row_value-type name t s v found same =
    subst (λ n. row_value s (type_key n) ≡ some (str_of t.id)) same
      (own_value t s v (rw (← same) at found))

flipped :
    (name : String) (ts : List ResourceType)
    → where_true (has_name name) ts ≡ []
    → any (λ t. eq_text name t.name) ts ≡ false
flipped name [] h = refl
flipped name (t ∷ ts) h = elim (Bool-cases (has_name name t)) [
  | inl kept ↦ clash (rw kept at h)
  | inr dropped ↦
      let off : eq_text name t.name ≡ false =
        ground (arith, dropped, eq_iff name t.name, eq_iff t.name name) in
      rw off (flipped name ts (rw dropped at h))
]
  where
    clash : t ∷ where_true (has_name name) ts ≡ [] → any (λ t. eq_text name t.name) (t ∷ ts) ≡ false
    clash h = cc

row_value-unknown :
    (name : String) (s : RealmState)
    → where_true (has_name name) s.types ≡ []
    → row_value s (type_key name) ≡ none
row_value-unknown name s absent =
    let k = type_key name in
    let key = type_key-is_key_of name in
    let nowhere : lookup k s.types ≡ none =
      lookup-apart k (record { id = 0; name = name; is_public = false; realm_id = 0 }) s.types
        (flipped name s.types absent) key in
    last-assignments k s ∙ rw (roles_silent k name s key, nowhere, others_silent k name s key) refl

where_true-holds :
    (p : ResourceType → Bool) (x : ResourceType) (ts : List ResourceType)
    → where_true p ts ≡ x ∷ []
    → p x ≡ true
where_true-holds p x [] h = cc
where_true-holds p x (t ∷ ts) h = elim (Bool-cases (p t)) [
  | inl kept ↦ ap p (sym (cons_head t x (where_true p ts) [] (rw kept at h))) ∙ kept
  | inr dropped ↦ where_true-holds p x ts (rw dropped at h)
]

-- what the search for the row of a name finds, as `resolve_ids` answers it
abbrev pub row_id : Option ResourceType → Result ℕ
row_id none = err
row_id (some t) = ok t.id

row_value-row_id :
    (name : String) (s : RealmState) (found : Option ResourceType)
    → Inv s
    → one_or_none (where_true (has_name name) s.types) ≡ ok found
    → (or_raise (row_value s (type_key name)) >>= int_of) ≡ row_id found
row_value-row_id name s none v h =
    ap (λ o. or_raise o >>= int_of) (row_value-unknown name s (one_or_none-missing _ h))
row_value-row_id name s (some t) v h =
    let only = one_or_none-found _ t h in
    let same = (eq_iff t.name name).0 (where_true-holds (has_name name) t s.types only) in
    ap (λ o. or_raise o >>= int_of) (row_value-type name t s v only same)
    ∙ rw (str_of-nonempty t.id) (int_of-str_of t.id)

-- From a realm in which no two types have one name or one id, every id of a type is below the next one,
-- and the hash, if there is one, answers every key as a mapping made of the rows would, after any calls of
-- `ResourceTypeService`, of `create_action`, `update_action` and `delete_action`, and of `get_realm_map`: the id that `resolve_ids` reads for the name of a type in the
-- realm map is the id that the row of the name has, and it raises if there is no row.
pub run-type_id :
    (cs : List Call) (name : String) (s : RealmState) (found : Option ResourceType)
    → Inv s
    → one_or_none (where_true (has_name name) (run cs s).types) ≡ ok found
    → (or_raise (find (type_key name) (get_realm_map (run cs s)).0) >>= int_of) ≡ row_id found
run-type_id cs name s found v h =
    ap (λ o. or_raise o >>= int_of)
      (run-map cs (type_key name) s v ∙ find-mapping_of (type_key name) (run cs s))
    ∙ row_value-row_id name (run cs s) found (run-Inv cs s v) h

-- the rest of a `get_realm_map` that read the rows in an earlier state
abbrev pub rebuild_from : RealmState → RealmState → List Entry × RealmState
rebuild_from before s = rebuild (mapping_of before) s

-- If the realm map is not cached and no type has the name: `create_resource_type` returns, and when a
-- `get_realm_map` that had read the rows before goes on after it, the type is in its table, and the
-- realm map that is read from then on has no type of the name.
pub create_resource_type-race :
    (name : String) (p : Bool) (s : RealmState)
    → s.hash ≡ none
    → where_true (has_name name) s.types ≡ []
    → (out : ResourceType × RealmState) × (create_resource_type name p s ≡ ok out)
      × (any (has_name name) out.1.types ≡ true)
      × (find (type_key name) (get_realm_map (rebuild_from s out.1).1).0 ≡ none)
unfolding create_resource_type get_realm_map update_realm_type mapping_of
create_resource_type-race name p s cold absent = rw absent (
  _,
  refl,
  there s.types,
  rw cold (find-mapping_of (type_key name) s ∙ row_value-unknown name s absent),
)
  where
    there : (ts : List ResourceType) → any (has_name name) (ts ++ new_type s name p ∷ []) ≡ true
    there [] = rw (eq_refl name) refl
    there (t ∷ ts) = rw (there ts) (or-true (has_name name t))
