-- ===== src/Services/ResourceTypes/Entries.antt =====
-- The entries of types in a realm map: which key each has, and what a change of the rows changes.
use Prim.Native.Char.{Char}
use Prim.Native.String
use Prim.Native.String.append
use stateful_abac_policy_eng.Prelude.{
  String, Bool, true, false, ◌||◌, Option, none, some, List, [], ◌∷◌, ◌++◌, ◌≡◌, refl, sym, ap, ◌∙◌,
  eq_text, eq_iff, Bool-cases, inl, inr, strip_prefix, strip_prefix-append, has_prefix, true_false,
}
use stateful_abac_policy_eng.Policy.{Action}
use stateful_abac_policy_eng.Auth.{Entry}
use stateful_abac_policy_eng.RealmCache.{
  AuthRole, KeycloakConfig, config_entries, action_entries, role_entries, text_entry,
}
use stateful_abac_policy_eng.RealmCache.Lookups.{last}

-- a key that an entry of a type can have
unfoldable pub is_type_key : String → Bool
unfolding has_prefix
is_type_key k = has_prefix "type:" k || has_prefix "type_public:" k

-- the two keys of a name
abbrev pub is_key_of : String → String → Bool
is_key_of k name =
    eq_text k (String.◌++◌ "type:" name) || eq_text k (String.◌++◌ "type_public:" name)

-- the name in a key
abbrev name_from : Option String → Option String → Option String
name_from none public = public
name_from (some name) public = some name

unfoldable name_in : String → Option String
unfolding strip_prefix
name_in k = name_from (strip_prefix "type:" k) (strip_prefix "type_public:" k)

abbrev letter_t : Char
letter_t = "t"

abbrev colon : Char
colon = ":"

abbrev underscore : Char
underscore = "_"

pub not_type : (name : String) → strip_prefix "type:" (String.◌++◌ "type_public:" name) ≡ none
unfolding strip_prefix
not_type name =
    rw
      (
        append.cons letter_t "ype_public:" name,
        append.cons "y" "pe_public:" name,
        append.cons "p" "e_public:" name,
        append.cons "e" "_public:" name,
        append.cons underscore "public:" name,
      )
      refl

name_in-type : (name : String) → name_in (String.◌++◌ "type:" name) ≡ some name
unfolding name_in
name_in-type name = rw (strip_prefix-append "type:" name) refl

name_in-public : (name : String) → name_in (String.◌++◌ "type_public:" name) ≡ some name
unfolding name_in
name_in-public name = rw (not_type name, strip_prefix-append "type_public:" name) refl

name_in-key : (k name : String) → is_key_of k name ≡ true → name_in k ≡ some name
name_in-key k name h = elim (Bool-cases (eq_text k (String.◌++◌ "type:" name))) [
  | inl type ↦ ap name_in ((eq_iff k (String.◌++◌ "type:" name)).0 type) ∙ name_in-type name
  | inr other ↦
      ap name_in ((eq_iff k (String.◌++◌ "type_public:" name)).0 (rw other at h))
      ∙ name_in-public name
]

-- A key is a key of one name at most.
pub one_name : (k a b : String) → is_key_of k a ≡ true → is_key_of k b ≡ true → eq_text a b ≡ true
one_name k a b h g = (eq_iff a b).1 (some_eq a b (sym (name_in-key k a h) ∙ name_in-key k b g))
  where
    some_eq : (a b : String) → some a ≡ some b → a ≡ b
    some_eq a b e = cc

pub key-is_type_key : (k name : String) → is_key_of k name ≡ true → is_type_key k ≡ true
unfolding is_type_key has_prefix
key-is_type_key k name h = elim (Bool-cases (eq_text k (String.◌++◌ "type:" name))) [
  | inl type ↦
      rw ((eq_iff k (String.◌++◌ "type:" name)).0 type, strip_prefix-append "type:" name) refl
  | inr other ↦
      rw
        (
          (eq_iff k (String.◌++◌ "type_public:" name)).0 (rw other at h),
          not_type name,
          strip_prefix-append "type_public:" name,
        )
        refl
]

-- Entries of no type.
abbrev pub NoTypes : List Entry → Type 0
NoTypes [] = Unit
NoTypes (e ∷ es) = (is_type_key e.key ≡ false) × NoTypes es

pub NoTypes-append : (es fs : List Entry) → NoTypes es → NoTypes fs → NoTypes (es ++ fs)
NoTypes-append [] fs h g = g
NoTypes-append (e ∷ es) fs (h, t) g = (h, NoTypes-append es fs t g)

pub last-NoTypes :
    (k : String) (es : List Entry) → NoTypes es → is_type_key k ≡ true → last k es ≡ none
last-NoTypes k [] h type = refl
last-NoTypes k (e ∷ es) (h, t) type = elim (Bool-cases (eq_text e.key k)) [
  | inl same ↦ true_false (is_type_key e.key) (ap is_type_key ((eq_iff e.key k).0 same) ∙ type) h
  | inr other ↦ rw (other, last-NoTypes k es t type) refl
]

abbrev letter_r : Char
letter_r = "r"

pub role_entries-NoTypes : (roles : List AuthRole) → NoTypes (role_entries roles)
unfolding is_type_key has_prefix strip_prefix
role_entries-NoTypes [] = tt
role_entries-NoTypes (r ∷ roles) =
    (rw (append.cons letter_r "ole:" r.name) refl, role_entries-NoTypes roles)

abbrev letter_a : Char
letter_a = "a"

pub action_entries-NoTypes : (actions : List Action) → NoTypes (action_entries actions)
unfolding is_type_key has_prefix strip_prefix
action_entries-NoTypes [] = tt
action_entries-NoTypes (a ∷ actions) =
    (rw (append.cons letter_a "ction:" a.name) refl, action_entries-NoTypes actions)

text_entry-NoTypes :
    (key : String) (o : Option String) → is_type_key key ≡ false → NoTypes (text_entry key o)
text_entry-NoTypes key none h = tt
text_entry-NoTypes key (some s) h = elim (Bool-cases (eq_text s "")) [
  | inl empty ↦ rw empty tt
  | inr full ↦ rw full (h, tt)
]

pub config_entries-NoTypes : (c : Option KeycloakConfig) → NoTypes (config_entries c)
unfolding is_type_key has_prefix strip_prefix
config_entries-NoTypes none = tt
config_entries-NoTypes (some c) =
    NoTypes-append (text_entry "_public_key" c.public_key)
      (text_entry "_algorithm" (some c.algorithm))
      (text_entry-NoTypes "_public_key" c.public_key refl)
      (text_entry-NoTypes "_algorithm" (some c.algorithm) refl)
