-- ===== src/Auth/Contexts.antt =====
-- common/services/context_builder.py: the context that the conditions refer to. A principal whose
-- attributes are no object, or empty, counts as one without. Assignments keep an object's other keys.
use Prim.Native.Char.{Char}
use Prim.Native.String
use Prim.Native.String.append
use stateful_abac_policy_eng.Prelude.{
  String, Bool, true, false, Option, none, some, List, ◌∷◌, ◌≡◌, refl, ap, ◌∙◌, eq_text, eq_iff,
  if◌then◌else◌, str_of, strip_prefix, strip_prefix-append, split_dots, Bool-cases, inl, inr, arith,
}
use stateful_abac_policy_eng.Json.{Json, num, str, obj, Fields, end, field, get_field}
use stateful_abac_policy_eng.Resolve.{get_value_from_context, walk}
use stateful_abac_policy_eng.Services.PrincipalCache.{CachedPrincipal}

-- `attributes[key] = value`
abbrev pub set_member : String → Json → Fields → Fields
set_member k v end = field k v end
set_member k v (field j w fs) =
    let rest = set_member k v fs in if eq_text j k then field j v fs else field j w rest

-- `attributes.copy() if attributes else {}`
abbrev pub fields_of : Json → Fields
fields_of (obj fs) = fs
fields_of _ = end

abbrev pub principal_members : CachedPrincipal → Fields
principal_members p = set_member "realm_id" (num (str_of p.realm_id)) (
    set_member "username" (str p.username)
      (set_member "id" (num (str_of p.id)) (fields_of p.attributes)))

-- `build_unified_context`
unfoldable pub build_unified_context : CachedPrincipal → Json → Json
build_unified_context p req_context =
    obj (field "principal" (obj (principal_members p)) (field "context" req_context end))

get_field-set_member :
    (k j : String) (v : Json) (fs : Fields)
    → get_field k (set_member j v fs) ≡ (if eq_text j k then some v else get_field k fs)
get_field-set_member k j v end = refl
get_field-set_member k j v (field i w fs) = elim (Bool-cases (eq_text i j)) [
  | inl same ↦ rw (same, (eq_iff i j).0 same) (again (eq_text j k))
  | inr other ↦ elim (Bool-cases (eq_text i k)) [
    | inl here ↦
        let off : eq_text j k ≡ false =
          ground (arith, other, (eq_iff i k).0 here, eq_iff j k, eq_iff i j) in
        rw (other, here, off) refl
    | inr there ↦ rw (other, there) (get_field-set_member k j v fs)
  ]
]
  where
    again :
        (b : Bool)
        → (if b then some v else get_field k fs)
          ≡ (if b then some v else (if b then some w else get_field k fs))
    again true = refl
    again false = refl

-- what a key of the principal holds
abbrev pub principal_value : CachedPrincipal → String → Option Json
principal_value p k =
    if eq_text "realm_id" k
    then some (num (str_of p.realm_id))
    else if eq_text "username" k
    then some (str p.username)
    else if eq_text "id" k
    then some (num (str_of p.id))
    else get_field k (fields_of p.attributes)

get_field-principal_members :
    (p : CachedPrincipal) (k : String) → get_field k (principal_members p) ≡ principal_value p k
get_field-principal_members p k =
    let a = set_member "id" (num (str_of p.id)) (fields_of p.attributes) in
    let b = set_member "username" (str p.username) a in
    get_field-set_member k "realm_id" (num (str_of p.realm_id)) b
    ∙ ap (λ o. if eq_text "realm_id" k then some (num (str_of p.realm_id)) else o)
        (get_field-set_member k "username" (str p.username) a
          ∙ ap (λ o. if eq_text "username" k then some (str p.username) else o)
              (get_field-set_member k "id" (num (str_of p.id)) (fields_of p.attributes)))

abbrev dollar : Char
dollar = "$"

abbrev letter_p : Char
letter_p = "p"

not_context : (path : String) → strip_prefix "$context." (String.◌++◌ "$principal." path) ≡ none
unfolding strip_prefix
not_context path =
    rw (append.cons dollar "principal." path, append.cons letter_p "rincipal." path) refl

-- Under the context that `build_unified_context` makes: a reference $principal.<path>, whose first key
-- is `key`, is looked up by `get_value_from_context` from the principal's id, user name or realm if the
-- key is id, username or realm_id, whatever the attributes and the request say, and else from the
-- principal's attributes; a reference $context.<path> is looked up in the request's context.
pub get_value_from_context-build_unified_context :
    (render : Json → String) (p : CachedPrincipal) (req_context : Json) (path key : String)
    (rest : List String)
    → split_dots path ≡ key ∷ rest
    → (get_value_from_context render
          (build_unified_context p req_context)
          (some (String.◌++◌ "$principal." path))
        ≡ walk render (principal_value p key) rest)
      × (get_value_from_context render
            (build_unified_context p req_context)
            (some (String.◌++◌ "$context." path))
          ≡ walk render (some req_context) (key ∷ rest))
unfolding get_value_from_context build_unified_context walk
get_value_from_context-build_unified_context render p req_context path key rest h = (
  rw (not_context path, strip_prefix-append "$principal." path, h)
      (ap (λ o. walk render o rest) (get_field-principal_members p key)),
  rw (strip_prefix-append "$context." path, h) refl,
)
