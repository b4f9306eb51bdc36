-- ===== src/Compile/Leaves.antt =====
-- One comparison of a condition that a client builds, the clause that stands for it, and the text that
-- `compile_condition_to_sql` writes for it.
use Prim.Native.String
use Prim.Native.String.append
use stateful_abac_policy_eng.Prelude.{
  String, Bool, true, false, Option, none, some, List, [], ◌∷◌, ◌≡◌, refl, sym, eq_text, ok,
  Bool-cases, inl, inr, strip_prefix, has_prefix, split_dots, is_none,
}
use stateful_abac_policy_eng.Json.{Json, str, get}
use stateful_abac_policy_eng.Resolve.{walk}
use stateful_abac_policy_eng.Resolve.Values.{plain_text}
use stateful_abac_policy_eng.Sdk.Condition.{Source, resource, principal, context, source_value}
use stateful_abac_policy_eng.Compile.{
  quote_literal, steps, right_text, left_text, path_text, reference_text,
}
use stateful_abac_policy_eng.Compile.Literal.{append_assoc}
use stateful_abac_policy_eng.Compile.Clause.{
  Place, attribute_of, at_path, Operand, text, place, print_place, print_operand,
}

abbrev pub place_of : Source → String → Place
place_of resource name = attribute_of name
place_of principal name = at_path "principal" name []
place_of context name = at_path "context" name []

abbrev pub path_operand : String → String → List String → Operand
path_operand root s [] = text s
path_operand root s (key ∷ path) = place (at_path root key path)

abbrev pub operand_at : String → Option String → Option String → Option String → Operand
operand_at s (some path) _ _ = path_operand "principal" s (split_dots path)
operand_at s none (some path) _ = path_operand "context" s (split_dots path)
operand_at s none none (some path) = place (attribute_of path)
operand_at s none none none = text s

unfoldable pub operand_of : String → Operand
unfolding strip_prefix split_dots
operand_of s =
    operand_at s (strip_prefix "$principal." s) (strip_prefix "$context." s)
      (strip_prefix "$resource." s)

-- A name that the resolver reads as one key, and that is not the geometry column.
abbrev pub IsName : Source → String → Type 0
IsName resource name = eq_text name "geometry" ≡ false
IsName _ name = split_dots name ≡ name ∷ []

abbrev pub is_path : List String → Bool
is_path [] = false
is_path (key ∷ path) = true

module _ (render : Json → String) (ctx : Json) where
  abbrev pub IsFoundAt : Option String → Option String → Option String → Type 0
  IsFoundAt (some path) _ _ =
      (is_path (split_dots path) ≡ true)
      × (is_none (walk render (get "principal" ctx) (split_dots path)) ≡ false)
  IsFoundAt none (some path) _ =
      (is_path (split_dots path) ≡ true)
      × (is_none (walk render (get "context" ctx) (split_dots path)) ≡ false)
  IsFoundAt none none (some path) = split_dots path ≡ path ∷ []
  IsFoundAt none none none = Unit

  -- A text that is no reference, or a reference that is found in the context, or one to an attribute
  -- of the resource whose name has no dot.
  unfoldable pub IsFound : String → Type 0
  unfolding strip_prefix split_dots
  IsFound s =
      IsFoundAt (strip_prefix "$principal." s) (strip_prefix "$context." s)
        (strip_prefix "$resource." s)

path_of :
    (root var s : String) (path : List String)
    → is_path path ≡ true
    → path_text (String.◌++◌ var (String.◌++◌ "->'" (String.◌++◌ root "'"))) "->>" path
      ≡ ok (some (print_operand var (path_operand root s path)))
unfolding print_operand
path_of root var s [] h = cc
path_of root var s (key ∷ path) h = refl

one_step :
    (path : String) (keys : List String)
    → keys ≡ path ∷ []
    → path_text "resource.attributes" "->>" keys
      ≡ ok (some (String.◌++◌ "resource.attributes" (String.◌++◌ "->>" (quote_literal path))))
unfolding steps
one_step path keys h = rw h refl

reference-operand :
    (render : Json → String) (ctx : Json) (var s : String) (p c r : Option String)
    → IsFoundAt render ctx p c r
    → reference_text var false s p c r ≡ ok (some (print_operand var (operand_at s p c r)))
unfolding print_operand
reference-operand render ctx var s (some path) c r (h, _) =
    path_of "principal" var s (split_dots path) h
reference-operand render ctx var s none (some path) r (h, _) =
    path_of "context" var s (split_dots path) h
reference-operand render ctx var s none none (some path) h = one_step path (split_dots path) h
reference-operand render ctx var s none none none h = refl

pub right_text-operand :
    (render : Json → String) (ctx : Json) (var s : String)
    → IsFound render ctx s
    → right_text render var false (some (str s)) ≡ ok (some (print_operand var (operand_of s)))
unfolding right_text IsFound operand_of print_operand
right_text-operand render ctx var s h = elim (Bool-cases (has_prefix "$" s)) [
  | inl dollar ↦ rw dollar (
      reference-operand render ctx var s (strip_prefix "$principal." s) (strip_prefix "$context." s)
        (strip_prefix "$resource." s) h)
  | inr plain ↦ let (a, b, c) = plain_text s plain in rw (plain, a, b, c) refl
]

pub left_text-place :
    (var : String) (source : Source) (name : String)
    → IsName source name
    → left_text var false (source_value source) (some name) ≡ print_place var (place_of source name)
unfolding print_place steps
left_text-place var resource name h = rw h refl
left_text-place var principal name h =
    sym (append_assoc var "->'principal'" (String.◌++◌ "->>" (quote_literal name)))
left_text-place var context name h =
    sym (append_assoc var "->'context'" (String.◌++◌ "->>" (quote_literal name)))
