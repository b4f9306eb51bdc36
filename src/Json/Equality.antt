-- ===== src/Json/Equality.antt =====
-- The equality test on JSON values decides equality.
use stateful_abac_policy_eng.Prelude.{
  ◌≡◌, refl, ap, ap₂, ◌&&◌, true, false, arith, eq_iff, eq_refl, eq_text, and_parts,
}
use stateful_abac_policy_eng.Json.{
  Json, null, bool, num, str, arr, obj, Items, nil, cons, Fields, end, field, json_eq, items_eq,
  fields_eq,
}

mutual
  unfolding json_eq

  json_eq-true : (a b : Json) → json_eq a b ≡ true → a ≡ b
  json_eq-true null null h = refl
  json_eq-true (bool a) (bool b) h = ground arith
  json_eq-true (num a) (num b) h = ap num ((eq_iff a b).0 h)
  json_eq-true (str a) (str b) h = ap str ((eq_iff a b).0 h)
  json_eq-true (arr xs) (arr ys) h = ap arr (items_eq-true xs ys h)
  json_eq-true (obj fs) (obj gs) h = ap obj (fields_eq-true fs gs h)
  json_eq-true _ _ h = cc

  items_eq-true : (a b : Items) → items_eq a b ≡ true → a ≡ b
  items_eq-true nil nil h = refl
  items_eq-true (cons x xs) (cons y ys) h =
      let (p, q) = and_parts (json_eq x y) (items_eq xs ys) h in
      ap₂ cons (json_eq-true x y p) (items_eq-true xs ys q)
  items_eq-true _ _ h = cc

  fields_eq-true : (a b : Fields) → fields_eq a b ≡ true → a ≡ b
  fields_eq-true end end h = refl
  fields_eq-true (field k x fs) (field j y gs) h =
      let (p, q) = and_parts (eq_text k j && json_eq x y) (fields_eq fs gs) h in
      let (same, equal) = and_parts (eq_text k j) (json_eq x y) p in
      cc ((eq_iff k j).0 same, json_eq-true x y equal, fields_eq-true fs gs q)
  fields_eq-true _ _ h = cc

mutual
  unfolding json_eq

  json_eq-same : (a : Json) → json_eq a a ≡ true
  json_eq-same null = refl
  json_eq-same (bool true) = refl
  json_eq-same (bool false) = refl
  json_eq-same (num a) = eq_refl a
  json_eq-same (str a) = eq_refl a
  json_eq-same (arr xs) = items_eq-same xs
  json_eq-same (obj fs) = fields_eq-same fs

  items_eq-same : (a : Items) → items_eq a a ≡ true
  items_eq-same nil = refl
  items_eq-same (cons x xs) = ground (arith, json_eq-same x, items_eq-same xs)

  fields_eq-same : (a : Fields) → fields_eq a a ≡ true
  fields_eq-same end = refl
  fields_eq-same (field k x fs) = ground (arith, eq_iff k k, json_eq-same x, fields_eq-same fs)

pub json_eq_sound : (a b : Json) → json_eq a b ≡ true → a ≡ b
json_eq_sound = json_eq-true

pub json_eq_refl : (a : Json) → json_eq a a ≡ true
json_eq_refl = json_eq-same
