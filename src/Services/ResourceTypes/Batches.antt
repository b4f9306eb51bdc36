-- ===== src/Services/ResourceTypes/Batches.antt =====
-- A batch of types keeps the rows apart, and leaves no hash.
use stateful_abac_policy_eng.Prelude.{
  suc, Bool, Option, none, some, List, [], ◌∷◌, ◌≡◌, where_true, any-none, ok, ok_of_bind,
  ok_injective, arith, ◌<◌,
}
use stateful_abac_policy_eng.Policy.{ResourceType}
use stateful_abac_policy_eng.RealmCache.{RealmState}
use stateful_abac_policy_eng.Services.Acls.Rows.{one_or_none}
use stateful_abac_policy_eng.Services.Acls.Kept.{one_or_none-missing}
use stateful_abac_policy_eng.Services.ResourceTypes.{
  TypeCreate, TypeUpdate, BatchTypes, has_name, new_type, changed_type, write_type,
  batch_resource_types, create_types, update_types, insert_found, update_one, write_found, selected,
}
use stateful_abac_policy_eng.Services.ResourceTypes.Changes.{AllDistinct}
use stateful_abac_policy_eng.Services.ResourceTypes.Rows.{
  AllBelow, AllBelow-next, AllBelow-append, AllBelow-where_true, AllBelow-replace,
  AllDistinct-append, AllDistinct-where_true, AllDistinct-replace,
}
use stateful_abac_policy_eng.Services.ResourceTypes.Kept.{Inv}
use stateful_abac_policy_eng.Services.ResourceTypes.Written.{write_type-free}

-- the part of the invariant about the rows, which a batch keeps while it runs
abbrev IsApart : RealmState → Type 0
IsApart s = AllDistinct s.types × AllBelow s.next_id s.types

create_types-IsApart :
    (items : List TypeCreate) (s out : RealmState)
    → create_types items s ≡ ok out
    → IsApart s
    → IsApart out
create_types-IsApart [] s out h v = rw (← ok_injective _ out h) v
create_types-IsApart (item ∷ rest) s out h v =
    let (found, looked, later) =
      ok_of_bind (one_or_none (where_true (has_name item.name) s.types)) _ out h in
    create_types-IsApart rest (insert_found item s found) out later (either found looked v)
  where
    either :
        (found : Option ResourceType)
        → one_or_none (where_true (has_name item.name) s.types) ≡ ok found
        → IsApart s
        → IsApart (insert_found item s found)
    either none looked (distinct, below) =
        let new = new_type s item.name item.is_public in
        let next : s.next_id < suc s.next_id = omega arith in
        (
          AllDistinct-append new s.types distinct below
              (any-none (has_name item.name) s.types (one_or_none-missing _ looked)),
          AllBelow-append (suc s.next_id) s.types new (AllBelow-next s.next_id s.types below) next,
        )
    either (some x) looked v = v

write_type-IsApart :
    (new : ResourceType) (s out : RealmState) → write_type new s ≡ ok out → IsApart s → IsApart out
write_type-IsApart new s out h (distinct, below) =
    let (free, row) = write_type-free new s out h in
    rw (← row)
      (AllDistinct-replace new s.types distinct free, AllBelow-replace new s.next_id s.types below)

update_one-IsApart :
    (item : TypeUpdate) (s out : RealmState) (test : Option (ResourceType → Bool))
    → update_one item s test ≡ ok out
    → IsApart s
    → IsApart out
update_one-IsApart item s out none h v = rw (← ok_injective _ out h) v
update_one-IsApart item s out (some test) h v =
    let (found, looked, later) = ok_of_bind (one_or_none (where_true test s.types)) _ out h in
    either found later
  where
    either : (found : Option ResourceType) → write_found item s found ≡ ok out → IsApart out
    either none later = rw (← ok_injective _ out later) v
    either (some x) later =
        write_type-IsApart (changed_type item.name item.is_public x) s out later v

update_types-IsApart :
    (items : List TypeUpdate) (s out : RealmState)
    → update_types items s ≡ ok out
    → IsApart s
    → IsApart out
update_types-IsApart [] s out h v = rw (← ok_injective _ out h) v
update_types-IsApart (item ∷ rest) s out h v =
    let (t, one, later) = ok_of_bind (update_one item s (selected item.id item.name)) _ out h in
    update_types-IsApart rest t out later
      (update_one-IsApart item s t (selected item.id item.name) one v)

pub batch_resource_types-Inv :
    (o : BatchTypes) (s out : RealmState) → batch_resource_types o s ≡ ok out → Inv s → Inv out
unfolding batch_resource_types
batch_resource_types-Inv o s out h v =
    let (created, made, h₁) = ok_of_bind (create_types o.create s) _ out h in
    let (written, changed, done) = ok_of_bind (update_types o.update created) _ out h₁ in
    let (distinct, below) =
      update_types-IsApart o.update created written changed
        (create_types-IsApart o.create s created made (v.distinct, v.below)) in
    rw (← ok_injective _ out done) record {
      distinct = AllDistinct-where_true _ written.types distinct;
      below = AllBelow-where_true _ written.next_id written.types below;
      agrees = tt;
    }
