-- ===== src/Tests/AclRows.antt =====
-- A small table of acl, calls of its service, and the results about them.
use stateful_abac_policy_eng.Prelude.{
  String, true, Option, none, some, List, [], ◌∷◌, ◌++◌, ◌≡◌, refl, Result, ok, arith,
}
use stateful_abac_policy_eng.Json.{Json, str}
use stateful_abac_policy_eng.Sdk.Condition.{attr_named, eq, call}
use stateful_abac_policy_eng.Auth.Decisions.{CachedDecision, get_type_level_decision}
use stateful_abac_policy_eng.Compile.{
  compiled_sql_of, compile_condition_to_sql, compile, compile_leaf, right_text,
}
use stateful_abac_policy_eng.Services.Acls.Rows.{
  AclState, RuleKey, AclCreate, for_resource, delete_row,
}
use stateful_abac_policy_eng.Services.Acls.Operations.{
  create_acl, delete_acl_by_key, AclAnswer, map_acl_to_dict, forget_type, with_rows, new_row,
}
use stateful_abac_policy_eng.Services.Acls.Batch.{AclBatchDeleteItem, AclFilters, delete_all}
use stateful_abac_policy_eng.Services.Acls.Kept.{Inv}
use stateful_abac_policy_eng.Services.Acls.Calls.{
  Call, creates, deletes_key, batches, run, run-Inv, step,
}
use stateful_abac_policy_eng.Services.Acls.Fresh.{IsFresh}
use stateful_abac_policy_eng.Services.Acls.Stale.{step-IsFresh}
use stateful_abac_policy_eng.Services.Acls.Upserts.{IsWrite, create_acl-IsWrite}
use stateful_abac_policy_eng.Services.Acls.Returns.{Returns, create_acl-Returns}
use stateful_abac_policy_eng.Services.Acls.Faults.{delete_acl_by_key-unknown, create_acl-foreign}
use stateful_abac_policy_eng.Tests.Rules.{print as json_text, type_row, documents}

abbrev sql_of : Option Json → Result (Option String)
sql_of = compiled_sql_of json_text

abbrev cached_read : CachedDecision
cached_read = record {
  key = record { realm_id = 1; principal_id = 5; type_id = 2; action_id = 3; role_key = [] };
  decision = true;
}

-- the row of the principal 5 for the whole type 2, and the external id of its resource 7
abbrev one_row : AclState
one_row = record {
  acls = type_row ∷ [];
  next_id = 3;
  external_ids =
      record { resource_id = 7; realm_id = 1; resource_type_id = 2; external_id = "doc-1" } ∷ [];
  types = documents ∷ [];
  actions = [];
  principals = [];
  roles = [];
  decisions = cached_read ∷ [];
}

one_row-Inv : Inv one_row
one_row-Inv = record { distinct = (refl, tt); below = (omega arith, tt) }

-- the key of that row
abbrev type_key : RuleKey
type_key = record {
  realm_id = 1;
  resource_type_id = 2;
  action_id = 3;
  principal_id = some 5;
  role_id = none;
  resource_id = none;
}

abbrev is_ann : Json
is_ann = call (attr_named "owner") eq (str "ann")

-- a row for the resource of the external id
abbrev for_document : AclCreate
for_document = record {
  key = type_key;
  conditions = some is_ann;
  resource_external_id = some "doc-1";
}

abbrev drop_unknown : AclBatchDeleteItem
drop_unknown = record {
  resource_type_id = 2;
  action_id = 3;
  principal_id = some 5;
  role_id = none;
  resource_id = none;
  resource_external_id = some "doc-9";
}

abbrev three_calls : List Call
three_calls =
    creates 1 for_document
    ∷ batches 1 (record { create = for_document ∷ []; update = []; delete = drop_unknown ∷ [] })
    ∷ deletes_key 1 type_key (some "doc-1")
    ∷ []

run-Inv_example : Inv (run sql_of three_calls one_row)
run-Inv_example = run-Inv sql_of three_calls one_row (refl, ((refl, tt), (tt, tt))) one_row-Inv

step-IsFresh_example :
    IsFresh cached_read.key one_row (step sql_of (creates 1 for_document) one_row)
step-IsFresh_example = step-IsFresh sql_of (creates 1 for_document) cached_read.key one_row refl

made : (out : AclAnswer × AclState) × (create_acl sql_of 1 for_document one_row ≡ ok out)
unfolding create_acl compiled_sql_of compile_condition_to_sql compile compile_leaf right_text
made = (_, refl)

create_acl-IsWrite_example :
    IsWrite (for_resource (some 7) type_key) (some is_ann) one_row.acls made.0.1.acls type_key
create_acl-IsWrite_example =
    create_acl-IsWrite sql_of 1 for_document one_row made.0 (some 7) type_key one_row-Inv refl refl
      made.1

create_acl-Returns_example : Returns (create_acl sql_of 1 for_document one_row)
unfolding compiled_sql_of compile_condition_to_sql compile compile_leaf right_text
create_acl-Returns_example =
    create_acl-Returns sql_of 1 for_document one_row (some 7) _ one_row-Inv refl refl refl refl

abbrev no_filters : AclFilters
no_filters = record {
  resource_type_id = none;
  action_id = none;
  principal_id = some 5;
  role_id = none;
  resource_id = none;
}

delete_acl_by_key-unknown_example :
    (delete_acl_by_key 1 type_key (some "doc-9") one_row
      ≡ ok (
        some (map_acl_to_dict one_row type_row),
        forget_type 1 2 (with_rows one_row (delete_row type_row one_row.acls)),
      ))
    × ((d : AclBatchDeleteItem) (rest : List AclBatchDeleteItem)
        → d.resource_type_id ≡ 2
        → delete_all 1 (record d { resource_external_id = some "doc-9" } ∷ rest) one_row
          ≡ delete_all 1 (record d { resource_external_id = none } ∷ rest) one_row)
delete_acl_by_key-unknown_example =
    delete_acl_by_key-unknown 1 type_key "doc-9" one_row type_row (λ e. omega (arith, e)) refl refl
      refl

-- the same body sent to another realm's address
abbrev to_realm_4 : AclCreate
to_realm_4 = record for_document { resource_external_id = none }

foreign : (out : AclAnswer × AclState) × (create_acl sql_of 4 to_realm_4 one_row ≡ ok out)
unfolding create_acl compiled_sql_of compile_condition_to_sql compile compile_leaf right_text
foreign = (_, refl)

create_acl-foreign_example :
    ((sql : Option String) × (foreign.0.1.acls
        ≡ (one_row.acls ++ new_row 3 type_key (some is_ann) sql ∷ [])))
    × (get_type_level_decision foreign.0.1.decisions cached_read.key
        ≡ get_type_level_decision one_row.decisions cached_read.key)
create_acl-foreign_example =
    create_acl-foreign sql_of 4 to_realm_4 one_row foreign.0 none cached_read.key
      (λ e. omega (arith, e)) refl refl foreign.1 refl
