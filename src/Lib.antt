-- ===== src/Lib.antt =====
-- A stateful ABAC policy engine: how a request for access is decided.
--
-- Rows of the table acl grant an action on the resources of a type to a principal or to a role, under a
-- condition. An SDK builds the conditions; PostgreSQL functions, which the migrations under
-- alembic/versions create, find the authorized resources and turn the rows into a condition for a
-- client's own query; a Python service in front of them finds the roles of the caller, caches decisions
-- in Redis and answers the items of a request. The request context and the attributes of the principal
-- are one JSON value, to whose parts a condition refers by $context. and $principal. A realm holds the
-- types, actions, roles, principals, resources and rows of acl; services change them one by one, and a
-- manifest, one JSON document, describes all of them to an import and is what an export writes.
--
-- The files:
-- - Prelude: Boolean tests, lists, texts, the digits of a number and computations that may raise.
-- - Json: JSONB values and the operators on them that the functions use. A number is the text it
--   prints as, an object its fields in one canonical order. Json/Equality: equality of JSONB.
-- - Sdk/Condition: python-sdk/src/stateful_abac_sdk/manifest/constants.py and the condition builders of
--   builder.py beside it. A condition that a client nests is `Condition`, and `encode` what it sends.
-- - Resolve, with Resolve/Loops: get_value_from_context and resolve_abac_condition of
--   alembic/versions/58055ca375cf_add_get_authorization_conditions_.py. SQL's NULL is `none`, a raised
--   exception `err`. Resolve/Meaning has the meaning of a condition and of an answer in three-valued
--   logic, Resolve/Values, Resolve/Leaf and Resolve/Sound relate the two, Resolve/Faults has where they part.
-- - Policy: the columns of common/models.py that the functions read, and the tests that they share.
-- - Policy/Conditions: get_authorization_conditions of the same migration. Its children follow the
--   loop over the groups (Rounds) and the filter made of it (Merged), say what a filter and a row let
--   through (Allows), and put them together (Exact, Missing).
-- - Policy/Resources: get_authorized_resources of alembic/versions/3_auth_resource_filter.py and of
--   alembic/versions/130e5b6db576_add_type_level_acl_short_circuit_.py.
-- - Policy/Permitted: get_permitted_actions_batch of alembic/versions/5_get_permitted_actions_batch.py.
-- - Auth: the lookups in the realm map of common/services/cache.py, and the principal of
--   common/services/security.py. Auth/Roles: the roles with which check_access,
--   get_permitted_actions and get_authorization_conditions of common/application/auth_service.py decide,
--   and the cache of roles. Auth/Decisions: the cached type-level decisions of cache.py. Auth/Access:
--   _process_access_item_with_preresolved, with (Items) the schemas of common/schemas/auth.py and the
--   entry of common/services/audit.py; Cached, Chunks, Grants, General and Listed follow an item through
--   it. Auth/Permitted: the answer of get_permitted_actions to one item.
--   Auth/Externals: the cache of external ids and their look-up for one type. Auth/Check: check_access,
--   with _batch_resolve_external_ids over all items. Auth/Contexts: build_unified_context of
--   common/services/context_builder.py, and what get_value_from_context reads from it.
-- - Compile, with Compile/Quote: compile_condition_to_sql of alembic/versions/add_not_operator.py and
--   the trigger of alembic/versions/1_init.py. Compile/Literal and Compile/Path read literals and paths
--   back; Compile/Clause has the clauses as a syntax, with their printed form and their truth value;
--   Compile/Leaves, Compile/Values, Compile/Agrees and Compile/Sound relate them to the conditions and
--   to the resolver's answer; Compile/Faults has where the text is not what is meant.
-- - Services/Acls: common/application/acl_service.py, in Rows (the searches, with the constraint and the
--   index of the table), Operations and Batch. Distinct, Replaced, Kept and Calls carry an invariant
--   over any calls, Fresh, Forgets, Steps and Stale relate the calls to the cached decisions, AsMap and
--   Upserts give the rows as a map, Returns, Pages and Faults the rest.
-- - RealmCache: the hash of a realm in common/services/cache.py (get_realm_map, invalidate_realm,
--   update_realm_type, remove_realm_type) and the rows that it is made of. RealmCache/Lookups reads a
--   hash after assignments, RealmCache/Numbers reads back the ids in it.
-- - Services/ResourceTypes: common/application/resource_type_service.py. Entries and Changes say which
--   keys a type has and what a row changes, Removed what a deletion or a renaming does, Hash relates
--   the hash to the rows, Rows, Kept, Written and Batches carry an invariant through the operations.
--   Services/Actions: common/application/action_service.py, with Stale for its batch.
--   Services/RealmMaps: calls of both services and reads of the map in sequence; Names reads names.
-- - Services/PrincipalCache: the cached principals of common/services/cache.py. Services/Principals:
--   create, update and delete of common/application/principal_service.py; Assigned follows an
--   assignment of roles to a later read, Created has what a creation leaves, Kept what the cache keeps.
--   Services/Roles: delete_role of common/application/role_service.py, with Deleted for what is left.
-- - Manifest: common/application/manifest_service.py, the JSON document of a realm and (Tables) the rows
--   that it describes. apply_manifest is in Sections (types, actions, roles, principals), Bulk
--   (resources), Rules (the rows of acl) and Apply (the realm and the order of the sections, each with its
--   commit), export_manifest in Export. Lookup, Written, Members, Batches, Placed and Grouped say what each
--   section writes where all is new, Assigned, Externals, Found, Named, WithAcls and Granted what an
--   export reads of it; Complete, Outcome, Imported and RoundTrip put them together; Sound, Frames and
--   Kept carry an invariant through every call, and Twice has where a second import parts from the first.
-- - Tests: the results at concrete inputs.
--
-- Parameters stand for what PostgreSQL does: `render` prints JSONB as text, `run` evaluates a stored
-- WHERE clause on a resource, `eval` one without a resource (where it raises, the handler names a
-- logger that its module does not have, and the call raises), `refers` tells whether the text of a
-- condition mentions a reference, `other` compares by an operator other than =, != and IN, and
-- `attribute` is how a client reads a resource. A clause is evaluated only on the resources that the
-- other parts of the statement admit. For a manifest, `compile` is the trigger of acl, `db` is the code
-- behind the bulk statements (what comes of a value in a text that `text()` reads and PostgreSQL runs,
-- and the parser of geometries), `shape` writes a geometry, and `sync_realm` is the synchronisation
-- with Keycloak. The order of a GROUP BY, of a SELECT and of a set is left open by the code and is that
-- of the lists here. Redis and the tables are lists that the functions are given and return; that Redis
-- drops an entry after its lifetime is for the caller to model.
--
-- Fuel stands in the loop over chunks of 30000 ids in Auth/Access and in the loop over batches of 100 in
-- Manifest/Bulk: it is the number of items, and every round takes one at least. The other functions
-- recurse on conditions and lists.
--
-- Not modelled: the audit entries of get_permitted_actions, the interleaving of parallel items,
-- foreign keys, the services of realms and resources, the rest of the role service, the batch of
-- principals, Keycloak, tokens, the audit queue, geometry, the HTTP layer, the SDK's
-- clients and the web interface, which are input and output around the parts above or extend them.
pub mod Prelude
pub mod Json
pub mod Sdk
pub mod Resolve
pub mod Policy
pub mod Auth
pub mod Compile
pub mod RealmCache
pub mod Services
pub mod Manifest
pub mod Tests
