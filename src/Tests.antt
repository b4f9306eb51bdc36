-- ===== src/Tests.antt =====
-- The results at concrete inputs.
mod Rules
mod Requests
mod Checks
mod Compiled
mod AclRows
mod RealmMaps
mod PrincipalRows
mod Manifests
