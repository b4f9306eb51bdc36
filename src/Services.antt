-- ===== src/Services.antt =====
-- The services of common/application, over explicit tables.
pub mod Acls
pub mod Actions
pub mod ResourceTypes
pub mod RealmMaps
pub mod PrincipalCache
pub mod Principals
pub mod Roles
