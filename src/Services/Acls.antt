-- ===== src/Services/Acls.antt =====
-- common/application/acl_service.py: the rows and the searches in them, the operations, the batch,
-- and what the operations keep.
pub mod Rows
pub mod Operations
pub mod Batch
pub mod Distinct
pub mod Replaced
pub mod Kept
pub mod Calls
pub mod Fresh
pub mod Forgets
pub mod Steps
pub mod Stale
pub mod AsMap
pub mod Upserts
pub mod Returns
pub mod Pages
pub mod Faults
