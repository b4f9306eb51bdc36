-- ===== src/Sdk.antt =====
-- The Python SDK under python-sdk/src/stateful_abac_sdk.
pub mod Condition
