-- ===== src/Api.antt =====
-- The data that the components exchange: the provider's own types, Go errors, the SDK's types.
pub mod Errors
pub mod Types
pub mod Sdk
