-- ===== src/Examples.antt =====
-- Concrete values and servers, and the theorems applied to them.
pub mod Sample
pub mod Metal
pub mod Texts
pub mod Kept
mod Identifiers
mod Specs
mod Health
mod Hosts
mod Runs
mod Progress
mod Sdk
mod Stored
pub mod Timeout
