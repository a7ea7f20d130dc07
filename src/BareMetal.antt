-- ===== src/BareMetal.antt =====
-- The controller that mirrors NICo machines as BareMetalHost objects.
pub mod Types
pub mod Mapper
pub mod Cluster
pub mod Sync
