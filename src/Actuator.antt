-- ===== src/Actuator.antt =====
-- pkg/actuators/machine/actuator.go: the machine actuator. `World` is its environment and state;
-- the other modules are its parts, from the pure helpers to the four operations.
pub mod World
pub mod Request
pub mod Alerts
pub mod Conditions
pub mod Topology
pub mod Provider
pub mod ApiClient
pub mod Client
pub mod Health
pub mod PreFlight
pub mod Monitor
pub mod Progress
pub mod Create
pub mod Update
pub mod Exists
pub mod Delete
