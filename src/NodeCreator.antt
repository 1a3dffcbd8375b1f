-- ===== src/NodeCreator.antt =====
-- cmd/node-creator: the controller that turns the machines that BigFleet provisioned into nodes.
pub mod Hash
pub mod Names
pub mod Labels
pub mod Status
pub mod Tick
pub mod Startup
pub mod Cluster
mod Examples
