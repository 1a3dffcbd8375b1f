-- ===== src/Backend.antt =====
-- backend/cmd/demo-backend: the backend that runs inside the stack of a session.
pub mod Clock
pub mod Limiter
pub mod Services
pub mod Demand
pub mod Nodes
pub mod Fleet
pub mod Feed
pub mod Hub
pub mod Scenario
pub mod Dashboards
pub mod Wait
pub mod Shard
pub mod Latest
pub mod Handlers
pub mod Startup
pub mod World
mod Examples
