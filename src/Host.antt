-- ===== src/Host.antt =====
-- cmd/demohost: the daemon that runs many isolated demo sessions on one machine.
pub mod State
pub mod Admission
pub mod Ports
pub mod Identity
pub mod Create
pub mod Pool
pub mod Reaper
pub mod Http
pub mod Capacity
pub mod World
pub mod Memory
pub mod Settle
pub mod Scripts
pub mod Serve
pub mod Client
pub mod Begin
mod Examples
