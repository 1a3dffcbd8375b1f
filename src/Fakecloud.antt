-- ===== src/Fakecloud.antt =====
-- providers/fakecloud: the three simulated clouds and the backend that fronts them.
pub mod Catalog
pub mod Multiplex
pub mod Provider
pub mod Sample
mod Examples
