-- ===== src/Dhan.antt =====
-- The package nautilus_india/dhan: one module below for each of its files.
pub mod Json
pub mod Exc
pub mod Errors
pub mod Http
pub mod Constants
pub mod Config
pub mod Auth
pub mod Orders
pub mod SuperOrders
pub mod ForeverOrders
pub mod Binary
pub mod Ws
pub mod Data
pub mod OrderUpdates
pub mod Parsing
pub mod Providers
pub mod Execution
pub mod Factories
pub mod Tests
