-- ===== src/Tests.antt =====
-- Runs on concrete inputs, and each theorem at an input that meets its conditions.
pub mod Caches
pub mod Logs
pub mod Snapshots
pub mod Rings
pub mod Breakers
pub mod Servers
pub mod Requests
pub mod Nodes
pub mod Programs
pub mod Benches
pub mod Writes
pub mod Calls
