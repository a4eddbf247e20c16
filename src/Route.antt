-- ===== src/Route.antt =====
-- service/network-service/src/route: the system proxy in the registry, with the snapshot of what the
-- user had before, and the bypass list.
pub mod Registry
pub mod Endpoint
pub mod Bypass
pub mod Manager
pub mod Restore
pub mod Crash
pub mod Baseline
