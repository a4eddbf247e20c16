-- ===== src/Config.antt =====
-- service/network-service/src/config: the persistent configuration and the run-time hint.
pub mod Schema
pub mod Defaults
pub mod Manager
pub mod Saves
