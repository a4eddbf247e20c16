-- ===== src/App.antt =====
-- service/network-service/src/app: the connection's state machine and its life cycle.
pub mod State
pub mod Lifecycle
