-- ===== src/Health.antt =====
-- service/network-service/src/health: the supervision of a session.
pub mod Monitor
pub mod Rounds
