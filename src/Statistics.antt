-- ===== src/Statistics.antt =====
-- service/network-service/src/statistics: the traffic of the sessions.
pub mod Manager
pub mod Flush
