-- ===== src/Dns.antt =====
-- service/network-service/src/dns: names and their addresses.
pub mod Cache
pub mod Fresh
pub mod Wire
pub mod Resolver
pub mod Manager
