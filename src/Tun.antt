-- ===== src/Tun.antt =====
-- service/network-service/src/tun: the adapter and the packets.
pub mod Manager
pub mod Packet
pub mod Bounds
