-- ===== src/Subscription.antt =====
-- service/network-service/src/subscription: from the body of a subscription to the stored nodes.
pub mod Crates
pub mod Link
pub mod Ss
pub mod Vmess
pub mod Trojan
pub mod Vless
pub mod Socks
pub mod Parser
pub mod Decoder
pub mod HostPort
pub mod FreshNode
pub mod Counts
pub mod Lines
pub mod Share
pub mod Manager
pub mod Refresh
pub mod View
