-- ===== src/Routing.antt =====
-- service/network-service/src/routing: the rules, their indexes, and the decision for a flow.
pub mod Rule
pub mod BitTrie
pub mod Lpm
pub mod DomainTrie
pub mod IpIndex
pub mod Index
pub mod GeoIp
pub mod Private
pub mod Domain
pub mod Arena
pub mod Suffix
pub mod Publish
pub mod Cidr
pub mod Engine
pub mod Decision
pub mod Boot
pub mod Restart
