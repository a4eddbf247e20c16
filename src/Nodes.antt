-- ===== src/Nodes.antt =====
-- service/network-service/src/nodes: the nodes a connection can use.
pub mod Model
pub mod Manager
pub mod Keys
pub mod Swap
