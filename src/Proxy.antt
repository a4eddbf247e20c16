-- ===== src/Proxy.antt =====
-- service/network-service/src/proxy: the external proxy core.
pub mod Core
pub mod SingboxDns
pub mod Singbox
pub mod Xray
