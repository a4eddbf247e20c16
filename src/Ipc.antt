-- ===== src/Ipc.antt =====
-- service/network-service/src/ipc: the pipe to the client.
pub mod Frame
pub mod Stream
