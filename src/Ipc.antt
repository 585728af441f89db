-- ===== src/Ipc.antt =====
-- plugin/src/rvc/ipc: the payloads, the clients and the C interface over them.
pub mod Transport
pub mod Status
pub mod Exchange
pub mod Connections
