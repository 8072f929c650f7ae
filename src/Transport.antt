-- ===== src/Transport.antt =====
-- agent/protocol/agent/transport/src/lib.rs: authenticated sessions over a byte stream.
pub mod Action
pub mod Wire
pub mod Heartbeat
pub mod Multiplex
pub mod NonceFile
pub mod StoredKey
pub mod Session
pub mod Socks
pub mod Host
pub mod Cliente
pub mod Handshake
