-- ===== src/Protocol.antt =====
-- agent/protocol/src/lib.rs: the wire protocol of the agent.
pub mod Frame
pub mod Syntax
pub mod Message
pub mod Validate
pub mod Replay
pub mod Envelope
pub mod Crypto
pub mod Invitation
