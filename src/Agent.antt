-- ===== src/Agent.antt =====
-- The agent of src/: its registries and stores, its file checks and its command line.
pub mod HostRegistry
pub mod VirtualIp
pub mod Role
pub mod Arguments
pub mod Json
pub mod Peers
pub mod Status
pub mod State
pub mod Samples
pub mod Origin
pub mod Mode
pub mod Tor
pub mod Runtime
pub mod Handlers
pub mod Pairing
pub mod Envelopes
pub mod Invitations
pub mod Devices
pub mod Dialing
pub mod Serving
pub mod Startup
pub mod Tun
pub mod Request
pub mod Routes
pub mod Http
pub mod Server
pub mod Gate
