-- ===== src/Lib.antt =====
-- LocalScale: a local-first agent in Rust. One machine is the host and invites others, the clients
-- ("Cliente" in the source); a client reaches the host's onion address through a SOCKS5 proxy, the two
-- run a handshake sealed with the key of the invitation, and then exchange heartbeats and IP packets.
--
-- The parts, and the files that model them:
-- * Prelude, Codec: shared names, lists, results, byte strings, tables; big-endian words, UTF-8,
--   decimal and hexadecimal texts, `split` and `trim`, as the source uses them of Rust's library.
--   A text is the list of its UTF-8 bytes.
-- * Protocol (agent/protocol/src/lib.rs): Frame (encode_frame, decode_frame), Syntax (the field
--   validators), Message (parse_message, validate_syntax, and encode_message of the transport),
--   Validate (validate_message), Replay (ReplayGuard), Envelope (parse_envelope and the bytes of an
--   envelope), Crypto (CryptoKey, HandshakeEnvelope), Invitation (HostInvitation, ClientConfig).
-- * Transport (agent/protocol/agent/transport/src/lib.rs): Action (TransportError, and methods that
--   may fail and keep what they changed), Wire (read_frame, write_frame on a stream), Heartbeat,
--   Multiplex (into_multiplexed and its channels), NonceFile (FileNonceAllocator), StoredKey,
--   Session (peek_client_id, open_with_candidates), Socks (connect_socks), Host (HostTransport),
--   Cliente (ClienteTransport), Handshake (both ends together).
-- * Agent.HostRegistry (src/host_registry.rs): the registry of invited devices, its candidate keys
--   and its address pool. Agent.VirtualIp: the store of the host's own address.
-- * Agent.Role (RoleStore, PeerStore::validate_file of src/lib.rs) and Agent.Arguments (parse_args and
--   retry_delay of src/main.rs).
-- * Agent.Runtime (RuntimeConfig, validate_approved_peer_record and RegistryKeyResolver of src/main.rs)
--   and Agent.Tor (TorMode, render_torrc and wait_for_readiness of src/tor_runtime.rs).
-- * The threads of start_peer_transport in src/main.rs: Agent.Startup (its checks, and what main makes of
--   their outcome), Agent.Dialing (the thread of a client: each iteration is a step on the state Dialer),
--   Agent.Serving (the threads of a host: its steps are those of the accepting loop, of the loop of each session,
--   and of the handlers that remove a device, edit the registry and set the address), Agent.Tun (the devices of src/tun_linux.rs and
--   src/tun_macos.rs), Agent.Tun.Spawn (spawn_tun_bridge) and Agent.Tun.Bridge (the threads of a bridge).
-- * Agent.Server (serve_with_state of src/lib.rs): its starting state, its accept loop and ConnectionGuard.
-- * The HTTP agent of src/lib.rs: Agent.Json (json_string, parse_json_fields), Agent.Peers (PeerStore),
--   Agent.Status (PeerTransportStatus), Agent.State (AgentState, and what a request asks of the system),
--   Agent.Origin (the Host header and the same-origin proof), Agent.Request and Agent.Routes (how a
--   request is taken apart), Agent.Http (response_for_request_with_state, handle_connection), and its
--   handlers: Agent.Handlers (status, approval, restart), Agent.Pairing (mark_peer_changed,
--   set_peer_config, set_mode), Agent.Mode, Agent.Envelopes and Agent.Invitations (generate_invitation,
--   import_invitation, remove_host_peer), Agent.Devices (devices_status, agent_logs). Agent.Gate has what all of
--   them keep.
--
-- How state corresponds: a method of `&mut self` is a function that returns its result beside the
-- object that it leaves; a `HashMap` is an association list with one entry for each key; a TCP stream
-- is the bytes that will arrive, the error behind them, the bytes written and the faults of the
-- system. A connection is a transport with its stream. A handler returns its response beside the agent's
-- state; a mutex holds its value, so that requests are served one after the other.
--
-- Parameters: the cipher (Crypto.Aead, with the laws Sealing.IsAead: short texts are encrypted,
-- decryption undoes encryption, the tag has 16 bytes, and only what encryption gave is decrypted), the
-- nonce allocator of a transport, the Tor runtime, SHA-256, base64, and the JSON library. The clock, random
-- bytes and the answers of the file system are arguments of the calls that use them.
--
-- Bounds and fuel: `decimal` has fuel for 20 digits, as many as 64 bits need; `usize` has 64 bits; the
-- reader loop of Multiplex reads as many frames as its fuel, one more than was sent is enough; `trim`
-- has a step for each byte.
--
-- Not modelled: the device's identity, the log file and the HTML page of src/lib.rs, the signals and the waits
-- of src/main.rs, starting and ending the Tor process (src/tor_runtime.rs), the system calls of the TUN devices
-- (what they return is an argument), the desktop app and the packaging; `is_connected` of a stream and the
-- timeouts' lengths; poisoned mutexes.
pub mod Prelude
pub mod Codec
pub mod Protocol
pub mod Transport
pub mod Agent
