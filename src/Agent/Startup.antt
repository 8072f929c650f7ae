-- ===== src/Agent/Startup.antt =====
-- The start of the peer transport in src/main.rs: the checks of `start_peer_transport` in front of its threads,
-- and what `main` makes of their outcome. What the stores, the allocator and the network return is an argument;
-- `none` is a panic, of reading a stored key.
pub mod Client
pub mod FromRecord
mod Tests
use localscale.Prelude.{
  ℕ, Bool, true, false, not, ◌&&◌, Option, none, some, [], Bytes, codes, if◌then◌else◌, Result, ok,
  err, ◌>>=◌, ◌>>◌, ok_or, ensure, map_err,
}
use localscale.Prelude.Options.{unwrap_or}
use localscale.Agent.Peers.{PeerRecord}
use localscale.Agent.Runtime.{
  Failure, message, store, failing, RuntimeConfig, validate_approved_peer_record,
}
use localscale.Agent.Status.{
  PeerTransportStatus, disabled, waiting_for_invitation, set, set_local_virtual_ip,
}
use localscale.Agent.Tor.{TorMode}
use localscale.Codec.Decimal.{parse_u16}
use localscale.Protocol.Crypto.{CryptoKey}
use localscale.Protocol.Envelope.{CryptoError}
use localscale.Transport.Action.{IoError, TransportError}
use localscale.Transport.StoredKey.{key_from_stored_transport_key}

-- What the thread of a client captures.
pub record ClientThread : Type 0 where
  pub key : CryptoKey
  pub node_id : Bytes
  pub host_node_id : Bytes
  pub hostname : Bytes
  pub port : ℕ
  pub local_virtual_ip : Bytes

-- What a client asks the system for: its record, the port variable, the nonce file and Tor's SOCKS endpoint.
pub record ClientSystem : Type 0 where
  pub peer_record : Result IoError (Option PeerRecord)
  pub onion_port : Option Bytes
  pub allocator : Result Failure (Unit {0})
  pub socks : Result Failure (Unit {0})

abbrev pub chosen_port : Option Bytes → Result Failure ℕ
chosen_port none = ok 8765
chosen_port (some text) =
    ok_or (parse_u16 text) (message (codes "LOCALSCALE_ONION_PORT must be a valid TCP port"))

abbrev pub on_client_key :
    ClientSystem
    → Bytes
    → PeerRecord
    → Option (Result CryptoError CryptoKey)
    → Option (Result Failure ClientThread)
on_client_key sys hostname r none = none
on_client_key sys hostname r (some (err e)) =
    some (failing (codes "peer record contains an invalid transport key"))
on_client_key sys hostname r (some (ok key)) = some (do
  host_node ← ok_or r.host_node_id (message (codes "approved cliente peer lacks host node id"))
  port ← chosen_port sys.onion_port
  sys.allocator
  sys.socks
  ok (record {
    key = key;
    node_id = r.node_id;
    host_node_id = host_node;
    hostname = hostname;
    port = port;
    local_virtual_ip = unwrap_or r.virtual_ip [];
  }))

abbrev pub on_checked :
    ClientSystem
    → Bytes
    → PeerRecord
    → Option (Result Failure (Unit {0}))
    → Option (Result Failure ClientThread)
on_checked sys hostname r none = none
on_checked sys hostname r (some (err e)) = some (err e)
on_checked sys hostname r (some (ok u)) =
    on_client_key sys hostname r (key_from_stored_transport_key r.invitation_secret)

abbrev pub on_stored :
    ClientSystem → Bytes → Result IoError (Option PeerRecord) → Option (Result Failure ClientThread)
on_stored sys hostname (err e) = some (err (store e))
on_stored sys hostname (ok none) =
    some (failing (codes "peer is not configured; refusing transport startup"))
on_stored sys hostname (ok (some r)) =
    on_checked sys hostname r (validate_approved_peer_record r (codes "cliente"))

-- The branch of a client.
unfoldable pub start_client : ClientSystem → Bytes → Option (Result Failure ClientThread)
start_client sys hostname = on_stored sys hostname sys.peer_record

-- The branch of a host, from whether its upstream is a socket address, and what the nonce file and the listener
-- return.
unfoldable pub start_host :
    Bool → Result Failure (Unit {0}) → Result Failure (Unit {0}) → Result Failure (Unit {0})
start_host is_address allocator listener = do
  ensure is_address (message (codes "host upstream must be a socket address"))
  allocator
  listener

-- What `main` goes on with: the gate, the status, and whether Tor still runs.
pub record Bootstrap : Type 0 where
  pub gate : Bool
  pub status : PeerTransportStatus
  pub has_tor : Bool

abbrev is_host_mode : TorMode → Bool
is_host_mode (TorMode.host port upstream) = true
is_host_mode (TorMode.client hostname) = false

abbrev is_unpaired : Result IoError (Option PeerRecord) → Bool
is_unpaired (err e) = false
is_unpaired (ok none) = true
is_unpaired (ok (some r)) = false

pub fresh_host : TorMode → Result IoError (Option PeerRecord) → Bool
fresh_host mode peer_record = is_host_mode mode && is_unpaired peer_record

-- The `match` on the outcome of `start_peer_transport`.
unfoldable pub on_started : Bool → Result Failure (Unit {0}) → PeerTransportStatus → Bootstrap
on_started fresh (ok u) status = record { gate = true; status = status; has_tor = true }
on_started true (err e) status = record {
  gate = false;
  status = set waiting_for_invitation status;
  has_tor = true;
}
on_started false (err e) status = record { gate = true; status = status; has_tor = false }

-- How the server ended.
pub data Served : Type 0 where
  returned interrupted failed : Served

abbrev pub runtime_restart_exit_code : ℕ
runtime_restart_exit_code = 75

-- The exit code of the process; a failure that `main` returns exits with 1.
unfoldable pub exit_code : Served → ℕ
exit_code Served.returned = 0
exit_code Served.interrupted = runtime_restart_exit_code
exit_code Served.failed = 1
