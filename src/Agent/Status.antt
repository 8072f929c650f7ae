-- ===== src/Agent/Status.antt =====
-- `TransportState` and `PeerTransportStatus` of src/lib.rs. The atomics and mutexes hold values; the
-- clock is an argument, `none` if it stands before 1970.
use localscale.Prelude.{
  ℕ, ◌+◌, ◌-◌, ◌%◌, ◌^◌, Bool, not, ◌&&◌, Option, none, some, [], Bytes, codes, leb, ◌==◌,
  if◌then◌else◌,
}
use localscale.Prelude.Options.{unwrap_or}
use localscale.Protocol.Syntax.{is_empty}

pub data TransportState : Type 0 where
  unavailable connecting connected retrying disabled restart_required waiting_for_invitation :
      TransportState

-- `state as u8`
pub discriminant : TransportState → ℕ
discriminant unavailable = 0
discriminant connecting = 1
discriminant connected = 2
discriminant retrying = 3
discriminant disabled = 4
discriminant restart_required = 5
discriminant waiting_for_invitation = 6

-- The `match` of `get`.
pub state_of : ℕ → TransportState
state_of n =
    if n == 1
    then connecting
    else if n == 2
    then connected
    else if n == 3
    then retrying
    else if n == 4
    then disabled
    else if n == 5
    then restart_required
    else if n == 6
    then waiting_for_invitation
    else unavailable

pub record PeerTransportStatus : Type 0 where
  pub state : ℕ
  pub last_peer_activity_unix : ℕ
  pub messages_exchanged : ℕ
  pub remote_node_id : Option Bytes
  pub remote_virtual_ip : Option Bytes
  pub local_virtual_ip : Bytes

unfoldable pub default_status : PeerTransportStatus
default_status = record {
  state = 0;
  last_peer_activity_unix = 0;
  messages_exchanged = 0;
  remote_node_id = none;
  remote_virtual_ip = none;
  local_virtual_ip = [];
}

abbrev pub peer_activity_ttl_secs : ℕ
peer_activity_ttl_secs = 15

unfoldable pub set : TransportState → PeerTransportStatus → PeerTransportStatus
set t s = record s { state = discriminant t }

pub get : PeerTransportStatus → TransportState
get s = state_of s.state

-- `fetch_add` wraps around at 64 bits.
unfoldable pub record_peer_activity : Option ℕ → ℕ → PeerTransportStatus → PeerTransportStatus
record_peer_activity now messages s = set connected (record s {
  messages_exchanged = (s.messages_exchanged + messages) % 2 ^ 64;
  last_peer_activity_unix = unwrap_or now 0;
})

abbrev is_connected_state : TransportState → Bool
is_connected_state t = discriminant t == 2

pub is_connected : Option ℕ → PeerTransportStatus → Bool
is_connected now s =
    is_connected_state (get s)
    && not (s.last_peer_activity_unix == 0)
    && leb (unwrap_or now 0 - s.last_peer_activity_unix) peer_activity_ttl_secs

abbrev label_of : TransportState → Bytes
label_of unavailable = codes "unavailable"
label_of connecting = codes "connecting"
label_of connected = codes "connected"
label_of retrying = codes "retrying"
label_of disabled = codes "disabled"
label_of restart_required = codes "restart_required"
label_of waiting_for_invitation = codes "waiting_for_invitation"

pub label : PeerTransportStatus → Bytes
label s = label_of (get s)

pub set_remote_node_id : Bytes → PeerTransportStatus → PeerTransportStatus
set_remote_node_id node s = record s { remote_node_id = some node }

pub clear_remote_node_id : PeerTransportStatus → PeerTransportStatus
clear_remote_node_id s = record s { remote_node_id = none }

unfoldable pub set_remote_virtual_ip : Bytes → PeerTransportStatus → PeerTransportStatus
set_remote_virtual_ip ip s = record s { remote_virtual_ip = if is_empty ip then none else some ip }

pub clear_remote_virtual_ip : PeerTransportStatus → PeerTransportStatus
clear_remote_virtual_ip s = record s { remote_virtual_ip = none }

unfoldable pub set_local_virtual_ip : Bytes → PeerTransportStatus → PeerTransportStatus
set_local_virtual_ip ip s = record s { local_virtual_ip = ip }
