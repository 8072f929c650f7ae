-- ===== src/Protocol/Replay.antt =====
-- `ReplayGuard` of agent/protocol/src/lib.rs: the nonces of recent handshakes and the session nonces.
-- Each method returns its result beside the guard that it leaves.
pub mod Window
pub mod Sessions
mod Tests
use localscale.Prelude.{
  ℕ, ◌-◌, ◌≤◌, ◌≡◌, Bool, true, false, not, ◌&&◌, ◌||◌, Option, none, some, List, [], ◌∷◌, Bytes,
  leb, bytes_eq, if◌then◌else◌, Result, ok, err,
}
use localscale.Prelude.Table.{Table, lookup, contains_key, insert, retain}
use localscale.Protocol.Syntax.{valid_node_id}
use localscale.Protocol.Message.{Message, handshake_init, handshake_response, keepalive, mtu_probe}
use localscale.Protocol.Validate.{
  Role, ValidationError, invalid_node_id, replay_detected, wrong_role, replay_window_secs,
  validate_message,
}

pub data PeerRole : Type 0 where
  host cliente : PeerRole

abbrev pub same_role : PeerRole → PeerRole → Bool
same_role host host = true
same_role host cliente = false
same_role cliente host = false
same_role cliente cliente = true

-- `sessions` maps a session nonce to the peer and the role that used it.
pub record ReplayGuard : Type 0 where
  pub seen : Table ℕ
  pub sessions : Table (Bytes × PeerRole)

abbrev pub empty : ReplayGuard
empty = record { seen = []; sessions = [] }

abbrev pub nonce_of : Message → Option Bytes
nonce_of (handshake_init node timestamp nonce) = some nonce
nonce_of (handshake_response node timestamp nonce) = some nonce
nonce_of (keepalive node timestamp) = none
nonce_of (mtu_probe node mtu) = none

-- `now.saturating_sub(timestamp) <= REPLAY_WINDOW_SECS`
abbrev pub is_recent : ℕ → ℕ → Bool
is_recent now timestamp = leb (now - timestamp) replay_window_secs

pub prune : ReplayGuard → ℕ → ReplayGuard
prune g now = record g { seen = retain (is_recent now) g.seen }

-- The steps of `accept` behind the pruning.
pub note_nonce : ReplayGuard → Option Bytes → ℕ → Result ValidationError (Unit {0}) × ReplayGuard
note_nonce g none now = (ok tt, g)
note_nonce g (some nonce) now =
    if contains_key nonce g.seen
    then (err replay_detected, g)
    else (ok tt, record g { seen = insert nonce now g.seen })

abbrev accept_valid :
    Result ValidationError (Unit {0})
    → ReplayGuard
    → Message
    → ℕ
    → Result ValidationError (Unit {0}) × ReplayGuard
accept_valid (err e) g m now = (err e, g)
accept_valid (ok u) g m now = note_nonce (prune g now) (nonce_of m) now

pub accept : ReplayGuard → Message → ℕ → Role → Result ValidationError (Unit {0}) × ReplayGuard
accept g m now role = accept_valid (validate_message m now role) g m now

abbrev session_result :
    ReplayGuard
    → Bytes
    → Bytes
    → PeerRole
    → Option (Bytes × PeerRole)
    → Result ValidationError (Unit {0}) × ReplayGuard
session_result g nonce peer role none =
    (ok tt, record g { sessions = insert nonce (peer, role) g.sessions })
session_result g nonce peer role (some (old_peer, old_role)) =
    if not (bytes_eq old_peer peer) || not (same_role old_role role)
    then (err wrong_role, g)
    else (err replay_detected, g)

pub accept_session :
    ReplayGuard → Bytes → Bytes → PeerRole → Result ValidationError (Unit {0}) × ReplayGuard
accept_session g nonce peer role =
    if not (valid_node_id peer)
    then (err invalid_node_id, g)
    else session_result g nonce peer role (lookup nonce g.sessions)

-- One call on the guard, as the connection layer makes them.
pub data Call : Type 0 where
  message : Message → ℕ → Role → Call
  session : Bytes → Bytes → PeerRole → Call

pub after : ReplayGuard → Call → ReplayGuard
after g (message m now role) = (accept g m now role).1
after g (session nonce peer role) = (accept_session g nonce peer role).1

pub after_all : ReplayGuard → List Call → ReplayGuard
after_all g [] = g
after_all g (c ∷ cs) = after_all (after g c) cs
