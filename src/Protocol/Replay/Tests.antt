-- ===== src/Protocol/Replay/Tests.antt =====
-- Runs of the replay guard, and its theorems at a concrete handshake.
use localscale.Prelude.{
  ℕ, ◌≡◌, ◌≢◌, refl, [], ◌∷◌, List, arith, Bytes, codes, true, ok, err, bytes_eq, ◌↔◌,
}
use localscale.Prelude.Table.{lookup, retain}
use localscale.Protocol.Syntax.{valid_node_id, valid_nonce}
use localscale.Protocol.Message.{Message, handshake_init, keepalive, IsValid}
use localscale.Protocol.Validate.{
  host, validate_message, check_window, validate_message_iff, IsFor, IsFresh, replay_detected,
}
use localscale.Protocol.Replay.{
  empty, accept, accept_session, after_all, Call, message, session, note_nonce, prune, PeerRole,
}
use localscale.Protocol.Replay.Window.{accept_once, accept_twice}
use localscale.Protocol.Replay.Sessions.{accept_session_once}

abbrev nonce : Bytes
nonce = codes "00112233445566778899aabbccddeeff"

abbrev hello : ℕ → Message
hello t = handshake_init (codes "laptop-1") t nonce

abbrev later_calls : List Call
later_calls =
    message (keepalive (codes "laptop-1") 1100) 1100 host
    ∷ session nonce (codes "laptop-1") PeerRole.cliente
    ∷ []

first : (accept empty (hello 1000) 1000 host).0 ≡ ok tt
unfolding accept validate_message check_window note_nonce prune lookup retain valid_node_id
    valid_nonce
first = refl

accept_once_example :
    (accept
      (after_all (accept empty (hello 1000) 1000 host).1 later_calls)
      (hello 1000)
      1200
      host).0
    ≢ ok tt
accept_once_example =
    accept_once empty (hello 1000) 1000 host nonce later_calls 1200 host refl (omega arith) first
      (omega arith) (omega arith)

ahead : (accept empty (hello 1200) 1000 host).0 ≡ ok tt
unfolding accept validate_message check_window note_nonce prune lookup retain valid_node_id
    valid_nonce
ahead = refl

still_valid : validate_message (hello 1200) 1400 host ≡ ok tt
unfolding validate_message check_window valid_node_id valid_nonce
still_valid = refl

accept_twice_example :
    (accept (accept empty (hello 1200) 1000 host).1 (hello 1200) 1400 host).0 ≡ ok tt
accept_twice_example =
    accept_twice empty (hello 1200) 1000 host nonce 1400 refl ahead still_valid (omega arith)

first_session : (accept_session empty nonce (codes "laptop-1") PeerRole.cliente).0 ≡ ok tt
unfolding accept_session lookup valid_node_id
first_session = refl

laptop-valid : valid_node_id (codes "laptop-1") ≡ true
unfolding valid_node_id
laptop-valid = refl

accept_session_once_example :
    (accept_session
      (after_all (accept_session empty nonce (codes "laptop-1") PeerRole.cliente).1 later_calls)
      nonce
      (codes "laptop-1")
      PeerRole.cliente).0
    ≡ err replay_detected
unfolding bytes_eq
accept_session_once_example =
    accept_session_once empty nonce (codes "laptop-1") PeerRole.cliente later_calls
      (codes "laptop-1") PeerRole.cliente first_session laptop-valid

hello-IsValid : IsValid (hello 1000)
unfolding valid_node_id valid_nonce
hello-IsValid = (refl, (omega arith, refl))

validate_message_iff_example :
    (validate_message (hello 1000) 1200 host ≡ ok tt)
    ↔ (IsFor host (hello 1000) × IsFresh 1200 (hello 1000))
validate_message_iff_example = validate_message_iff (hello 1000) 1200 host hello-IsValid
