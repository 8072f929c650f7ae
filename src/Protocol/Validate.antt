-- ===== src/Protocol/Validate.antt =====
-- `validate_message` and `check_window` of agent/protocol/src/lib.rs.
use localscale.Prelude.{
  ℕ, ◌-◌, ◌+◌, ◌≤◌, ◌≡◌, ◌↔◌, Bool, true, false, not, ◌||◌, arith, ltb, if◌then◌else◌, Result, ok,
  err, ◌>>◌, ensure,
}
use localscale.Protocol.Syntax.{valid_node_id, valid_nonce}
use localscale.Protocol.Message.{
  Message, handshake_init, handshake_response, keepalive, mtu_probe, node_of, min_mtu, max_mtu,
  IsValid,
}

pub data Role : Type 0 where
  host cliente : Role

pub data ValidationError : Type 0 where
  invalid_node_id invalid_nonce timestamp_outside_replay_window replay_detected : ValidationError
  wrong_role invalid_mtu : ValidationError

abbrev pub is_host : Role → Bool
is_host host = true
is_host cliente = false

abbrev pub replay_window_secs : ℕ
replay_window_secs = 300

abbrev pub abs_diff : ℕ → ℕ → ℕ
abs_diff a b = if ltb a b then b - a else a - b

unfoldable pub check_window : ℕ → ℕ → Result ValidationError (Unit {0})
check_window timestamp now =
    if ltb replay_window_secs (abs_diff timestamp now)
    then err timestamp_outside_replay_window
    else ok tt

abbrev validate_body : Message → ℕ → Role → Result ValidationError (Unit {0})
validate_body (handshake_init node timestamp nonce) now role = do
  ensure (is_host role) wrong_role
  ensure (valid_nonce nonce) invalid_nonce
  check_window timestamp now
validate_body (handshake_response node timestamp nonce) now role = do
  ensure (not (is_host role)) wrong_role
  ensure (valid_nonce nonce) invalid_nonce
  check_window timestamp now
validate_body (keepalive node timestamp) now role = check_window timestamp now
validate_body (mtu_probe node mtu) now role =
    if ltb mtu min_mtu || ltb max_mtu mtu then err invalid_mtu else ok tt

unfoldable pub validate_message : Message → ℕ → Role → Result ValidationError (Unit {0})
validate_message m now role = do
  ensure (valid_node_id (node_of m)) invalid_node_id
  validate_body m now role

-- The receiver that a handshake message is meant for.
abbrev pub IsFor : Role → Message → Type 0
IsFor role (handshake_init node timestamp nonce) = role ≡ host
IsFor role (handshake_response node timestamp nonce) = role ≡ cliente
IsFor role (keepalive node timestamp) = Unit
IsFor role (mtu_probe node mtu) = Unit

abbrev pub IsFresh : ℕ → Message → Type 0
IsFresh now (handshake_init node timestamp nonce) =
    (timestamp ≤ now + 300) × (now ≤ timestamp + 300)
IsFresh now (handshake_response node timestamp nonce) =
    (timestamp ≤ now + 300) × (now ≤ timestamp + 300)
IsFresh now (keepalive node timestamp) = (timestamp ≤ now + 300) × (now ≤ timestamp + 300)
IsFresh now (mtu_probe node mtu) = Unit

-- A well-formed message that reaches the right side within 300 seconds of its timestamp passes.
pub validate_message_complete :
    (m : Message) (now : ℕ) (role : Role)
    → IsValid m
    → IsFor role m
    → IsFresh now m
    → validate_message m now role ≡ ok tt
unfolding validate_message check_window
validate_message_complete (handshake_init node timestamp nonce) now host v f w = ground arith
validate_message_complete (handshake_init node timestamp nonce) now cliente v f w = cc
validate_message_complete (handshake_response node timestamp nonce) now host v f w = cc
validate_message_complete (handshake_response node timestamp nonce) now cliente v f w = ground arith
validate_message_complete (keepalive node timestamp) now role v f w = ground arith
validate_message_complete (mtu_probe node mtu) now role v f w = ground arith

-- What passes was meant for this role and is at most 300 seconds away from the clock.
pub validate_message_sound :
    (m : Message) (now : ℕ) (role : Role)
    → validate_message m now role ≡ ok tt
    → IsFor role m × IsFresh now m
unfolding validate_message check_window
validate_message_sound (handshake_init node timestamp nonce) now role h = ground arith
validate_message_sound (handshake_response node timestamp nonce) now role h = ground arith
validate_message_sound (keepalive node timestamp) now role h = ground arith
validate_message_sound (mtu_probe node mtu) now role h = (tt, tt)

-- A well-formed message is valid for a receiver exactly when it is addressed to the receiver's role
-- and its timestamp, if it has one, is at most 300 seconds away from the clock, either way.
pub validate_message_iff :
    (m : Message) (now : ℕ) (role : Role)
    → IsValid m
    → (validate_message m now role ≡ ok tt) ↔ (IsFor role m × IsFresh now m)
validate_message_iff m now role v =
    (validate_message_sound m now role, λ h. validate_message_complete m now role v h.0 h.1)
