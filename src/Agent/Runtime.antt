-- ===== src/Agent/Runtime.antt =====
-- The choice of the runtime's configuration in src/main.rs: `RuntimeConfig`, `validate_approved_peer_record`
-- and `RegistryKeyResolver`. The environment variables, the stores as they open and the data directory are
-- arguments; `none` is a panic, of reading a stored key.
use localscale.Prelude.{
  ℕ, Bool, false, not, ◌&&◌, ◌||◌, Option, none, some, List, [], ◌∷◌, Bytes, codes, bytes_eq, ◌==◌,
  if◌then◌else◌, strip_prefix, Result, ok, err, ◌>>=◌, ◌>>◌, ok_or, ensure, map_err,
}
use localscale.Prelude.Options.{is_some, unwrap_or}
use localscale.Codec.Decimal.{parse_u16}
use localscale.Codec.Fields.{cut_at}
use localscale.Protocol.Crypto.{CryptoKey}
use localscale.Protocol.Envelope.{CryptoError}
use localscale.Protocol.Invitation.{new_invitation, HostInvitation, ClientConfig}
use localscale.Protocol.Invitation
use localscale.Protocol.Validate.{ValidationError}
use localscale.Transport.Action.{IoError}
use localscale.Transport.StoredKey.{key_from_stored_transport_key}
use localscale.Agent.HostRegistry.{HostPeerEntry, candidates_for}
use localscale.Agent.Peers.{PeerRecord}
use localscale.Agent.Tor.{TorMode, TorRuntimeError, host_mode, client_mode}

-- A message, or an error of another module that is printed into one.
pub data Failure : Type 0 where
  message : Bytes → Failure
  invalid_role : Bytes → Failure
  tor : TorRuntimeError → Failure
  invalid_record : ValidationError → Failure
  store : IoError → Failure

pub record RuntimeConfig : Type 0 where
  pub mode : TorMode
  pub data_dir : Bytes

-- The variables of the environment that choose the configuration.
pub record Variables : Type 0 where
  pub role : Option Bytes
  pub service_port : Option Bytes
  pub upstream : Option Bytes
  pub onion_endpoint : Option Bytes

abbrev pub failing {ℓ} : {A : Type ℓ} → Bytes → Result Failure A
failing text = err (message text)

abbrev checked_port : Bytes → Result Failure ℕ
checked_port text = do
  port ← ok_or (parse_u16 text) (message (codes "LOCALSCALE_SERVICE_PORT must be a valid TCP port"))
  ensure (not (port == 0)) (message (codes "LOCALSCALE_SERVICE_PORT must be non-zero"))
  ok port

abbrev pub as_config : Bytes → Result TorRuntimeError TorMode → Result Failure RuntimeConfig
as_config dir (ok m) = ok (record { mode = m; data_dir = dir })
as_config dir (err e) = err (tor e)

-- The `match` on the role.
pub from_values_with_data_dir :
    Option Bytes → Option Bytes → Option Bytes → Option Bytes → Bytes → Result Failure RuntimeConfig
from_values_with_data_dir none port upstream hostname dir =
    failing (codes "LOCALSCALE_ROLE is required; refusing an implicit role")
from_values_with_data_dir (some role) port upstream hostname dir =
    if bytes_eq role (codes "host")
    then (do
      text ← ok_or port (message (codes "host requires LOCALSCALE_SERVICE_PORT"))
      number ← checked_port text
      address ← ok_or upstream (message (codes "host requires LOCALSCALE_UPSTREAM"))
      as_config dir (host_mode number address))
    else if bytes_eq role (codes "cliente")
    then (do
      ensure (not (is_some port))
          (message (codes "cliente must not configure LOCALSCALE_SERVICE_PORT"))
      name ← ok_or hostname (message (codes "cliente requires LOCALSCALE_ONION_ENDPOINT"))
      as_config dir (client_mode name))
    else err (invalid_role role)

abbrev pub validation_secret : Bytes
validation_secret = codes "validation-secret-0001"

abbrev pub valid_host : PeerRecord → Result Failure (Unit {0})
valid_host r = do
  ensure (not (is_some r.host_node_id)) (message (codes "host peer must not contain host_node_id"))
  i ← map_err invalid_record (new_invitation r.node_id r.endpoint validation_secret)
  ok tt

abbrev pub valid_client : PeerRecord → Result Failure (Unit {0})
valid_client r = do
  host_node ← ok_or r.host_node_id (message (codes "cliente peer requires host_node_id"))
  ensure (not (bytes_eq host_node r.node_id)) (message (codes "peer node IDs must differ"))
  c ← map_err invalid_record (Invitation.client r.node_id host_node r.endpoint validation_secret)
  ok tt

-- The checks behind the role.
abbrev pub checked_key :
    Option (Result CryptoError CryptoKey)
    → Result Failure (Unit {0})
    → Option (Result Failure (Unit {0}))
checked_key none rest = none
checked_key (some (err e)) rest =
    some (failing (codes "peer record contains an invalid transport key"))
checked_key (some (ok key)) rest = some rest

unfoldable pub validate_approved_peer_record :
    PeerRecord → Bytes → Option (Result Failure (Unit {0}))
validate_approved_peer_record r expected =
    if not r.approved
      || r.revoked
      || not (bytes_eq expected (codes "host") || bytes_eq expected (codes "cliente"))
      || not (bytes_eq r.role expected)
    then some (failing (codes "peer record is not approved or has an invalid role"))
    else checked_key (key_from_stored_transport_key r.invitation_secret)
        (if bytes_eq expected (codes "host") then valid_host r else valid_client r)

abbrev default_port : Option Bytes → Result Failure ℕ
default_port none = ok 8765
default_port (some text) = checked_port text

module _ (vars : Variables) (dir : Bytes) where
  abbrev pub record_mode : PeerRecord → Result Failure RuntimeConfig
  record_mode r =
      if bytes_eq r.role (codes "host")
      then (do
        port ← default_port vars.service_port
        as_config dir (host_mode port (unwrap_or vars.upstream (codes "127.0.0.1:8766"))))
      else if bytes_eq r.role (codes "cliente")
      then as_config dir (client_mode r.endpoint)
      else err (invalid_role r.role)

  abbrev pub on_validated :
      PeerRecord → Option (Result Failure (Unit {0})) → Option (Result Failure RuntimeConfig)
  on_validated r none = none
  on_validated r (some (err e)) = some (err e)
  on_validated r (some (ok u)) = some (record_mode r)

  unfoldable pub from_peer_record : PeerRecord → Option (Result Failure RuntimeConfig)
  from_peer_record r = on_validated r (validate_approved_peer_record r r.role)

  abbrev as_option : Result Failure RuntimeConfig → Result Failure (Option RuntimeConfig)
  as_option (ok c) = ok (some c)
  as_option (err e) = err e

  -- A record that is refused turns the bootstrap off.
  abbrev pub on_record :
      Option (Result Failure RuntimeConfig) → Option (Result Failure (Option RuntimeConfig))
  on_record none = none
  on_record (some (ok c)) = some (ok (some c))
  on_record (some (err e)) = some (ok none)

  abbrev is_host : Option Bytes → Bool
  is_host none = false
  is_host (some r) = bytes_eq r (codes "host")

  abbrev without_record : Option Bytes → Result Failure (Option RuntimeConfig)
  without_record selected =
      if is_host selected
      then as_option (
          from_values_with_data_dir (some (codes "host"))
            (some (unwrap_or vars.service_port (codes "8765")))
            (some (unwrap_or vars.upstream (codes "127.0.0.1:8766"))) none dir)
      else ok none

  abbrev from_record :
      Option PeerRecord → Option Bytes → Option (Result Failure (Option RuntimeConfig))
  from_record none selected = some (without_record selected)
  from_record (some r) selected =
      if not r.approved || r.revoked then some (ok none) else on_record (from_peer_record r)

  abbrev from_stores :
      Result IoError (Option PeerRecord)
      → Result IoError (Option Bytes)
      → Option (Result Failure (Option RuntimeConfig))
  from_stores (err e) selected = some (ok none)
  from_stores (ok r) (err e) = some (err (store e))
  from_stores (ok r) (ok selected) = from_record r selected

  -- From the record of the peer store and the role of the role store, as opening them returns these.
  unfoldable pub from_environment :
      Result IoError (Option PeerRecord)
      → Result IoError (Option Bytes)
      → Option (Result Failure (Option RuntimeConfig))
  from_environment peer selected = elim vars.role [
    | some role ↦ some (
        as_option (
          from_values_with_data_dir (some role) vars.service_port vars.upstream vars.onion_endpoint
            dir))
    | none ↦ from_stores peer selected
  ]

abbrev add_candidate :
    Bytes
    → Option (Result CryptoError CryptoKey)
    → Option (List (Bytes × CryptoKey))
    → Option (List (Bytes × CryptoKey))
add_candidate tag none rest = none
add_candidate tag (some (err e)) rest = rest
add_candidate tag (some (ok key)) none = none
add_candidate tag (some (ok key)) (some keys) = some ((tag, key) ∷ keys)

-- `filter_map`
pub keys_of : List (Bytes × Bytes) → Option (List (Bytes × CryptoKey))
keys_of [] = some []
keys_of ((tag, secret) ∷ pairs) =
    let rest = keys_of pairs in add_candidate tag (key_from_stored_transport_key secret) rest

-- `RegistryKeyResolver::candidates`
pub candidates : List HostPeerEntry → Bytes → Option (List (Bytes × CryptoKey))
candidates entries claimed = keys_of (candidates_for entries claimed)

pub health_response_is_ready : Bytes → Bool
health_response_is_ready response =
    is_some (strip_prefix (codes "HTTP/1.1 200 OK") response)
    && is_some (cut_at (codes "\r\n\r\n{\"status\":\"ok\"") response)
