-- ===== src/Agent/Startup/Tests.antt =====
-- A client with an approved record.
use localscale.Prelude.{
  ◌≡◌, refl, true, false, none, some, ◌++◌, Bytes, codes, bytes_eq, strip_prefix, strip_suffix, ap,
  ◌∙◌, replicate, ok,
}
use localscale.Agent.Peers.{PeerRecord}
use localscale.Agent.Runtime.{
  RuntimeConfig, Variables, from_environment, from_peer_record, on_record, on_validated,
  validate_approved_peer_record,
}
use localscale.Agent.Startup.{ClientThread, start_client, on_checked, on_client_key}
use localscale.Agent.Startup.Client.{IsStartable, IsOf, start_client-IsStartable}
use localscale.Agent.Startup.FromRecord.{ready_system, start_client-from_environment}
use localscale.Agent.Tor.{TorMode, validate_v3_hostname, client_mode}
use localscale.Protocol.Crypto.{from_secret, key_from_bytes}
use localscale.Codec.Hex.{decode_pairs, hex_pair}
use localscale.Protocol.Invitation.{client}
use localscale.Protocol.Syntax.{valid_node_id, valid_onion_hostname, valid_invitation_secret}
use localscale.Transport.StoredKey.{key_from_stored_transport_key}

abbrev endpoint : Bytes
endpoint = replicate 56 b'a' ++ codes ".onion"

abbrev peer : PeerRecord
peer = record {
  role = codes "cliente";
  node_id = codes "laptop";
  host_node_id = some (codes "desk");
  endpoint = endpoint;
  invitation_secret = codes "key-v1-" ++ replicate 64 b'0';
  virtual_ip = some (codes "10.0.0.2");
  approved = true;
  revoked = false;
}

abbrev thread : ClientThread
thread = record {
  key = from_secret (replicate 32 0) false;
  node_id = codes "laptop";
  host_node_id = codes "desk";
  hostname = endpoint;
  port = 8765;
  local_virtual_ip = codes "10.0.0.2";
}

peer_key :
    key_from_stored_transport_key peer.invitation_secret
    ≡ some (ok (from_secret (replicate 32 0) false))
unfolding key_from_stored_transport_key strip_prefix decode_pairs hex_pair key_from_bytes
peer_key = refl

peer_valid : validate_approved_peer_record peer (codes "cliente") ≡ some (ok tt)
unfolding validate_approved_peer_record bytes_eq key_from_stored_transport_key strip_prefix
    decode_pairs hex_pair key_from_bytes client valid_node_id valid_onion_hostname
    valid_invitation_secret strip_suffix
peer_valid = refl

started : start_client (ready_system peer) endpoint ≡ some (ok thread)
unfolding start_client
started =
    ap (on_checked (ready_system peer) endpoint peer) peer_valid
    ∙ ap (on_client_key (ready_system peer) endpoint peer) peer_key

start_client-IsStartable_example :
    (r : PeerRecord) × (((ready_system peer).peer_record ≡ ok (some r))
      × (IsStartable r thread.key thread.host_node_id × IsOf (ready_system peer) endpoint thread r))
start_client-IsStartable_example =
    start_client-IsStartable (ready_system peer) endpoint thread started

abbrev variables : Variables
variables = record {
  role = some (codes "host");
  service_port = none;
  upstream = none;
  onion_endpoint = none;
}

abbrev config : RuntimeConfig
config = record { mode = TorMode.client endpoint; data_dir = codes "/var/lib/tor" }

chosen :
    from_environment
      (record variables { role = none })
      (codes "/var/lib/tor")
      (ok (some (record peer { role = codes "cliente" })))
      (ok none)
    ≡ some (ok (some config))
unfolding from_environment from_peer_record validate_v3_hostname client_mode bytes_eq strip_suffix
chosen =
    ap
      (λ v.
        on_record variables (codes "/var/lib/tor")
          (on_validated variables (codes "/var/lib/tor") peer v))
      peer_valid

start_client-from_environment_example :
    (config.mode ≡ TorMode.client endpoint)
    × ((t : ClientThread) × ((start_client
              (ready_system (record peer { role = codes "cliente" }))
              endpoint
            ≡ some (ok t))
          × ((t.node_id ≡ codes "laptop") × (t.hostname ≡ endpoint))))
start_client-from_environment_example =
    start_client-from_environment variables (codes "/var/lib/tor") peer none config chosen
