-- ===== src/Agent/Startup/FromRecord.antt =====
-- A configuration of a client that src/main.rs takes from the stored record lets the client start.
use localscale.Prelude.{
  ◌≡◌, refl, ap, sym, ◌∙◌, Bool, true, false, Option, none, some, [], Bytes, codes, bytes_eq,
  if◌then◌else◌, Result, ok, err, ok_or, ◌>>=◌, ◌>>◌, arith,
}
use localscale.Prelude.Options.{unwrap_or}
use localscale.Agent.Peers.{PeerRecord}
use localscale.Agent.Runtime.{
  Failure, message, RuntimeConfig, Variables, on_validated, on_record, from_peer_record,
  from_environment, as_config, record_mode,
}
use localscale.Agent.Startup.{ClientSystem, ClientThread, start_client, on_checked, on_client_key}
use localscale.Agent.Startup.Client.{valid-IsStartable}
use localscale.Agent.Tor.{TorMode, TorRuntimeError, client_mode, validate_v3_hostname}

or_config : RuntimeConfig → Option (Result Failure (Option RuntimeConfig)) → RuntimeConfig
or_config c (some (ok (some d))) = d
or_config c (some (ok none)) = c
or_config c (some (err e)) = c
or_config c none = c

or_mode : TorMode → Result Failure RuntimeConfig → TorMode
or_mode m (ok c) = c.mode
or_mode m (err e) = m

client_config :
    (dir hostname : Bytes) (x : Result TorRuntimeError (Unit {0})) (c : RuntimeConfig)
    → as_config dir (x >> ok (TorMode.client hostname)) ≡ ok c
    → c.mode ≡ TorMode.client hostname
unfolding or_mode
client_config dir hostname (err e) c h = ground arith
client_config dir hostname (ok u) c h = sym (ap (or_mode (TorMode.client hostname)) h)

-- The system of a client with this record, in which nothing fails and no port is set.
abbrev pub ready_system : PeerRecord → ClientSystem
ready_system r = record {
  peer_record = ok (some r);
  onion_port = none;
  allocator = ok tt;
  socks = ok tt;
}

module _ (vars : Variables) (dir : Bytes) where
  taken :
      (refused : Bool) (x : Option (Result Failure RuntimeConfig)) (c : RuntimeConfig)
      → (if refused then some (ok none) else on_record vars dir x) ≡ some (ok (some c))
      → x ≡ some (ok c)
  unfolding or_config
  taken true x c h = ground arith
  taken false none c h = ground arith
  taken false (some (err e)) c h = ground arith
  taken false (some (ok d)) c h = ap (λ d. some (ok d)) (ap (or_config c) h)

  validated :
      (r : PeerRecord) (v : Option (Result Failure (Unit {0}))) (c : RuntimeConfig)
      → on_validated vars dir r v ≡ some (ok c)
      → (v ≡ some (ok tt)) × (record_mode vars dir r ≡ ok c)
  validated r none c h = ground arith
  validated r (some (err e)) c h = ground arith
  validated r (some (ok u)) c h = (refl, ground arith)

  abbrev missing : Failure
  missing = message (codes "approved cliente peer lacks host node id")

  -- The record of a client.
  abbrev client_record : PeerRecord → PeerRecord
  client_record r = record r { role = codes "cliente" }

  -- If no role is set in the environment and the configuration comes from the stored record of a client, then
  -- Tor runs as a client for the endpoint of the record, and the dialing thread starts, with the record's node
  -- id, as soon as the nonce file opens and Tor's SOCKS endpoint answers; no port is set.
  pub start_client-from_environment :
      (r : PeerRecord) (selected : Option Bytes) (c : RuntimeConfig)
      → from_environment
          (record vars { role = none })
          dir
          (ok (some (record r { role = codes "cliente" })))
          (ok selected)
        ≡ some (ok (some c))
      → (c.mode ≡ TorMode.client r.endpoint)
        × ((t : ClientThread) × ((start_client
                  (ready_system (record r { role = codes "cliente" }))
                  r.endpoint
                ≡ some (ok t))
              × ((t.node_id ≡ r.node_id) × (t.hostname ≡ r.endpoint))))
  unfolding from_environment from_peer_record start_client client_mode bytes_eq
  start_client-from_environment r selected c h =
      let v = validated (client_record r) _ c (taken _ _ c h) in
      let s = valid-IsStartable (client_record r) v.0 in
      let thread : Bytes → ClientThread = λ n. record {
        key = s.0;
        node_id = r.node_id;
        host_node_id = n;
        hostname = r.endpoint;
        port = 8765;
        local_virtual_ip = unwrap_or r.virtual_ip [];
      } in
      (
        client_config dir r.endpoint (validate_v3_hostname r.endpoint) c v.1,
        (
          thread s.1,
          (
            ap (on_checked (ready_system (client_record r)) r.endpoint (client_record r)) v.0
                ∙ ap (on_client_key (ready_system (client_record r)) r.endpoint (client_record r))
                    s.2.1.1.1.0
                ∙ ap (λ o. some (ok_or o missing >>= (λ n. ok (thread n)))) s.2.1.1.1.1.0,
            (refl, refl),
          ),
        ),
      )
