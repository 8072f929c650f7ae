-- ===== src/Agent/Gate/Approval.antt =====
-- The handlers of the client's pairing in src/lib.rs keep the gate.
use localscale.Prelude.{Bool, true, not, Option, none, some, Bytes, codes, arith, Result, ok, err}
use localscale.Prelude.Table.{Table}
use localscale.Transport.Action.{IoError}
use localscale.Agent.Gate.{IsClosed, branch-IsClosed, off, opened, scheduled-IsGated}
use localscale.Agent.Handlers
use localscale.Agent.Handlers.{
  set_virtual_ip_handler, reset_peer, set_peer_approval, request_runtime_restart, get_filled,
  error_response, json_response,
}
use localscale.Agent.Json.{parse_json_fields}
use localscale.Agent.Peers
use localscale.Agent.Peers.{PeerStore, clear, set_approval}
use localscale.Agent.State.{AgentState, Environment}

pub request_runtime_restart-IsClosed :
    (s : AgentState) → IsClosed s → IsClosed (request_runtime_restart s).1
unfolding request_runtime_restart
request_runtime_restart-IsClosed s h =
    branch-IsClosed (not s.peer_transport_restart_required) (refusal, s)
      (acceptance, record s { runtime_restart = record (s.runtime_restart) { scheduled = true } })
      (λ e. h) (λ e. scheduled-IsGated (ground arith) h)
  where
    refusal : Bytes
    refusal = error_response (codes "409 Conflict") (codes "restart_not_required")

    acceptance : Bytes
    acceptance = json_response (codes "202 Accepted") (codes "{\"restart\":\"scheduled\"}")

module _ (env : Environment) where
  after_address :
      (ip : Option Bytes) (r : Result IoError (Unit {0}) × PeerStore) (s : AgentState)
      → IsClosed s
      → IsClosed (Handlers.virtual_ip_applied env ip r s).1
  after_address ip (err e, store) s h = h
  after_address ip (ok u, store) s h = h

  on_address :
      (ip : Option Bytes) (store : Option PeerStore) (s : AgentState)
      → IsClosed s
      → IsClosed (Handlers.on_virtual_ip env ip store s).1
  on_address ip none s h = h
  on_address ip (some store) s h =
      after_address ip (Peers.set_virtual_ip env.write_fault ip store) s h

  on_fields :
      (fields : Option (Table Bytes)) (s : AgentState)
      → IsClosed s
      → IsClosed (Handlers.on_virtual_ip_fields env fields s).1
  on_fields none s h = h
  on_fields (some fields) s h =
      branch-IsClosed (not (Handlers.is_address env (get_filled (codes "virtual_ip") fields)))
        (error_response (codes "400 Bad Request") (codes "invalid_virtual_ip"), s)
        (Handlers.on_virtual_ip env (get_filled (codes "virtual_ip") fields) s.peer_store s)
        (λ e. h) (λ e. on_address (get_filled (codes "virtual_ip") fields) s.peer_store s h)

  pub set_virtual_ip_handler-IsClosed :
      (body : Bytes) (s : AgentState) → IsClosed s → IsClosed (set_virtual_ip_handler env body s).1
  unfolding set_virtual_ip_handler
  set_virtual_ip_handler-IsClosed body s h = on_fields (parse_json_fields body) s h

  after_clearing :
      (r : Result IoError (Unit {0}) × PeerStore) (s : AgentState)
      → IsClosed s
      → IsClosed (Handlers.on_cleared env r s).1
  after_clearing (err e, store) s h = h
  after_clearing (ok u, store) s h = off h

  on_reset :
      (store : Option PeerStore) (s : AgentState)
      → IsClosed s
      → IsClosed (Handlers.on_reset env store s).1
  on_reset none s h = h
  on_reset (some store) s h = after_clearing (clear env.clear_fault store) s h

  pub reset_peer-IsClosed : (s : AgentState) → IsClosed s → IsClosed (reset_peer env s).1
  unfolding reset_peer
  reset_peer-IsClosed s h = on_reset s.peer_store s h

  after_approval :
      (approved : Bool) (r : Result IoError (Unit {0}) × PeerStore) (s : AgentState)
      → IsClosed s
      → IsClosed (Handlers.on_approved env approved r s).1
  after_approval approved (err e, store) s h = h
  after_approval approved (ok u, store) s h = opened approved s.peer_transport_restart_required h

  on_approval :
      (approved : Bool) (store : Option PeerStore) (s : AgentState)
      → IsClosed s
      → IsClosed (Handlers.on_approval env approved store s).1
  on_approval approved none s h = h
  on_approval approved (some store) s h =
      after_approval approved (set_approval env.write_fault approved store) s h

  pub set_peer_approval-IsClosed :
      (approved : Bool) (s : AgentState)
      → IsClosed s
      → IsClosed (set_peer_approval env approved s).1
  unfolding set_peer_approval
  set_peer_approval-IsClosed approved s h = on_approval approved s.peer_store s h
