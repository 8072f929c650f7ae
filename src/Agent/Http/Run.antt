-- ===== src/Agent/Http/Run.antt =====
-- Any row of connections to the agent of src/lib.rs keeps the gate of the peer transport.
use localscale.Prelude.{
  Bool, true, false, not, ◌&&◌, none, some, List, [], ◌∷◌, Bytes, bytes_eq, if◌then◌else◌,
}
use localscale.Agent.Gate.{IsGated, IsClosed}
use localscale.Agent.Gate.Approval.{
  request_runtime_restart-IsClosed, set_virtual_ip_handler-IsClosed, reset_peer-IsClosed,
  set_peer_approval-IsClosed,
}
use localscale.Agent.Gate.Invitations.{
  generate_invitation-IsClosed, import_invitation-IsClosed, remove_host_peer-IsClosed,
}
use localscale.Agent.Gate.Pairing.{set_peer_config-IsClosed, set_mode-IsClosed}
use localscale.Agent.Handlers.{dispatch_runtime_restart}
use localscale.Agent.Http.{
  Answer, handle, guarded, restart_path, respond, response_for_request_with_state, Read, Received,
  request, too_large, unanswered, read_error, receive, finish, restart_request, answer_connection,
  handle_connection,
}
use localscale.Agent.Request.{Request, parse_request, path_of, host_of}
use localscale.Agent.Origin.{is_loopback_host, is_state_changing_method, has_same_origin_proof}
use localscale.Agent.Routes.{Route, route_of}
use localscale.Agent.Routes.Route.{
  to_status, to_peer_status, to_generate, to_import, to_config, to_approve, to_revoke, to_reset,
  to_remove, to_virtual_ip, to_restart, to_devices, to_logs, to_mode, to_start, to_stop, to_sync,
  to_page, to_health, to_version, to_old_mode, to_old_set_mode, to_onion, to_diagnostics,
  to_nothing,
}
use localscale.Agent.State.{AgentState, Environment, Libraries, RuntimeRestart}

-- A connection: what the system and the reads of its socket give, whether time is left to answer, and
-- whether writing succeeds.
pub record Connection : Type 0 where
  pub env : Environment
  pub reads : List Read
  pub in_time : Bool
  pub written : Bool

module _ (libraries : Libraries) (html : Bytes) where
  abbrev pub serve : Connection → AgentState → AgentState
  serve c s = (handle_connection libraries html c.env c.in_time c.written c.reads s).1

  -- The connections are served in this order.
  unfoldable pub serve_all : List Connection → AgentState → AgentState
  serve_all [] s = s
  serve_all (c ∷ cs) s = serve_all cs (serve c s)

dispatched_if-IsGated :
    (dispatched : Bool) {enabled required : Bool} (restart : RuntimeRestart)
    → IsGated enabled required restart
    → IsGated enabled required
        (if dispatched then restart else record restart { dispatched = true; requested = true })
dispatched_if-IsGated true restart h = h
dispatched_if-IsGated false restart h = record { closed = h.closed; wanted = h.wanted }

dispatched-IsGated :
    {enabled required : Bool} (restart : RuntimeRestart)
    → IsGated enabled required restart
    → IsGated enabled required (dispatch_runtime_restart restart)
unfolding dispatch_runtime_restart
dispatched-IsGated restart h = dispatched_if-IsGated restart.dispatched restart h

finish-IsClosed :
    (restart in_time written : Bool) (a : Answer)
    → IsClosed a.1
    → IsClosed (finish restart in_time written a).1
finish-IsClosed restart in_time written (none, s) h = h
finish-IsClosed restart false written (some response, s) h = h
finish-IsClosed restart true false (some response, s) h = h
finish-IsClosed false true true (some response, s) h = h
finish-IsClosed true true true (some response, s) h = dispatched-IsGated s.runtime_restart h

guarded-IsClosed :
    (far forged frozen : Bool) (a : Answer) (s : AgentState)
    → IsClosed s
    → IsClosed a.1
    → IsClosed (guarded far forged frozen a s).1
guarded-IsClosed true forged frozen a s h k = h
guarded-IsClosed false true frozen a s h k = h
guarded-IsClosed false false true a s h k = h
guarded-IsClosed false false false a s h k = k

module _ (libraries : Libraries) (html : Bytes) (env : Environment) where
  handle-IsClosed :
      (route : Route) (body : Bytes) (s : AgentState)
      → IsClosed s
      → IsClosed (handle libraries html env route body s).1
  unfolding handle localscale.Agent.Handlers.set_service_state
  handle-IsClosed to_generate body s h = generate_invitation-IsClosed libraries env body s h
  handle-IsClosed to_import body s h = import_invitation-IsClosed libraries env body s h
  handle-IsClosed to_config body s h = set_peer_config-IsClosed libraries env body s h
  handle-IsClosed to_approve body s h = set_peer_approval-IsClosed env true s h
  handle-IsClosed to_revoke body s h = set_peer_approval-IsClosed env false s h
  handle-IsClosed to_reset body s h = reset_peer-IsClosed env s h
  handle-IsClosed to_remove body s h = remove_host_peer-IsClosed libraries env body s h
  handle-IsClosed to_virtual_ip body s h = set_virtual_ip_handler-IsClosed env body s h
  handle-IsClosed to_restart body s h = request_runtime_restart-IsClosed s h
  handle-IsClosed to_mode body s h = set_mode-IsClosed env body true s h
  handle-IsClosed to_old_set_mode body s h = set_mode-IsClosed env body false s h
  handle-IsClosed to_start body s h = h
  handle-IsClosed to_stop body s h = h
  handle-IsClosed to_status body s h = h
  handle-IsClosed to_peer_status body s h = h
  handle-IsClosed to_devices body s h = h
  handle-IsClosed to_logs body s h = h
  handle-IsClosed to_sync body s h = h
  handle-IsClosed to_page body s h = h
  handle-IsClosed to_health body s h = h
  handle-IsClosed to_version body s h = h
  handle-IsClosed to_old_mode body s h = h
  handle-IsClosed to_onion body s h = h
  handle-IsClosed to_diagnostics body s h = h
  handle-IsClosed to_nothing body s h = h

  respond-IsClosed :
      (r : Request) (s : AgentState) → IsClosed s → IsClosed (respond libraries html env r s).1
  unfolding respond
  respond-IsClosed r s h =
      guarded-IsClosed (not (is_loopback_host (host_of r.headers)))
        (is_state_changing_method r.method
          && not (has_same_origin_proof r.headers (host_of r.headers)))
        (s.runtime_restart.scheduled
          && is_state_changing_method r.method
          && not (bytes_eq (path_of r.target) restart_path))
        (handle libraries html env (route_of r.method (path_of r.target)) r.body s) s h
        (handle-IsClosed (route_of r.method (path_of r.target)) r.body s h)

module _ (libraries : Libraries) (html : Bytes) where
  answered-IsClosed :
      (env : Environment) (in_time written : Bool) (x : Received) (s : AgentState)
      → IsClosed s
      → IsClosed (answer_connection libraries html env in_time written x s).1
  unfolding answer_connection response_for_request_with_state
  answered-IsClosed env in_time written (request text) s h =
      finish-IsClosed (restart_request text) in_time written
        (respond libraries html env (parse_request text) s)
        (respond-IsClosed libraries html env (parse_request text) s h)
  answered-IsClosed env in_time written too_large s h = h
  answered-IsClosed env in_time written unanswered s h = h
  answered-IsClosed env in_time written read_error s h = h

  -- Any row of connections keeps the gate: if it is closed while a restart is required, and a restart is
  -- scheduled only if one is required, then so it is behind all of them.
  pub serve_all-IsClosed :
      (cs : List Connection) (s : AgentState)
      → IsClosed s
      → IsClosed (serve_all libraries html cs s)
  unfolding serve_all handle_connection
  serve_all-IsClosed [] s h = h
  serve_all-IsClosed (c ∷ cs) s h =
      serve_all-IsClosed cs (serve libraries html c s)
        (answered-IsClosed c.env c.in_time c.written (receive c.reads []) s h)
