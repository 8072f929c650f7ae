-- ===== src/Agent/Http.antt =====
-- `response_for_request_with_state` and `handle_connection` of src/lib.rs.
pub mod Guard
pub mod Run
pub mod Freeze
pub mod Restart
mod Tests
use localscale.Prelude.{
  ℕ, ◌+◌, Bool, true, false, not, ◌&&◌, ◌||◌, Option, none, some, List, [], ◌∷◌, ◌++◌, Bytes, codes,
  bytes_eq, length, ltb, leb, take, if◌then◌else◌, strip_prefix, strip_suffix,
}
use localscale.Prelude.Options.{◌>>=◌, unwrap_or, or_else}
use localscale.Codec.Decimal.{parse_uint, u64_max}
use localscale.Codec.Fields.{split, cut_at}
use localscale.Codec.Trim.{trim}
use localscale.Agent.Devices.{devices_status, agent_logs}
use localscale.Agent.Handlers.{
  service_status, peer_status, diagnostics_status, set_service_state, set_virtual_ip_handler,
  reset_peer, set_peer_approval, request_runtime_restart, dispatch_runtime_restart, json_response,
}
use localscale.Agent.Invitations.{generate_invitation, import_invitation, remove_host_peer}
use localscale.Agent.Origin.{
  http_response, is_loopback_host, is_state_changing_method, has_same_origin_proof,
}
use localscale.Agent.Pairing.{set_peer_config, set_mode}
use localscale.Agent.Request.{Request, parse_request, path_of, host_of, lines_of, next_word}
use localscale.Agent.Routes.{Route, route_of}
use localscale.Agent.Routes.Route.{
  to_status, to_peer_status, to_generate, to_import, to_config, to_approve, to_revoke, to_reset,
  to_remove, to_virtual_ip, to_restart, to_devices, to_logs, to_mode, to_start, to_stop, to_sync,
  to_page, to_health, to_version, to_old_mode, to_old_set_mode, to_onion, to_diagnostics,
  to_nothing,
}
use localscale.Agent.State.{AgentState, Environment, Libraries}

abbrev pub plain_response : Bytes → Bytes → Bytes
plain_response status body = http_response status (codes "text/plain; charset=utf-8") body

-- A response, or the panic of the thread, beside the state that is left.
abbrev pub Answer : Type 0
Answer = Option Bytes × AgentState

abbrev answered : Bytes × AgentState → Answer
answered (response, s) = (some response, s)

abbrev reported : Bytes → AgentState → Answer
reported response s = (some response, s)

abbrev pub restart_path : Bytes
restart_path = codes "/api/v1/runtime/restart"

-- The early returns in front of the routes.
abbrev pub guarded : Bool → Bool → Bool → Answer → AgentState → Answer
guarded far forged frozen routed s =
    if far
    then reported (plain_response (codes "403 Forbidden") (codes "local requests only")) s
    else if forged
    then reported (plain_response (codes "403 Forbidden") (codes "csrf validation failed")) s
    else if frozen
    then reported
        (json_response (codes "409 Conflict") (codes "{\"error\":\"runtime_restart_scheduled\"}")) s
    else routed

module _ (libraries : Libraries) (html : Bytes) (env : Environment) where
  -- `html` is the text of `configuration_html`.
  unfoldable pub handle : Route → Bytes → AgentState → Answer
  handle to_status body s = reported (service_status env s) s
  handle to_peer_status body s = reported (peer_status env s) s
  handle to_generate body s = answered (generate_invitation libraries env body s)
  handle to_import body s = answered (import_invitation libraries env body s)
  handle to_config body s = answered (set_peer_config libraries env body s)
  handle to_approve body s = answered (set_peer_approval env true s)
  handle to_revoke body s = answered (set_peer_approval env false s)
  handle to_reset body s = answered (reset_peer env s)
  handle to_remove body s = answered (remove_host_peer libraries env body s)
  handle to_virtual_ip body s = answered (set_virtual_ip_handler env body s)
  handle to_restart body s = answered (request_runtime_restart s)
  handle to_devices body s = (devices_status env s, s)
  handle to_logs body s = (agent_logs env, s)
  handle to_mode body s = answered (set_mode env body true s)
  handle to_start body s = answered (set_service_state env (codes "running") s)
  handle to_stop body s = answered (set_service_state env (codes "stopped") s)
  handle to_sync body s = reported (service_status env s) s
  handle to_page body s =
      reported (http_response (codes "200 OK") (codes "text/html; charset=utf-8") html) s
  handle to_health body s =
      reported
        (json_response (codes "200 OK") (codes "{\"status\":\"ok\",\"service\":\"localscale\"}")) s
  handle to_version body s =
      reported
        (json_response (codes "200 OK")
          (codes "{\"version\":\"0.1.0\",\"service\":\"localscale\"}"))
        s
  handle to_old_mode body s =
      reported (json_response (codes "200 OK") (codes "{\"mode\":\"" ++ (s.mode ++ codes "\"}"))) s
  handle to_old_set_mode body s = answered (set_mode env body false s)
  handle to_onion body s =
      reported (json_response (codes "200 OK") (codes "{\"enabled\":false,\"address\":null}")) s
  handle to_diagnostics body s = reported (diagnostics_status env s) s
  handle to_nothing body s = reported (plain_response (codes "404 Not Found") (codes "not found")) s

  unfoldable pub respond : Request → AgentState → Answer
  respond r s =
      let host_ = host_of r.headers in
      let changes = is_state_changing_method r.method in
      guarded (not (is_loopback_host host_))
        (changes && not (has_same_origin_proof r.headers host_))
        (s.runtime_restart.scheduled && changes && not (bytes_eq (path_of r.target) restart_path))
        (handle (route_of r.method (path_of r.target)) r.body s) s

  unfoldable pub response_for_request_with_state : Bytes → AgentState → Answer
  response_for_request_with_state text s = respond (parse_request text) s

-- What a call of `read` gives.
pub data Read : Type 0 where
  bytes : Bytes → Read
  eof timed_out failed : Read

-- `line.strip_prefix("Content-Length:")` and the number behind it.
abbrev pub content_length_of : Bytes → Option ℕ
content_length_of line =
    strip_prefix (codes "Content-Length:") line >>= (λ v. parse_uint u64_max (trim v))

-- `find_map` over the lines of the header; a carriage return at the end of one is trimmed with the value.
unfoldable pub content_length : List Bytes → ℕ
content_length [] = 0
content_length (line ∷ lines) =
    let rest = content_length lines in unwrap_or (content_length_of line) rest

abbrev max_request_bytes : ℕ
max_request_bytes = 16384

-- Where the loop that reads stops: with the request, with an answer of 413, or without any answer.
pub data Received : Type 0 where
  request : Bytes → Received
  too_large unanswered read_error : Received

-- The test behind each read: `none` reads on.
abbrev judge_header : Bytes → ℕ → Bytes → Option Received
judge_header header length_ whole =
    if ltb max_request_bytes length_ || ltb max_request_bytes (length header + 4 + length_)
    then some too_large
    else if leb (length header + 4 + length_) (length whole)
    then some (request whole)
    else none

abbrev judge : Option (Bytes × Bytes) → Bytes → Option Received
judge none whole = none
judge (some (header, rest)) whole = judge_header header (content_length (split b'\n' header)) whole

-- The reads, from what was read before; no read is left when the time is up.
unfoldable pub receive : List Read → Bytes → Received
receive [] whole = if ltb (length whole) max_request_bytes then unanswered else request whole
receive (bytes chunk ∷ reads) whole =
    if ltb (length whole) max_request_bytes
    then unwrap_or (judge (cut_at (codes "\r\n\r\n") (whole ++ chunk)) (whole ++ chunk))
        (receive reads (whole ++ chunk))
    else request whole
receive (eof ∷ reads) whole = request whole
receive (timed_out ∷ reads) whole =
    if ltb (length whole) max_request_bytes then unanswered else request whole
receive (failed ∷ reads) whole =
    if ltb (length whole) max_request_bytes then read_error else request whole

-- Whether the request line asks for the restart.
abbrev asks_restart : List Bytes → Bool
asks_restart [] = false
asks_restart (line ∷ lines) =
    bytes_eq (next_word line).0 (codes "POST")
    && bytes_eq (next_word (next_word line).1).0 restart_path

unfoldable pub restart_request : Bytes → Bool
restart_request text = asks_restart (lines_of text)

-- What is left to do with the answer: `in_time` is whether a budget for writing remains, and `written`
-- whether writing succeeds.
abbrev finish : Bool → Bool → Bool → Answer → Option Bytes × AgentState
finish restart in_time written (none, s) = (none, s)
finish restart in_time written (some response, s) =
    if not in_time
    then (none, s)
    else if written && restart
    then (some response, record s { runtime_restart = dispatch_runtime_restart s.runtime_restart })
    else (some response, s)

module _ (libraries : Libraries) (html : Bytes) (env : Environment) (in_time written : Bool) where
  unfoldable pub answer_connection : Received → AgentState → Answer
  answer_connection (request text) s =
      finish (restart_request text) in_time written
        (response_for_request_with_state libraries html env text s)
  answer_connection too_large s =
      reported (plain_response (codes "413 Payload Too Large") (codes "request too large")) s
  answer_connection unanswered s = (none, s)
  answer_connection read_error s = (none, s)

  unfoldable pub handle_connection : List Read → AgentState → Answer
  handle_connection reads s = answer_connection (receive reads []) s
