-- ===== src/Agent/Http/Tests.antt =====
-- Requests to an agent of which nothing is stored yet.
use localscale.Prelude.{
  ◌≡◌, ◌≢◌, refl, ap, sym, ◌∙◌, ◌++◌, Bool, true, false, some, List, [], ◌∷◌, arith, Bytes, codes,
  bytes_eq, strip_prefix,
}
use localscale.Codec.Fields.{cut_at, split_at, split_once}
use localscale.Codec.Trim.{trim, strip_all, strip_one}
use localscale.Agent.Gate.{IsClosed}
use localscale.Agent.Handlers.{set_service_state}
use localscale.Agent.Http.{
  handle, respond, request, restart_request, answer_connection, plain_response, bytes,
}
use localscale.Agent.Http.Freeze.{configuration, serve_all-frozen}
use localscale.Agent.Http.Guard.{IsAllowed, respond-IsAllowed}
use localscale.Agent.Http.Restart.{answer_connection-refused}
use localscale.Agent.Http.Run.{Connection, serve_all, serve_all-IsClosed}
use localscale.Agent.Origin.{
  is_loopback_host, is_state_changing_method, has_same_origin_proof, origin_matches_host,
  eq_ignore_ascii_case,
}
use localscale.Agent.Request.{Request, parse_request, headers_of, host_of, first_word}
use localscale.Agent.Routes.{find_route}
use localscale.Agent.Samples.{libraries, env, state}
use localscale.Agent.State.{AgentState, default_state}

abbrev text_of : Bytes → Bytes
text_of path =
    codes "POST "
    ++ (path ++ codes " HTTP/1.1\r\nHost: localhost:8080\r\nOrigin: http://localhost:8080\r\n\r\n")

abbrev stop_request : Request
stop_request = record {
  method = codes "POST";
  target = codes "/api/v1/service/stop";
  headers = (codes "Host", codes "localhost") ∷ (codes "Origin", codes "http://localhost") ∷ [];
  body = [];
}

-- Taking the request apart.
stop_parsed :
    parse_request (
      codes
        "POST /api/v1/service/stop HTTP/1.1\r\nHost: localhost\r\nOrigin: http://localhost\r\n\r\n")
    ≡ stop_request
unfolding parse_request cut_at split_at split_once first_word strip_one strip_prefix strip_all trim
    headers_of
stop_parsed = refl

abbrev is_stopped : AgentState → Bool
is_stopped s = bytes_eq s.service_state (codes "stopped")

stopped : is_stopped (respond libraries [] env stop_request state).1 ≡ true
unfolding default_state respond handle set_service_state find_route bytes_eq is_loopback_host
    is_state_changing_method has_same_origin_proof origin_matches_host eq_ignore_ascii_case cut_at
    strip_prefix host_of trim strip_all strip_one split_once
stopped = refl

running : is_stopped state ≡ false
unfolding default_state bytes_eq
running = refl

changed : (respond libraries [] env stop_request state).1 ≢ state
changed e = let both : true ≡ false = sym stopped ∙ (ap is_stopped e ∙ running) in ground arith

respond-IsAllowed_example : IsAllowed stop_request state
respond-IsAllowed_example = respond-IsAllowed libraries [] env stop_request state changed

abbrev connection : Bytes → Connection
connection text = record { env = env; reads = bytes text ∷ []; in_time = true; written = true }

-- Two requests of which the second closes the gate.
abbrev connections : List Connection
connections =
    connection (text_of (codes "/api/v1/peer/approve"))
    ∷ connection (text_of (codes "/api/v1/peer/reset"))
    ∷ []

default-IsClosed : IsClosed state
unfolding default_state
default-IsClosed = record { closed = λ e. (ground arith); wanted = λ e. (ground arith) }

serve_all-IsClosed_example : IsClosed (serve_all libraries [] connections state)
serve_all-IsClosed_example = serve_all-IsClosed libraries [] connections state default-IsClosed

abbrev scheduled_state : AgentState
scheduled_state = record state {
  runtime_restart = record { scheduled = true; dispatched = false; requested = false };
}

serve_all-frozen_example :
    configuration (serve_all libraries [] connections scheduled_state)
    ≡ configuration scheduled_state
serve_all-frozen_example = serve_all-frozen libraries [] connections scheduled_state refl

abbrev foreign_text : Bytes
foreign_text = codes "POST /api/v1/runtime/restart HTTP/1.1\r\nHost: example.org\r\n\r\n"

foreign_line : restart_request foreign_text ≡ true
unfolding restart_request cut_at split_at first_word strip_one strip_prefix strip_all bytes_eq
foreign_line = refl

foreign_host : is_loopback_host (host_of (parse_request foreign_text).headers) ≡ false
unfolding is_loopback_host host_of parse_request cut_at split_at split_once first_word strip_one
    strip_prefix strip_all trim headers_of eq_ignore_ascii_case bytes_eq
foreign_host = refl

idle : state.runtime_restart.dispatched ≡ false
unfolding default_state
idle = refl

answer_connection-refused_example :
    answer_connection libraries [] env true true (request foreign_text) state ≡ (
      some (plain_response (codes "403 Forbidden") (codes "local requests only")),
      record state {
        runtime_restart = record (state.runtime_restart) { dispatched = true; requested = true };
      },
    )
answer_connection-refused_example =
    answer_connection-refused libraries [] env foreign_text state foreign_line foreign_host idle
