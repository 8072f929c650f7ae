-- ===== src/Agent/Http/Restart.antt =====
-- `handle_connection` of src/lib.rs dispatches the restart by the request line alone.
use localscale.Prelude.{◌≡◌, ap, ◌∙◌, true, false, some, Bytes, codes}
use localscale.Agent.Handlers.{dispatch_runtime_restart}
use localscale.Agent.Http.{
  respond, response_for_request_with_state, request, finish, restart_request, answer_connection,
  plain_response,
}
use localscale.Agent.Origin.{is_loopback_host}
use localscale.Agent.Request.{Request, parse_request, host_of}
use localscale.Agent.State.{AgentState, Environment, Libraries, RuntimeRestart}

abbrev refusal : Bytes
refusal = plain_response (codes "403 Forbidden") (codes "local requests only")

refused :
    (libraries : Libraries) (html : Bytes) (env : Environment) (r : Request) (s : AgentState)
    → is_loopback_host (host_of r.headers) ≡ false
    → respond libraries html env r s ≡ (some refusal, s)
unfolding respond
refused libraries html env r s far = rw far

dispatched_first :
    (r : RuntimeRestart)
    → r.dispatched ≡ false
    → dispatch_runtime_restart r ≡ record r { dispatched = true; requested = true }
unfolding dispatch_runtime_restart
dispatched_first r e = rw e

-- A request that names a host that is not a loopback host is refused, and all the same, if its first line
-- asks for the restart and the refusal is written in time, the restart begins if none has begun.
pub answer_connection-refused :
    (libraries : Libraries) (html : Bytes) (env : Environment) (text : Bytes) (s : AgentState)
    → restart_request text ≡ true
    → is_loopback_host (host_of (parse_request text).headers) ≡ false
    → s.runtime_restart.dispatched ≡ false
    → answer_connection libraries html env true true (request text) s ≡ (
      some refusal,
      record s {
        runtime_restart = record (s.runtime_restart) { dispatched = true; requested = true };
      },
    )
unfolding answer_connection response_for_request_with_state
answer_connection-refused libraries html env text s line far first =
    ap (λ b. finish b true true (respond libraries html env (parse_request text) s)) line
    ∙ (ap (finish true true true) (refused libraries html env (parse_request text) s far)
        ∙ ap (λ (r : RuntimeRestart). (some refusal, record s { runtime_restart = r }))
            (dispatched_first s.runtime_restart first))
