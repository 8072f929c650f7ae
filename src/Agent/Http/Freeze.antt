-- ===== src/Agent/Http/Freeze.antt =====
-- Behind an accepted restart the configuration stays as it is, as the comment in
-- `response_for_request_with_state` of src/lib.rs promises.
use localscale.Prelude.{
  ◌≡◌, refl, ap, sym, ◌∙◌, Bool, true, false, not, ◌&&◌, ◌||◌, Bool-cases, inl, inr, none, some,
  List, [], ◌∷◌, Bytes, bytes_eq, all, if_split,
}
use localscale.Agent.Handlers.{dispatch_runtime_restart, request_runtime_restart}
use localscale.Agent.Http.{
  Answer, handle, respond, response_for_request_with_state, restart_path, Received, request,
  too_large, unanswered, read_error, receive, finish, restart_request, answer_connection,
  handle_connection,
}
use localscale.Agent.Http.Guard.{
  is_reading, is_safe, find_route_safe, handle-reading, respond-reading, respond-scheduled,
}
use localscale.Agent.Http.Run.{Connection, serve, serve_all}
use localscale.Agent.Origin.{is_loopback_host, is_state_changing_method, has_same_origin_proof}
use localscale.Agent.Request.{Request, parse_request, path_of, host_of}
use localscale.Agent.Routes.{Route, route_of, arms}
use localscale.Agent.Routes.Route.{to_restart}
use localscale.Agent.State.{AgentState, Environment, Libraries, RuntimeRestart}

abbrev is_restart : Route → Bool
is_restart to_restart = true
is_restart route = false

abbrev is_lasting : Route → Bool
is_lasting route = is_restart route || is_reading route

abbrev asks : Bytes → Bytes → Bool
asks m p = bytes_eq p restart_path

arms_lasting : all (is_safe is_lasting asks) arms ≡ true
unfolding bytes_eq
arms_lasting = refl

again :
    (restart : RuntimeRestart)
    → restart.scheduled ≡ true
    → record restart { scheduled = true } ≡ restart
again restart e = ap (λ (b : Bool). record restart { scheduled = b }) (sym e)

-- Asking once more for the restart changes nothing.
request_runtime_restart-scheduled :
    (s : AgentState) → s.runtime_restart.scheduled ≡ true → (request_runtime_restart s).1 ≡ s
unfolding request_runtime_restart
request_runtime_restart-scheduled s e =
    if_split (λ t. t ≡ s) (not s.peer_transport_restart_required) _ _ (λ f. refl)
      (λ f.
        ap (λ (r : RuntimeRestart). record s { runtime_restart = r }) (again s.runtime_restart e))

module _ (libraries : Libraries) (html : Bytes) (env : Environment) where
  handle-lasting :
      (route : Route) (body : Bytes) (s : AgentState)
      → is_lasting route ≡ true
      → s.runtime_restart.scheduled ≡ true
      → (handle libraries html env route body s).1 ≡ s
  unfolding handle
  handle-lasting to_restart body s h e = request_runtime_restart-scheduled s e
  handle-lasting route body s h e = handle-reading libraries html env route body s h

  respond-lasting :
      (r : Request) (s : AgentState)
      → bytes_eq (path_of r.target) restart_path ≡ true
      → s.runtime_restart.scheduled ≡ true
      → (respond libraries html env r s).1 ≡ s
  unfolding respond
  respond-lasting r s path e =
      let lasting =
        find_route_safe is_lasting asks arms r.method (path_of r.target) arms_lasting path refl in
      if_split (λ t. t ≡ s) (not (is_loopback_host (host_of r.headers))) _ _ (λ f. refl)
        (λ f.
          if_split (λ t. t ≡ s)
            (is_state_changing_method r.method
              && not (has_same_origin_proof r.headers (host_of r.headers)))
            _ _ (λ g. refl)
            (λ g.
              if_split (λ t. t ≡ s)
                (s.runtime_restart.scheduled
                  && is_state_changing_method r.method
                  && not (bytes_eq (path_of r.target) restart_path))
                _ _ (λ h. refl)
                (λ h. handle-lasting (route_of r.method (path_of r.target)) r.body s lasting e)))

  -- No request changes the state once a restart is scheduled.
  respond-frozen :
      (r : Request) (s : AgentState)
      → s.runtime_restart.scheduled ≡ true
      → (respond libraries html env r s).1 ≡ s
  respond-frozen r s e = elim (Bool-cases (is_state_changing_method r.method)) [
    | inl changes ↦ elim (Bool-cases (bytes_eq (path_of r.target) restart_path)) [
      | inl path ↦ respond-lasting r s path e
      | inr other ↦ respond-scheduled libraries html env r s changes e other
    ]
    | inr reads ↦ respond-reading libraries html env r s reads
  ]

-- The state apart from the restart itself.
abbrev pub configuration : AgentState → AgentState
configuration s = record s {
  runtime_restart = record { scheduled = true; dispatched = false; requested = false };
}

abbrev IsKept : AgentState → AgentState → Type 0
IsKept s t =
    (configuration t ≡ configuration s)
    × (t.runtime_restart.scheduled ≡ s.runtime_restart.scheduled)

dispatch_runtime_restart-scheduled :
    (r : RuntimeRestart) → (dispatch_runtime_restart r).scheduled ≡ r.scheduled
unfolding dispatch_runtime_restart
dispatch_runtime_restart-scheduled r = elim (Bool-cases r.dispatched) [
  | inl e ↦ rw e refl
  | inr e ↦ rw e refl
]

finish-IsKept :
    (restart in_time written : Bool) (a : Answer) → IsKept a.1 (finish restart in_time written a).1
finish-IsKept restart in_time written (none, s) = (refl, refl)
finish-IsKept restart false written (some response, s) = (refl, refl)
finish-IsKept restart true false (some response, s) = (refl, refl)
finish-IsKept false true true (some response, s) = (refl, refl)
finish-IsKept true true true (some response, s) =
    (refl, dispatch_runtime_restart-scheduled s.runtime_restart)

module _ (libraries : Libraries) (html : Bytes) where
  answered-IsKept :
      (env : Environment) (in_time written : Bool) (x : Received) (s : AgentState)
      → s.runtime_restart.scheduled ≡ true
      → IsKept s (answer_connection libraries html env in_time written x s).1
  unfolding answer_connection response_for_request_with_state
  answered-IsKept env in_time written (request text) s e =
      let a = respond libraries html env (parse_request text) s in
      let same = respond-frozen libraries html env (parse_request text) s e in
      let kept = finish-IsKept (restart_request text) in_time written a in
      (
        kept.0 ∙ ap configuration same,
        kept.1 ∙ ap (λ (t : AgentState). t.runtime_restart.scheduled) same,
      )
  answered-IsKept env in_time written too_large s e = (refl, refl)
  answered-IsKept env in_time written unanswered s e = (refl, refl)
  answered-IsKept env in_time written read_error s e = (refl, refl)

  -- Once a restart is scheduled, no row of connections changes anything but the course of the restart.
  pub serve_all-frozen :
      (cs : List Connection) (s : AgentState)
      → s.runtime_restart.scheduled ≡ true
      → configuration (serve_all libraries html cs s) ≡ configuration s
  unfolding serve_all handle_connection
  serve_all-frozen [] s e = refl
  serve_all-frozen (c ∷ cs) s e =
      let kept = answered-IsKept c.env c.in_time c.written (receive c.reads []) s e in
      serve_all-frozen cs (serve libraries html c s) (kept.1 ∙ e) ∙ kept.0
