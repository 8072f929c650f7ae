-- ===== src/Agent/Http/Guard.antt =====
-- What the checks of `response_for_request_with_state` in front of the routes establish.
use localscale.Prelude.{
  ◌≡◌, ◌≢◌, refl, ap, ◌∙◌, Bool, true, false, not, ◌&&◌, ◌||◌, Bool-cases, inl, inr, List, [], ◌∷◌,
  Bytes, codes, bytes_eq, bytes_eq_iff, all, arith,
}
use localscale.Agent.Http.{handle, respond, restart_path}
use localscale.Agent.Origin.{is_loopback_host, is_state_changing_method, has_same_origin_proof}
use localscale.Agent.Request.{Request, path_of, host_of}
use localscale.Agent.Routes.{Route, route_of, find_route, arms}
use localscale.Agent.Routes.Route.{
  to_status, to_peer_status, to_generate, to_import, to_config, to_approve, to_revoke, to_reset,
  to_remove, to_virtual_ip, to_restart, to_devices, to_logs, to_mode, to_start, to_stop, to_sync,
  to_page, to_health, to_version, to_old_mode, to_old_set_mode, to_onion, to_diagnostics,
  to_nothing,
}
use localscale.Agent.State.{AgentState, Environment, Libraries}

-- The routes that leave the state as it is.
abbrev pub is_reading : Route → Bool
is_reading to_generate = false
is_reading to_import = false
is_reading to_config = false
is_reading to_approve = false
is_reading to_revoke = false
is_reading to_reset = false
is_reading to_remove = false
is_reading to_virtual_ip = false
is_reading to_restart = false
is_reading to_mode = false
is_reading to_start = false
is_reading to_stop = false
is_reading to_old_set_mode = false
is_reading route = true

-- An arm has a safe route, or a request of this kind does not hit it.
abbrev pub is_safe : (Route → Bool) → (Bytes → Bytes → Bool) → (Bytes × Bytes) × Route → Bool
is_safe safe hit ((m, p), route) = not (hit m p) || safe route

pub find_route_safe :
    (safe : Route → Bool) (hit : Bytes → Bytes → Bool) (list : List ((Bytes × Bytes) × Route))
    (m p : Bytes)
    → all (is_safe safe hit) list ≡ true
    → hit m p ≡ true
    → safe to_nothing ≡ true
    → safe (find_route list m p) ≡ true
unfolding find_route
find_route_safe safe hit [] m p sound may none_ = none_
find_route_safe safe hit (((n, q), route) ∷ list) m p sound may none_ =
    let later = find_route_safe safe hit list m p (ground arith) may none_ in
    elim (Bool-cases (bytes_eq n m && bytes_eq q p)) [
      | inl same ↦
          (let both : hit n q ≡ true =
              ap (λ k. hit k q) ((bytes_eq_iff n m).0 (ground arith))
              ∙ (ap (hit m) ((bytes_eq_iff q p).0 (ground arith)) ∙ may) in
            ground (arith, both))
      | inr differs ↦ rw differs later
    ]

abbrev is_other : Bytes → Bytes → Bool
is_other m p = not (bytes_eq m (codes "POST"))

arms_reading : all (is_safe is_reading is_other) arms ≡ true
unfolding bytes_eq
arms_reading = refl

post_changes : is_state_changing_method (codes "POST") ≡ true
unfolding is_state_changing_method bytes_eq
post_changes = refl

not_post : (m : Bytes) → is_state_changing_method m ≡ false → bytes_eq m (codes "POST") ≡ false
not_post m h = elim (Bool-cases (bytes_eq m (codes "POST"))) [
  | inl post ↦
      (let changes : is_state_changing_method m ≡ true =
          ap is_state_changing_method ((bytes_eq_iff m (codes "POST")).0 post) ∙ post_changes in
        ground arith)
  | inr other ↦ other
]

idle : (b c : Bool) → (b && false && c) ≡ false
idle true c = refl
idle false c = refl

-- A request that is let through to a route that may write.
abbrev pub IsAllowed : Request → AgentState → Type 0
IsAllowed r s =
    (is_loopback_host (host_of r.headers) ≡ true)
    × (is_state_changing_method r.method ≡ true)
    × (has_same_origin_proof r.headers (host_of r.headers) ≡ true)
    × (s.runtime_restart.scheduled ≡ true → bytes_eq (path_of r.target) restart_path ≡ true)

module _ (libraries : Libraries) (html : Bytes) (env : Environment) where
  pub handle-reading :
      (route : Route) (body : Bytes) (s : AgentState)
      → is_reading route ≡ true
      → (handle libraries html env route body s).1 ≡ s
  unfolding handle
  handle-reading to_status body s h = refl
  handle-reading to_peer_status body s h = refl
  handle-reading to_devices body s h = refl
  handle-reading to_logs body s h = refl
  handle-reading to_sync body s h = refl
  handle-reading to_page body s h = refl
  handle-reading to_health body s h = refl
  handle-reading to_version body s h = refl
  handle-reading to_old_mode body s h = refl
  handle-reading to_onion body s h = refl
  handle-reading to_diagnostics body s h = refl
  handle-reading to_nothing body s h = refl
  handle-reading to_generate body s h = ground arith
  handle-reading to_import body s h = ground arith
  handle-reading to_config body s h = ground arith
  handle-reading to_approve body s h = ground arith
  handle-reading to_revoke body s h = ground arith
  handle-reading to_reset body s h = ground arith
  handle-reading to_remove body s h = ground arith
  handle-reading to_virtual_ip body s h = ground arith
  handle-reading to_restart body s h = ground arith
  handle-reading to_mode body s h = ground arith
  handle-reading to_start body s h = ground arith
  handle-reading to_stop body s h = ground arith
  handle-reading to_old_set_mode body s h = ground arith

  pub respond-reading :
      (r : Request) (s : AgentState)
      → is_state_changing_method r.method ≡ false
      → (respond libraries html env r s).1 ≡ s
  unfolding respond
  respond-reading r s h =
      let reading =
        find_route_safe is_reading is_other arms r.method (path_of r.target) arms_reading
          (ap not (not_post r.method h)) refl in
      let kept = handle-reading (route_of r.method (path_of r.target)) r.body s reading in
      elim (Bool-cases (is_loopback_host (host_of r.headers))) [
        | inl near ↦
            rw (near, h)
              (rw
                (idle s.runtime_restart.scheduled (not (bytes_eq (path_of r.target) restart_path)))
                kept)
        | inr far ↦ rw far
      ]

  respond-far :
      (r : Request) (s : AgentState)
      → is_loopback_host (host_of r.headers) ≡ false
      → (respond libraries html env r s).1 ≡ s
  unfolding respond
  respond-far r s far = rw far

  respond-forged :
      (r : Request) (s : AgentState)
      → is_state_changing_method r.method ≡ true
      → has_same_origin_proof r.headers (host_of r.headers) ≡ false
      → (respond libraries html env r s).1 ≡ s
  unfolding respond
  respond-forged r s changes forged = elim (Bool-cases (is_loopback_host (host_of r.headers))) [
    | inl near ↦ rw (near, changes, forged)
    | inr far ↦ rw far
  ]

  pub respond-scheduled :
      (r : Request) (s : AgentState)
      → is_state_changing_method r.method ≡ true
      → s.runtime_restart.scheduled ≡ true
      → bytes_eq (path_of r.target) restart_path ≡ false
      → (respond libraries html env r s).1 ≡ s
  unfolding respond
  respond-scheduled r s changes scheduled other =
      elim (Bool-cases (is_loopback_host (host_of r.headers))) [
        | inl near ↦ elim (Bool-cases (has_same_origin_proof r.headers (host_of r.headers))) [
          | inl own ↦ rw (near, changes, own, scheduled, other)
          | inr forged ↦ rw (near, changes, forged)
        ]
        | inr far ↦ rw far
      ]

  -- A condition that holds since without it nothing changes.
  abbrev needed : (b : Bool) (s t : AgentState) → (b ≡ false → t ≡ s) → t ≢ s → b ≡ true
  needed true s t refused changed = refl
  needed false s t refused changed = absurd (changed (refused refl))

  -- A request that `response_for_request_with_state` answers with a change of the state names a loopback host,
  -- has a method that may change it, and has an `Origin` or `Referer` header of the same origin; and once a
  -- restart is scheduled, its path is that of the restart. The dispatch of the restart behind the answer, which
  -- `handle_connection` does, is not part of it.
  pub respond-IsAllowed :
      (r : Request) (s : AgentState) → (respond libraries html env r s).1 ≢ s → IsAllowed r s
  respond-IsAllowed r s changed =
      let t = (respond libraries html env r s).1 in
      let changes = needed (is_state_changing_method r.method) s t (respond-reading r s) changed in
      (
        needed (is_loopback_host (host_of r.headers)) s t (respond-far r s) changed,
        changes,
        needed (has_same_origin_proof r.headers (host_of r.headers)) s t
            (respond-forged r s changes) changed,
        λ scheduled.
            needed (bytes_eq (path_of r.target) restart_path) s t
              (respond-scheduled r s changes scheduled) changed,
      )
