-- ===== src/Agent/Serving/Live.antt =====
-- The table of the live peers of a host in src/main.rs.
use localscale.Prelude.{
  ℕ, ◌≡◌, refl, sym, ap, ◌∙◌, ◌<◌, ◌≤◌, ltb, suc, if_both, ◌==◌, Bool, true, false, Option, none,
  some, List, [], ◌∷◌, length, Bytes, bytes_eq, if◌then◌else◌, arith, Result, ok, err,
}
use localscale.Prelude.Table.{lookup, lookup-insert, lookup-without}
use localscale.Prelude.Options.{◌>>=◌}
use localscale.Agent.HostRegistry.{Json, HostPeerRegistry}
use localscale.Agent.HostRegistry
use localscale.Agent.Serving.{
  HostSession, Serving, Event, serving_step, serving_steps, accept_turn, remove_device, on_removed,
  device_removal, change_session, find_session, host_beat, handshake, session_beat, registry_edit,
  address_edit, new_serving, shown_session, HostInput, on_host_ping, on_sent,
}
use localscale.Agent.Status.{PeerTransportStatus}
use localscale.Transport.Action.{IoError, TransportError}
use localscale.Transport.Multiplex.{Inboxes}
use localscale.Transport.Wire.{Stream}

-- The last session with a device among those behind the first ones, and its number.
abbrev pub last_session : ℕ → Bytes → List HostSession → Option HostSession
last_session first node [] = none
last_session first node (s ∷ ss) =
    let rest = last_session first node ss in
    if ltb (length ss) first then none else if bytes_eq s.peer_node_id node then some s else rest

abbrev last_number : ℕ → Bytes → List HostSession → Option ℕ
last_number first node [] = none
last_number first node (s ∷ ss) =
    let rest = last_number first node ss in
    if ltb (length ss) first
    then none
    else if bytes_eq s.peer_node_id node
    then some (length ss)
    else rest

abbrev IsBelow : Option ℕ → ℕ → Type 0
IsBelow none n = Unit
IsBelow (some k) n = k < n

weakened : (o : Option ℕ) (n : ℕ) → IsBelow o n → IsBelow o (suc n)
weakened none n h = tt
weakened (some k) n h = omega arith

last_number-IsBelow :
    (first : ℕ) (node : Bytes) (ss : List HostSession)
    → IsBelow (last_number first node ss) (length ss)
last_number-IsBelow first node [] = tt
last_number-IsBelow first node (s ∷ ss) =
    if_both (λ o. IsBelow o (suc (length ss))) (ltb (length ss) first) _ _ (λ early. tt)
      (λ late.
        if_both (λ o. IsBelow o (suc (length ss))) (bytes_eq s.peer_node_id node) _ _
          (λ same. omega arith)
          (λ other.
            weakened (last_number first node ss) (length ss) (last_number-IsBelow first node ss)))

find_session_later :
    (o : Option ℕ) (s : HostSession) (ss : List HostSession)
    → IsBelow o (length ss)
    → (o >>= (λ k. find_session k (s ∷ ss))) ≡ (o >>= (λ k. find_session k ss))
unfolding find_session
find_session_later none s ss h = refl
find_session_later (some k) s ss h = ground arith

find_session-last_number :
    (first : ℕ) (node : Bytes) (ss : List HostSession)
    → (last_number first node ss >>= (λ k. find_session k ss)) ≡ last_session first node ss
unfolding find_session
find_session-last_number first node [] = refl
find_session-last_number first node (s ∷ ss) =
    found (ltb (length ss) first) (bytes_eq s.peer_node_id node)
      (find_session-last_number first node ss)
  where
    found :
        (early b : Bool)
        → (last_number first node ss >>= (λ k. find_session k ss)) ≡ last_session first node ss
        → ((if early then none else if b then some (length ss) else last_number first node ss)
            >>= (λ k. find_session k (s ∷ ss)))
          ≡ (if early then none else if b then some s else last_session first node ss)
    found true b before = refl
    found false true before = ground arith
    found false false before =
        find_session_later (last_number first node ss) s ss (last_number-IsBelow first node ss)
        ∙ before

-- No session stands behind all of them.
last_number-length : (node : Bytes) (ss : List HostSession) → last_number (length ss) node ss ≡ none
last_number-length node [] = refl
last_number-length node (s ∷ ss) = ground arith

module _ (local_node_id : Bytes) where
  abbrev HasPeer : Bytes → HostSession → Type 0
  HasPeer node s = s.peer_node_id ≡ node

  on_sent-HasPeer :
      (now : Option ℕ) (x : Result TransportError (Unit {0}) × Stream) (s : HostSession)
      → HasPeer s.peer_node_id (on_sent now x s)
  on_sent-HasPeer now (ok u, stream) s = refl
  on_sent-HasPeer now (err e, stream) s = refl

  on_host_ping-HasPeer :
      (i : HostInput) (address : Bytes) (x : Result TransportError (ℕ × Bytes) × Inboxes)
      (s : HostSession)
      → HasPeer s.peer_node_id (on_host_ping local_node_id i address x s)
  on_host_ping-HasPeer i address (ok (sequence, peer_address), boxes) s = on_sent-HasPeer i.now _ _
  on_host_ping-HasPeer i address (err e, boxes) s = refl

  host_beat-peer_node_id :
      (i : HostInput) (address : Bytes) (s : HostSession)
      → (host_beat local_node_id i address s).peer_node_id ≡ s.peer_node_id
  unfolding host_beat
  host_beat-peer_node_id i address s =
      if_both (HasPeer s.peer_node_id) s.is_running _ _
        (λ runs.
          if_both (HasPeer s.peer_node_id) i.gate _ _ (λ yes. on_host_ping-HasPeer i address _ _)
            (λ no. refl))
        (λ ended. refl)

  length-change_session :
      (k : ℕ) (f : HostSession → HostSession) (ss : List HostSession)
      → length (change_session k f ss) ≡ length ss
  unfolding change_session
  length-change_session k f [] = refl
  length-change_session k f (s ∷ ss) = ap suc (length-change_session k f ss)

  last_number-change_session :
      (k first : ℕ) (i : HostInput) (address node : Bytes) (ss : List HostSession)
      → last_number first node (change_session k (host_beat local_node_id i address) ss)
        ≡ last_number first node ss
  unfolding change_session
  last_number-change_session k first i address node [] = refl
  last_number-change_session k first i address node (s ∷ ss) =
      let f = host_beat local_node_id i address in
      let changed : (if k == length ss then f s else s).peer_node_id ≡ s.peer_node_id =
        if_both (HasPeer s.peer_node_id) (k == length ss) _ _
          (λ same. host_beat-peer_node_id i address s) (λ other. refl) in
      rw (
        changed,
        length-change_session k f ss,
        last_number-change_session k first i address node ss,
      )

module _ (json : Json) (local_node_id : Bytes) where
  abbrev removed_if : Bool → Result IoError (Unit {0}) → ℕ → ℕ → ℕ
  removed_if true (ok u) now first = now
  removed_if true (err e) now first = first
  removed_if false r now first = first

  -- How many sessions had been accepted when a device was removed the last time, or 0, from that number so far.
  abbrev removed_by : Bytes → Event → Serving → ℕ → ℕ
  removed_by node (device_removal fault other) h first =
      removed_if (bytes_eq other node) (HostRegistry.remove json fault other h.registry).0
        (length h.sessions) first
  removed_by node (handshake fault x) h first = first
  removed_by node (session_beat k i) h first = first
  removed_by node (registry_edit r) h first = first
  removed_by node (address_edit address) h first = first

  unfoldable pub removed_at : Bytes → List Event → Serving → ℕ → ℕ
  removed_at node [] h first = first
  removed_at node (e ∷ es) h first =
      removed_at node es (serving_step json local_node_id e h) (removed_by node e h first)

  -- The table gives the number of the last session with a device since it was removed.
  abbrev IsCurrent : Bytes → ℕ → Serving → Type 0
  IsCurrent node first h =
      (first ≤ length h.sessions) × (lookup node h.live ≡ last_number first node h.sessions)

  on_removed-IsCurrent :
      (same : Bool) (x : Result IoError (Unit {0}) × HostPeerRegistry) (other node : Bytes)
      (first : ℕ) (h : Serving)
      → bytes_eq other node ≡ same
      → IsCurrent node first h
      → IsCurrent node
          (removed_if same x.0 (length h.sessions) first)
          (on_removed json local_node_id x other h)
  on_removed-IsCurrent true (ok u, r) other node first h e current = (
    omega arith,
    lookup-without other node h.live
        ∙ ap (λ b. if b then none else lookup node h.live) e
        ∙ sym (last_number-length node h.sessions),
  )
  on_removed-IsCurrent true (err f, r) other node first h e current = current
  on_removed-IsCurrent false (ok u, r) other node first h e current = (
    current.0,
    lookup-without other node h.live
        ∙ ap (λ b. if b then none else lookup node h.live) e
        ∙ current.1,
  )
  on_removed-IsCurrent false (err f, r) other node first h e current = current

  serving_step-IsCurrent :
      (node : Bytes) (first : ℕ) (e : Event) (h : Serving)
      → IsCurrent node first h
      → IsCurrent node (removed_by node e h first) (serving_step json local_node_id e h)
  unfolding serving_step accept_turn remove_device
  serving_step-IsCurrent node first (handshake fault (err e)) h current = current
  serving_step-IsCurrent node first (handshake fault (ok (peer, stream))) h current =
      let late : ltb (length h.sessions) first ≡ false = ground arith in
      (
        omega arith,
        lookup-insert peer.peer_node_id node (length h.sessions) h.live
            ∙ ap (λ o. if bytes_eq peer.peer_node_id node then some (length h.sessions) else o)
                current.1
            ∙ ap
                (λ b.
                  if b
                  then none
                  else if bytes_eq peer.peer_node_id node
                  then some (length h.sessions)
                  else last_number first node h.sessions)
                (sym late),
      )
  serving_step-IsCurrent node first (session_beat k i) h current = (
    omega (
      arith,
      length-change_session local_node_id k (host_beat local_node_id i h.status.local_virtual_ip)
          h.sessions,
      current.0,
    ),
    current.1
        ∙ sym (
            last_number-change_session local_node_id k first i h.status.local_virtual_ip node
              h.sessions),
  )
  serving_step-IsCurrent node first (device_removal fault other) h current =
      on_removed-IsCurrent (bytes_eq other node) (HostRegistry.remove json fault other h.registry)
        other node first h refl current
  serving_step-IsCurrent node first (registry_edit r) h current = current
  serving_step-IsCurrent node first (address_edit address) h current = current

  serving_steps-IsCurrent :
      (node : Bytes) (es : List Event) (first : ℕ) (h : Serving)
      → IsCurrent node first h
      → IsCurrent node (removed_at node es h first) (serving_steps json local_node_id es h)
  unfolding serving_steps removed_at
  serving_steps-IsCurrent node [] first h current = current
  serving_steps-IsCurrent node (e ∷ es) first h current =
      serving_steps-IsCurrent node es (removed_by node e h first)
        (serving_step json local_node_id e h) (serving_step-IsCurrent node first e h current)

  -- Whatever sessions start, go on and end on a host, in any order and also if a device has several at a time,
  -- and whatever devices are removed, the session whose status the table of the live peers gives for a device is
  -- exactly the last one that was accepted from it since its last removal that succeeded, if there is one.
  pub shown_session-last_session :
      (es : List Event) (registry : HostPeerRegistry) (status : PeerTransportStatus) (node : Bytes)
      → shown_session node (serving_steps json local_node_id es (new_serving registry status))
        ≡ last_session
            (removed_at node es (new_serving registry status) 0)
            node
            (serving_steps json local_node_id es (new_serving registry status)).sessions
  unfolding lookup
  shown_session-last_session es registry status node =
      let h = serving_steps json local_node_id es (new_serving registry status) in
      let current =
        serving_steps-IsCurrent node es 0 (new_serving registry status) (omega arith, refl) in
      ap (λ o. o >>= (λ k. find_session k h.sessions)) current.1
      ∙ find_session-last_number _ node h.sessions
