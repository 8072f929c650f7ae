-- ===== src/Agent/Tun/Spawn/Once.antt =====
-- The one device of a process of src/main.rs.
use localscale.Prelude.{
  ℕ, ◌+◌, ◌≤◌, ◌≡◌, refl, ◌∙◌, Bool, true, false, Option, none, some, List, [], ◌∷◌, Bytes, arith,
  if_both, Result, ok, err,
}
use localscale.Agent.Tun.{Platform, linux, macos}
use localscale.Agent.Tun.Spawn.{
  TunState, SpawnInput, no_device, spawn_tun_bridge, spawn_all, spawn_on, forwarding,
  get_or_init_if,
}
use localscale.Protocol.Syntax.{is_empty}
use localscale.Transport.Action.{IoError}

-- The device was asked for at most once, and exactly if its outcome is known; routes are set by at most one thread,
-- and only for a device.
abbrev IsOnceFor : Option Bool → TunState → Type 0
IsOnceFor none s = (s.attempts ≡ 0) × (s.route_threads ≡ 0)
IsOnceFor (some false) s = (s.attempts ≡ 1) × (s.route_threads ≡ 0)
IsOnceFor (some true) s = (s.attempts ≡ 1) × (s.route_threads ≤ 1)

abbrev pub IsOnce : TunState → Type 0
IsOnce s = IsOnceFor s.memo s

-- No session is bridged without a device.
abbrev pub AreBridged : List Bool → Option Bool → Type 0
AreBridged [] memo = Unit
AreBridged (true ∷ bs) memo = (memo ≡ some true) × AreBridged bs memo
AreBridged (false ∷ bs) memo = AreBridged bs memo

-- What a call keeps: the outcome that is known, if one is.
abbrev Keeps : Option Bool → Option Bool → Type 0
Keeps none memo = Unit
Keeps (some b) memo = memo ≡ some b

abbrev IsSound : Option Bool → Bool × TunState → Type 0
IsSound memo (bridged, t) = IsOnce t × (Keeps memo t.memo × AreBridged (bridged ∷ []) t.memo)

abbrev tun_state : Option Bool → ℕ → ℕ → TunState
tun_state memo a r = record { memo = memo; attempts = a; route_threads = r }

forwarding-IsSound :
    (platform : Platform) (cloned b : Bool) (memo : Option Bool) (a r : ℕ)
    → IsOnceFor (some b) (tun_state (some b) a r)
    → Keeps memo (some b)
    → IsSound memo (forwarding platform cloned (b, tun_state (some b) a r))
forwarding-IsSound platform cloned false memo a r once keeps = (once, (keeps, tt))
forwarding-IsSound linux true true memo a r once keeps =
    ((once.0, omega arith), (keeps, (refl, tt)))
forwarding-IsSound linux false true memo a r once keeps = ((once.0, omega arith), (keeps, tt))
forwarding-IsSound macos true true memo a r once keeps = (once, (keeps, (refl, tt)))
forwarding-IsSound macos false true memo a r once keeps = (once, (keeps, tt))

-- Asking for the device, once nothing is known.
made-IsSound :
    (platform : Platform) (cloned : Bool) (creation : Result IoError Bytes) (a r : ℕ)
    → IsOnceFor none (tun_state none a r)
    → IsSound none (forwarding platform cloned (get_or_init_if none creation (tun_state none a r)))
made-IsSound platform cloned (ok name) a r once =
    forwarding-IsSound platform cloned true none (a + 1) r (omega arith, omega arith) tt
made-IsSound platform cloned (err e) a r once =
    forwarding-IsSound platform cloned false none (a + 1) r (omega arith, omega arith) tt

spawn_on-IsSound :
    (platform : Platform) (i : SpawnInput) (memo : Option Bool) (a r : ℕ)
    → IsOnceFor memo (tun_state memo a r)
    → IsSound memo (spawn_on platform i (tun_state memo a r))
spawn_on-IsSound linux i none a r once = made-IsSound linux i.are_cloned (i.device []) a r once
spawn_on-IsSound linux i (some b) a r once =
    forwarding-IsSound linux i.are_cloned b (some b) a r once refl
spawn_on-IsSound macos i none a r once = awaited i.peer_ip
  where
    awaited :
        (o : Option Bytes)
        → IsSound none (elim o [
          | none ↦ (false, tun_state none a r)
          | some peer_ip ↦
              forwarding macos i.are_cloned
                (get_or_init_if none (i.device peer_ip) (tun_state none a r))
        ])
    awaited none = (once, (tt, tt))
    awaited (some peer_ip) = made-IsSound macos i.are_cloned (i.device peer_ip) a r once
spawn_on-IsSound macos i (some b) a r once =
    forwarding-IsSound macos i.are_cloned b (some b) a r once refl

skipped-Keeps : (memo : Option Bool) → Keeps memo memo
skipped-Keeps none = tt
skipped-Keeps (some b) = refl

spawn-IsSound :
    (platform : Platform) (i : SpawnInput) (memo : Option Bool) (a r : ℕ)
    → IsOnceFor memo (tun_state memo a r)
    → IsSound memo (spawn_tun_bridge platform i (tun_state memo a r))
unfolding spawn_tun_bridge
spawn-IsSound platform i memo a r once =
    if_both (IsSound memo) (is_empty i.local_ip) _ _ (λ without. (once, (skipped-Keeps memo, tt)))
      (λ given. spawn_on-IsSound platform i memo a r once)

Keeps-both : (memo later last : Option Bool) → Keeps memo later → Keeps later last → Keeps memo last
Keeps-both none later last h k = tt
Keeps-both (some b) none last h k = ground arith
Keeps-both (some b) (some c) last h k = k ∙ h

bridged_later :
    (b : Bool) (bs : List Bool) (memo last : Option Bool)
    → AreBridged (b ∷ []) memo
    → Keeps memo last
    → AreBridged bs last
    → AreBridged (b ∷ bs) last
bridged_later false bs memo last h k rest = rest
bridged_later true bs none last h k rest = ground arith
bridged_later true bs (some c) last h k rest = (k ∙ h.0, rest)

spawn_all-IsSound :
    (platform : Platform) (is : List SpawnInput) (memo : Option Bool) (a r : ℕ)
    → IsOnceFor memo (tun_state memo a r)
    → IsOnce (spawn_all platform is (tun_state memo a r)).1
      × (Keeps memo (spawn_all platform is (tun_state memo a r)).1.memo
          × AreBridged
              (spawn_all platform is (tun_state memo a r)).0
              (spawn_all platform is (tun_state memo a r)).1.memo)
unfolding spawn_all
spawn_all-IsSound platform [] memo a r once = (once, (skipped-Keeps memo, tt))
spawn_all-IsSound platform (i ∷ is) memo a r once =
    let step = spawn_tun_bridge platform i (tun_state memo a r) in
    let first = spawn-IsSound platform i memo a r once in
    let rest =
      spawn_all-IsSound platform is step.1.memo step.1.attempts step.1.route_threads first.0 in
    let last = (spawn_all platform is step.1).1.memo in
    (
      rest.0,
      (
        Keeps-both memo step.1.memo last first.1.0 rest.1.0,
        bridged_later step.0 _ step.1.memo last first.1.1 rest.1.0 rest.1.1,
      ),
    )

-- Over any row of sessions, the process asks for a TUN device at most once, whatever comes of it, a session is
-- bridged only to that device, and at most one thread sets routes.
pub spawn_all-IsOnce :
    (platform : Platform) (is : List SpawnInput)
    → IsOnce (spawn_all platform is no_device).1
      × AreBridged (spawn_all platform is no_device).0 (spawn_all platform is no_device).1.memo
spawn_all-IsOnce platform is =
    let sound = spawn_all-IsSound platform is none 0 0 (refl, refl) in (sound.0, sound.1.1)
