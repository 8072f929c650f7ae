-- ===== src/Agent/Tun/Spawn.antt =====
-- `spawn_tun_bridge` of src/main.rs: the one device of the process, and whether a session is bridged to it. If it is
-- not, the session's channel of packets is dropped.
pub mod Once
use localscale.Prelude.{
  ℕ, zero, suc, ◌+◌, ◌≤◌, ◌≡◌, refl, Bool, true, false, ◌&&◌, Option, none, some, List, [], ◌∷◌,
  ◌++◌, Bytes, codes, arith, if◌then◌else◌, if_both, Result, ok, err, ◌>>=◌, ◌>>◌,
}
use localscale.Agent.Tun.{
  Platform, linux, macos, Tool, create_linux, configure_address_linux, create_macos,
  configure_address_macos, UtunCalls, IfReq,
}
use localscale.Protocol.Syntax.{is_empty}
use localscale.Transport.Action.{IoError}

-- `LINUX_TUN_DEVICE` or `MACOS_TUN_DEVICE`: not set, or whether there is a device; how often a device was
-- asked for; and how many threads set routes.
pub record TunState : Type 0 where
  pub memo : Option Bool
  pub attempts : ℕ
  pub route_threads : ℕ

abbrev pub no_device : TunState
no_device = record { memo = none; attempts = 0; route_threads = 0 }

-- What a call meets: the host's own address, the peer's if it arrives within a minute, the outcome of creating and
-- configuring a device, and whether its two handles can be cloned.
pub record SpawnInput : Type 0 where
  pub local_ip : Bytes
  pub peer_ip : Option Bytes
  pub device : Bytes → Result IoError Bytes
  pub are_cloned : Bool

-- The device of Linux, for the host's own address.
unfoldable pub linux_device :
    (Bytes → Bytes)
    → Result IoError (Unit {0})
    → Bytes
    → (IfReq → Result IoError Bytes)
    → Tool
    → Bytes
    → Result IoError Bytes
linux_device lossy opened name ioctl run_ip local_ip = do
  device ← create_linux lossy opened name ioctl
  configure_address_linux run_ip device (local_ip ++ codes "/24")
  ok device

-- The device of macOS, for the host's own address and the peer's.
unfoldable pub macos_device :
    (Bytes → Bytes) → UtunCalls → Tool → Bytes → Bytes → Result IoError Bytes
macos_device lossy calls run_ifconfig local_ip peer_ip = do
  device ← (create_macos lossy calls).0
  configure_address_macos run_ifconfig device local_ip peer_ip
  ok device

abbrev made : Result IoError Bytes → Bool
made (ok name) = true
made (err e) = false

-- `get_or_init`
abbrev pub get_or_init_if : Option Bool → Result IoError Bytes → TunState → Bool × TunState
get_or_init_if (some b) creation s = (b, s)
get_or_init_if none creation s =
    (made creation, record s { memo = some (made creation); attempts = s.attempts + 1 })

-- The route thread starts once.
abbrev routed : TunState → TunState
routed s = record s { route_threads = 1 }

abbrev pub forwarding : Platform → Bool → Bool × TunState → Bool × TunState
forwarding platform cloned (false, s) = (false, s)
forwarding linux cloned (true, s) = (cloned, routed s)
forwarding macos cloned (true, s) = (cloned, s)

abbrev pub on_cached : SpawnInput → Option Bool → TunState → Bool × TunState
on_cached i (some b) s = forwarding macos i.are_cloned (b, s)
on_cached i none s = elim i.peer_ip [
  | none ↦ (false, s)
  | some peer_ip ↦ forwarding macos i.are_cloned (get_or_init_if none (i.device peer_ip) s)
]

abbrev pub spawn_on : Platform → SpawnInput → TunState → Bool × TunState
spawn_on linux i s = forwarding linux i.are_cloned (get_or_init_if s.memo (i.device []) s)
spawn_on macos i s = on_cached i s.memo s

-- Whether the session is bridged.
unfoldable pub spawn_tun_bridge : Platform → SpawnInput → TunState → Bool × TunState
spawn_tun_bridge platform i s = if is_empty i.local_ip then (false, s) else spawn_on platform i s

-- The bridges of one session after the other.
unfoldable pub spawn_all : Platform → List SpawnInput → TunState → List Bool × TunState
spawn_all platform [] s = ([], s)
spawn_all platform (i ∷ is) s =
    let (bridged, t) = spawn_tun_bridge platform i s in
    let (rest, u) = spawn_all platform is t in (bridged ∷ rest, u)
