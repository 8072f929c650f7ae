-- ===== src/Agent/Tun.antt =====
-- The TUN devices of src/tun_linux.rs and src/tun_macos.rs. What the kernel and the tools of the system return
-- is an argument.
pub mod Names
pub mod Spawn
pub mod Bridge
mod Tests
use localscale.Prelude.{
  ℕ, zero, suc, ◌+◌, ◌*◌, ◌-◌, ◌/◌, ◌%◌, ◌^◌, ◌==◌, Bool, true, false, not, Option, none, some,
  List, [], ◌∷◌, ◌++◌, Bytes, codes, length, take, drop, replicate, leb, ltb, if◌then◌else◌, Result,
  ok, err, ◌>>=◌, ◌>>◌, ensure,
}
use localscale.Transport.Action.{IoError, other}

-- The platforms that have a device.
pub data Platform : Type 0 where
  linux macos : Platform

abbrev pub ifnamsiz : ℕ
ifnamsiz = 16

-- The bytes in front of the first zero byte.
unfoldable pub until_zero : Bytes → Bytes
until_zero [] = []
until_zero (c ∷ s) = let rest = until_zero s in if c == 0 then [] else c ∷ rest

-- `interface_name_from`, and the name that `read_interface_name` takes from its buffer; the conversion to text is a
-- parameter.
unfoldable pub interface_name_from : (Bytes → Bytes) → Bytes → Bytes
interface_name_from lossy raw = lossy (until_zero raw)

pub record IfReq : Type 0 where
  pub ifr_name : Bytes
  pub ifr_flags : ℕ

-- `IFF_TUN | IFF_NO_PI`
abbrev pub tun_flags : ℕ
tun_flags = 0x0001 + 0x1000

-- The request of `TunDevice::create` on Linux; the device file is open by then.
unfoldable pub request : Bytes → Result IoError IfReq
request name =
    if leb ifnamsiz (length name)
    then err other
    else ok
        (record { ifr_name = name ++ replicate (ifnamsiz - length name) 0; ifr_flags = tun_flags })

-- `TunDevice::create` on Linux: the name of the interface, from whether the device file opens and the buffer that the
-- kernel leaves.
unfoldable pub create_linux :
    (Bytes → Bytes)
    → Result IoError (Unit {0})
    → Bytes
    → (IfReq → Result IoError Bytes)
    → Result IoError Bytes
create_linux lossy opened name ioctl = do
  opened
  ifr ← request name
  raw ← ioctl ifr
  ok (interface_name_from lossy raw)

-- A tool of the system, which takes its arguments.
abbrev pub Tool : Type 0
Tool = List Bytes → Result IoError (Unit {0})

-- `configure_address` and `route_to_peer` on Linux, by the tool `ip`.
unfoldable pub configure_address_linux : Tool → Bytes → Bytes → Result IoError (Unit {0})
configure_address_linux run_ip name cidr = do
  run_ip (codes "addr" ∷ codes "add" ∷ cidr ∷ codes "dev" ∷ name ∷ [])
  run_ip (codes "link" ∷ codes "set" ∷ codes "dev" ∷ name ∷ codes "up" ∷ [])

unfoldable pub route_to_peer : Tool → Bytes → Bytes → Result IoError (Unit {0})
route_to_peer run_ip name peer_ip =
    run_ip (codes "route" ∷ codes "replace" ∷ peer_ip ∷ codes "dev" ∷ name ∷ [])

-- `configure_address` on macOS, by the tool `ifconfig`.
unfoldable pub configure_address_macos : Tool → Bytes → Bytes → Bytes → Result IoError (Unit {0})
configure_address_macos run_ifconfig name ip peer_ip =
    run_ifconfig (name ∷ ip ∷ peer_ip ∷ codes "up" ∷ [])

pub record CapUserData : Type 0 where
  pub effective : ℕ
  pub permitted : ℕ
  pub inheritable : ℕ

abbrev pub cap_net_admin : ℕ
cap_net_admin = 12

-- `mask |= 1 << bit`
abbrev pub with_bit : ℕ → ℕ → ℕ
with_bit bit mask = if mask / 2 ^ bit % 2 == 1 then mask else mask + 2 ^ bit

-- What `ensure_net_admin_ambient` hands to `capset`.
unfoldable pub with_net_admin : CapUserData → CapUserData
with_net_admin d = record d { inheritable = with_bit cap_net_admin d.inheritable }

-- What opening a `utun` socket returned: the result of each system call.
pub record UtunCalls : Type 0 where
  pub socket : Result IoError (Unit {0})
  pub get_info : Result IoError (Unit {0})
  pub connect_control : Result IoError (Unit {0})
  pub get_name : Result IoError Bytes

-- A call behind which the descriptor is closed if it fails.
abbrev closing_on_error {ℓ} :
    {A : Type ℓ} → Result IoError (Unit {0}) → Result IoError A × ℕ → Result IoError A × ℕ
closing_on_error (err e) rest = (err e, 0)
closing_on_error (ok u) rest = rest

-- `TunDevice::create` on macOS, with the number of descriptors that are open behind it.
unfoldable pub create_macos : (Bytes → Bytes) → UtunCalls → Result IoError Bytes × ℕ
create_macos lossy c = closing_on_error c.socket (
    closing_on_error c.get_info (
      closing_on_error c.connect_control
        ((do raw ← c.get_name; ok (interface_name_from lossy raw)), 1)))

abbrev pub af_inet_header : Bytes
af_inet_header = 0 ∷ 0 ∷ 0 ∷ 2 ∷ []

-- `TunHandle::read_packet` on what `read` returned.
unfoldable pub read_packet : Result IoError Bytes → Result IoError Bytes
read_packet framed = do bytes ← framed; if ltb (length bytes) 4 then ok [] else ok (drop 4 bytes)

-- What `TunHandle::write_packet` hands to `write`.
unfoldable pub framed_packet : Bytes → Bytes
framed_packet packet = af_inet_header ++ packet
