-- ===== src/Agent/HostRegistry.antt =====
-- `HostPeerRegistry` of src/host_registry.rs: the devices that a host has invited. The JSON library is a
-- parameter. What the system does with the file is an argument: `none` if every call succeeds, or the
-- error of the first one that fails, all of them before the rename.
pub mod Candidates
pub mod Addresses
pub mod Persistence
mod Tests
use localscale.Prelude.{
  ℕ, zero, suc, ◌+◌, ◌≡◌, Bool, true, false, not, ◌&&◌, Option, none, some, List, [], ◌∷◌, ◌++◌,
  Bytes, codes, length, bytes_eq, strip_prefix, ◌==◌, if◌then◌else◌, Result, ok, err, all, filter,
}
use localscale.Codec.Decimal.{decimal, parse_u8}
use localscale.Protocol.Syntax.{is_empty}
use localscale.Transport.Action.{IoError, not_found}

pub record HostPeerEntry : Type 0 where
  pub invitation_id : Bytes
  pub node_id : Option Bytes
  pub invitation_secret : Bytes
  pub virtual_ip : Bytes
  pub revoked : Bool
  pub created_unix : ℕ

-- `serde_json` on the list of entries.
pub record Json : Type 0 where
  pub to_string : List HostPeerEntry → Option Bytes
  pub from_str : Bytes → Option (List HostPeerEntry)

-- The registry with the contents of its file.
pub record HostPeerRegistry : Type 0 where
  pub entries : List HostPeerEntry
  pub file : Option Bytes

abbrev or_default : Option (List HostPeerEntry) → List HostPeerEntry
or_default none = []
or_default (some es) = es

-- Whether `entry.node_id` is this id.
abbrev pub is_bound_to : Bytes → Option Bytes → Bool
is_bound_to id none = false
is_bound_to id (some n) = bytes_eq n id

abbrev pub is_none : Option Bytes → Bool
is_none none = true
is_none (some n) = false

abbrev pub starts_with : Bytes → Bytes → Bool
starts_with prefix s = elim (strip_prefix prefix s) [ none ↦ false | some r ↦ true ]

-- Whether `bind` changes the entry.
abbrev pub is_pending_for : Bytes → HostPeerEntry → Bool
is_pending_for invitation_id e = bytes_eq e.invitation_id invitation_id && is_none e.node_id

pub bind_entries : Bytes → Bytes → List HostPeerEntry → List HostPeerEntry
bind_entries invitation_id node [] = []
bind_entries invitation_id node (e ∷ es) =
    let rest = bind_entries invitation_id node es in
    (if is_pending_for invitation_id e then record e { node_id = some node } else e) ∷ rest

-- Whether `id` is the display form of a pending entry.
abbrev names_pending : Option Bytes → HostPeerEntry → Bool
names_pending none e = false
names_pending (some prefix) e = not (is_empty prefix) && starts_with prefix e.invitation_id

abbrev pub is_kept : Bytes → HostPeerEntry → Bool
is_kept id e =
    not (is_bound_to id e.node_id)
    && not (is_none e.node_id && names_pending (strip_prefix (codes "convite-pendente-") id) e)

module _ (json : Json) where
  -- `open`, with what reading the file returned.
  unfoldable pub open_registry : Result IoError Bytes → Result IoError (List HostPeerEntry)
  open_registry (ok body) = ok (or_default (json.from_str body))
  open_registry (err not_found) = ok []
  open_registry (err e) = err e

  -- `persist`; an error of the serializer is reported as invalid data.
  abbrev write_file :
      Option IoError
      → Option Bytes
      → HostPeerRegistry
      → Result IoError (Unit {0}) × HostPeerRegistry
  write_file none (some body) r = (ok tt, record r { file = some body })
  write_file none none r = (err IoError.other, r)
  write_file (some e) body r = (err e, r)

  unfoldable pub persist :
      Option IoError → HostPeerRegistry → Result IoError (Unit {0}) × HostPeerRegistry
  persist fault r = write_file fault (json.to_string r.entries) r

  unfoldable pub add_pending :
      Option IoError
      → Bytes
      → Bytes
      → Bytes
      → ℕ
      → HostPeerRegistry
      → Result IoError (Unit {0}) × HostPeerRegistry
  add_pending fault invitation_id secret virtual_ip created r =
      let entry : HostPeerEntry = record {
        invitation_id = invitation_id;
        node_id = none;
        invitation_secret = secret;
        virtual_ip = virtual_ip;
        revoked = false;
        created_unix = created;
      } in
      persist fault (record r { entries = r.entries ++ entry ∷ [] })

  unfoldable pub bind :
      Option IoError
      → Bytes
      → Bytes
      → HostPeerRegistry
      → Result IoError (Unit {0}) × HostPeerRegistry
  bind fault invitation_id node r =
      if all (λ e. not (is_pending_for invitation_id e)) r.entries
      then (ok tt, r)
      else persist fault (record r { entries = bind_entries invitation_id node r.entries })

  unfoldable pub remove :
      Option IoError → Bytes → HostPeerRegistry → Result IoError (Unit {0}) × HostPeerRegistry
  remove fault id r =
      let kept = filter (is_kept id) r.entries in
      if length kept == length r.entries
      then (ok tt, record r { entries = kept })
      else persist fault (record r { entries = kept })

-- `find`
abbrev pub find : (HostPeerEntry → Bool) → List HostPeerEntry → Option HostPeerEntry
find p [] = none
find p (e ∷ es) = let rest = find p es in if p e then some e else rest

abbrev pub pair_of : HostPeerEntry → Bytes × Bytes
pair_of e = (e.invitation_id, e.invitation_secret)

abbrev pub pairs : List HostPeerEntry → List (Bytes × Bytes)
pairs [] = []
pairs (e ∷ es) = pair_of e ∷ pairs es

abbrev pub is_match : Bytes → HostPeerEntry → Bool
is_match claimed e = is_bound_to claimed e.node_id && not e.revoked

abbrev pub is_pending : HostPeerEntry → Bool
is_pending e = is_none e.node_id && not e.revoked

abbrev pub exact_or : Option HostPeerEntry → List HostPeerEntry → List (Bytes × Bytes)
exact_or (some e) es = pair_of e ∷ []
exact_or none es = pairs (filter is_pending es)

unfoldable pub candidates_for : List HostPeerEntry → Bytes → List (Bytes × Bytes)
candidates_for es claimed = exact_or (find (is_match claimed) es) es

-- `virtual_ip.rsplit('.').next()`: what stands behind the last dot.
abbrev has_dot : Bytes → Bool
has_dot s = not (all (λ c. not (c == b'.')) s)

pub last_octet : Bytes → Bytes
last_octet [] = []
last_octet (c ∷ s) =
    let rest = last_octet s in if has_dot s then rest else if c == b'.' then s else c ∷ s

abbrev pub is_octet : ℕ → Option ℕ → Bool
is_octet n none = false
is_octet n (some m) = m == n

-- Whether an entry uses this last octet.
pub is_used : List HostPeerEntry → ℕ → Bool
is_used [] n = false
is_used (e ∷ es) n =
    let rest = is_used es n in
    if is_octet n (parse_u8 (last_octet e.virtual_ip)) then true else rest

-- The loop over the candidates from `n` on, at most `left` of them.
pub first_free : List HostPeerEntry → ℕ → ℕ → ℕ
first_free es zero n = 254
first_free es (suc left) n =
    let rest = first_free es left (n + 1) in if is_used es n then rest else n

pub next_free_virtual_ip : List HostPeerEntry → Bytes → Bytes
next_free_virtual_ip es network_prefix = network_prefix ++ b'.' ∷ decimal (first_free es 253 2)
