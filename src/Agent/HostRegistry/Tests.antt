-- ===== src/Agent/HostRegistry/Tests.antt =====
-- A registry with a bound, a pending and a revoked entry.
use localscale.Prelude.{
  ℕ, ◌≡◌, ◌≢◌, refl, ◌++◌, true, false, none, some, Option, List, [], ◌∷◌, arith, Bytes, All, codes,
  strip_prefix, bytes_eq, ok, ◌≤◌,
}
use localscale.Prelude.{Bool, zero, suc, length, take, drop, take-append, drop-append, sym}
use localscale.Prelude.Options.{unwrap_or}
use localscale.Codec.Decimal.{decimal, parse_u8}
use localscale.Transport.Action.{IoError}
use localscale.Agent.HostRegistry.{
  HostPeerEntry, HostPeerRegistry, Json, bind_entries, candidates_for, pair_of, is_used, last_octet,
  next_free_virtual_ip, open_registry, remove, persist, add_pending, bind, is_none,
}
use localscale.Agent.HostRegistry.Candidates.{
  IsOffered, candidates_for_sound, candidates_for-bind_entries,
}
use localscale.Agent.HostRegistry.Addresses.{next_free_virtual_ip_unused}
use localscale.Agent.HostRegistry.Persistence.{
  Call, add, bind_to, remove_id, run, run_all, open_registry-run_all,
}

abbrev bound_entry : HostPeerEntry
bound_entry = record {
  invitation_id = codes "a";
  node_id = some (codes "laptop");
  invitation_secret = codes "key-a";
  virtual_ip = codes "10.0.0.2";
  revoked = false;
  created_unix = 1;
}

abbrev pending_entry : HostPeerEntry
pending_entry = record bound_entry {
  invitation_id = codes "b";
  node_id = none;
  invitation_secret = codes "key-b";
  virtual_ip = codes "10.0.0.3";
}

abbrev entries : List HostPeerEntry
entries = bound_entry ∷ record bound_entry { revoked = true } ∷ pending_entry ∷ []

abbrev Fresh : List HostPeerEntry → Type 0
Fresh es =
    (n : ℕ) × (2 ≤ n)
    × (n ≤ 254)
    × (next_free_virtual_ip es (codes "10.0.0") ≡ codes "10.0.0" ++ b'.' ∷ decimal n)
    × All (λ (e : HostPeerEntry). e.virtual_ip ≢ next_free_virtual_ip es (codes "10.0.0")) es

candidates_for_sound_example :
    All (IsOffered entries (codes "phone")) (candidates_for entries (codes "phone"))
candidates_for_sound_example = candidates_for_sound entries (codes "phone")

candidates_for-bind_entries_example :
    candidates_for (bind_entries (codes "b") (codes "phone") entries) (codes "phone")
    ≡ pair_of pending_entry ∷ []
unfolding bytes_eq
candidates_for-bind_entries_example =
    candidates_for-bind_entries (codes "b") (codes "phone")
      (bound_entry ∷ record bound_entry { revoked = true } ∷ []) [] pending_entry
      ((refl, refl), ((refl, refl), tt)) refl refl

free_address : is_used entries 4 ≡ false
unfolding is_used parse_u8 last_octet
free_address = refl

next_free_virtual_ip_unused_example : Fresh entries
next_free_virtual_ip_unused_example =
    next_free_virtual_ip_unused entries (codes "10.0.0") 4 (omega arith) (omega arith) free_address

-- A serializer: marks for the optional name and for a revoked entry, and a count in front of each text and of
-- the list.
unfoldable put : Bytes → Bytes → Bytes
put s rest = length s ∷ (s ++ rest)

unfoldable get : Bytes → Bytes × Bytes
get [] = ([], [])
get (n ∷ b) = (take n b, drop n b)

abbrev mark : Bool → ℕ
mark false = 0
mark true = 1

abbrev is_marked : ℕ → Bool
is_marked zero = false
is_marked (suc n) = true

unfoldable put_entry : HostPeerEntry → Bytes → Bytes
put_entry e rest =
    mark (is_none e.node_id)
    ∷ mark e.revoked
    ∷ e.created_unix
    ∷ put e.invitation_id
        (put (unwrap_or e.node_id []) (put e.invitation_secret (put e.virtual_ip rest)))

abbrev named : Bool → Bytes → Option Bytes
named true n = none
named false n = some n

unfoldable get_entry : Bytes → HostPeerEntry × Bytes
get_entry (nameless ∷ revoked ∷ created ∷ b) =
    let id = get b in
    let name = get id.1 in
    let secret = get name.1 in
    let address = get secret.1 in
    (
      record {
        invitation_id = id.0;
        node_id = named (is_marked nameless) name.0;
        invitation_secret = secret.0;
        virtual_ip = address.0;
        revoked = is_marked revoked;
        created_unix = created;
      },
      address.1,
    )
get_entry b = (pending_entry, [])

get-put : (s rest : Bytes) → get (put s rest) ≡ (s, rest)
unfolding get put
get-put s rest = rw (take-append s rest, drop-append s rest)

named_marks : (o : Option Bytes) → named (is_marked (mark (is_none o))) (unwrap_or o []) ≡ o
named_marks none = refl
named_marks (some n) = refl

is_marked-mark : (b : Bool) → is_marked (mark b) ≡ b
is_marked-mark true = refl
is_marked-mark false = refl

get_entry-put_entry : (e : HostPeerEntry) (rest : Bytes) → get_entry (put_entry e rest) ≡ (e, rest)
unfolding get_entry put_entry
get_entry-put_entry e rest = rw (
  get-put e.invitation_id
      (put (unwrap_or e.node_id []) (put e.invitation_secret (put e.virtual_ip rest))),
  get-put (unwrap_or e.node_id []) (put e.invitation_secret (put e.virtual_ip rest)),
  get-put e.invitation_secret (put e.virtual_ip rest),
  get-put e.virtual_ip rest,
  named_marks e.node_id,
  is_marked-mark e.revoked,
)

abbrev put_entries : List HostPeerEntry → Bytes
put_entries [] = []
put_entries (e ∷ es) = put_entry e (put_entries es)

abbrev get_entries : ℕ → Bytes → List HostPeerEntry
get_entries zero b = []
get_entries (suc n) b = let first = get_entry b in first.0 ∷ get_entries n first.1

get_entries-put_entries : (es : List HostPeerEntry) → get_entries (length es) (put_entries es) ≡ es
get_entries-put_entries [] = refl
get_entries-put_entries (e ∷ es) =
    rw (get_entry-put_entry e (put_entries es), get_entries-put_entries es)

abbrev read_counted : Bytes → Option (List HostPeerEntry)
read_counted [] = none
read_counted (n ∷ b) = some (get_entries n b)

abbrev counted : Json
counted = record { to_string = λ es. some (length es ∷ put_entries es); from_str = read_counted }

counted_law :
    (es : List HostPeerEntry) (b : Bytes)
    → counted.to_string es ≡ some b
    → counted.from_str b ≡ some es
counted_law es b h =
    let written : length es ∷ put_entries es ≡ b = cc in
    rw (sym written, get_entries-put_entries es)

-- The file holds the three entries; a device is invited, bound to its name, and another one removed.
abbrev saved : HostPeerRegistry
saved = record { entries = entries; file = counted.to_string entries }

abbrev calls : List (Option IoError × Call)
calls =
    (none, add (codes "c") (codes "key-c") (codes "10.0.0.4") 2)
    ∷ (none, bind_to (codes "c") (codes "phone"))
    ∷ (none, remove_id (codes "convite-pendente-b"))
    ∷ []

-- What the calls leave.
abbrev left : List HostPeerEntry
left =
    bound_entry
    ∷ record bound_entry { revoked = true }
    ∷ record bound_entry {
      invitation_id = codes "c";
      node_id = some (codes "phone");
      invitation_secret = codes "key-c";
      virtual_ip = codes "10.0.0.4";
      created_unix = 2;
    }
    ∷ []

open_registry-run_all_example :
    open_registry counted (ok (length left ∷ put_entries left))
    ≡ ok (run_all counted saved calls).entries
unfolding run run_all add_pending bind remove persist bind_entries bytes_eq strip_prefix
open_registry-run_all_example =
    open_registry-run_all counted counted_law saved calls (length left ∷ put_entries left) refl
      (refl, (refl, (refl, tt))) refl
