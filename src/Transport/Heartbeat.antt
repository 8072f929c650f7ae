-- ===== src/Transport/Heartbeat.antt =====
-- `heartbeat_frame`, `parse_heartbeat` and the ping and pong checks of
-- agent/protocol/agent/transport/src/lib.rs.
pub mod RoundTrip
use localscale.Prelude.{
  ℕ, ◌-◌, ◌≤◌, ◌≡◌, Bool, true, false, not, ◌&&◌, ◌||◌, Option, none, some, List, [], ◌∷◌, ◌++◌,
  Bytes, codes, bytes_eq, ltb, ◌==◌, if◌then◌else◌, Result, ok, err, ◌>>=◌, ◌>>◌, ensure,
}
use localscale.Codec.Utf8.{is_utf8}
use localscale.Codec.Fields.{split}
use localscale.Codec.Decimal.{decimal, parse_u64}
use localscale.Protocol.Message.{version}
use localscale.Protocol.Validate.{abs_diff}
use localscale.Transport.Action.{TransportError, protocol}

unfoldable pub heartbeat_frame : Bytes → Bytes → ℕ → ℕ → Bytes → Bytes
heartbeat_frame kind node timestamp sequence virtual_ip =
    codes "v"
    ++ (decimal version
        ++ (codes "|"
            ++ (kind
                ++ (codes "|"
                    ++ (node
                        ++ (codes "|"
                            ++ (decimal timestamp
                                ++ (codes "|"
                                    ++ (decimal sequence ++ (codes "|" ++ virtual_ip))))))))))

-- The six fields of an accepted heartbeat; `next()` on a row that is too short or too long refuses.
abbrev fresh : ℕ → Option ℕ → Option ℕ → Bytes → Result TransportError (ℕ × Bytes)
fresh now none sequence virtual_ip = err (protocol "invalid heartbeat")
fresh now (some timestamp) none virtual_ip = err (protocol "invalid heartbeat")
fresh now (some timestamp) (some sequence) virtual_ip =
    if ltb 30 (abs_diff now timestamp)
    then err (protocol "stale heartbeat")
    else ok (sequence, virtual_ip)

pub parse_fields : List Bytes → Bytes → Bytes → ℕ → Result TransportError (ℕ × Bytes)
parse_fields (v ∷ k ∷ n ∷ t ∷ q ∷ virtual_ip ∷ []) kind node now =
    if bytes_eq v (codes "v" ++ decimal version) && bytes_eq k kind && bytes_eq n node
    then fresh now (parse_u64 t) (parse_u64 q) virtual_ip
    else err (protocol "invalid heartbeat")
parse_fields _ kind node now = err (protocol "invalid heartbeat")

pub parse_heartbeat : Bytes → Bytes → Bytes → ℕ → Result TransportError (ℕ × Bytes)
parse_heartbeat payload kind node now =
    if not (is_utf8 payload)
    then err (protocol "invalid heartbeat encoding")
    else parse_fields (split b'|' payload) kind node now

-- `receive_ping` and `receive_pong` on the payload that arrived.
unfoldable pub receive_ping : Bytes → Bytes → ℕ → Result TransportError (ℕ × Bytes)
receive_ping payload peer now = parse_heartbeat payload (codes "ping") peer now

abbrev acknowledged : ℕ → ℕ × Bytes → Result TransportError Bytes
acknowledged expected (sequence, virtual_ip) =
    if sequence == expected then ok virtual_ip else err (protocol "unexpected pong sequence")

pub receive_pong : Bytes → Bytes → ℕ → ℕ → Result TransportError Bytes
receive_pong payload peer expected now = do
  r ← parse_heartbeat payload (codes "pong") peer now
  acknowledged expected r
