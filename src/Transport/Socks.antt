-- ===== src/Transport/Socks.antt =====
-- `connect_socks` of agent/protocol/agent/transport/src/lib.rs, on the stream that
-- `TcpStream::connect_timeout` returned.
use localscale.Prelude.{
  ℕ, ◌+◌, ◌%◌, not, [], ◌∷◌, Bytes, bytes_eq, length, get_or, ltb, ◌==◌, if◌then◌else◌, err,
}
use localscale.Codec.Endian.{be_u16}
use localscale.Transport.Action.{
  protocol, invalid_endpoint, Action, ◌>>=◌, ◌>>◌, lift, pure, require,
}
use localscale.Transport.Wire.{Stream, read_exact, write_all, set_deadline}

-- The length of the bound address in the reply, for its type.
address_length : ℕ → Action Stream ℕ
address_length kind =
    if kind == 1
    then pure 4
    else if kind == 3
    then (do n ← read_exact 1; pure (get_or n 0 0))
    else if kind == 4
    then pure 16
    else lift (err (protocol "invalid SOCKS5 address type"))

-- The reply to the CONNECT request: its status, its address and its port.
pub read_reply : Action Stream (Unit {0})
read_reply = do
  h ← read_exact 4
  require (get_or h 1 0 == 0) (protocol "SOCKS5 connection rejected")
  skip ← address_length (get_or h 3 0)
  tail ← read_exact (skip + 2)
  pure tt

pub connect_socks : Bytes → ℕ → Action Stream (Unit {0})
connect_socks host port = do
  set_deadline
  write_all (5 ∷ 1 ∷ 0 ∷ [])
  r ← read_exact 2
  require (bytes_eq r (5 ∷ 0 ∷ [])) (protocol "SOCKS5 authentication unavailable")
  require (not (ltb 255 (length host))) invalid_endpoint
  write_all (5 ∷ 1 ∷ 0 ∷ 3 ∷ (length host % 256) ∷ [])
  write_all host
  write_all (be_u16 port)
  read_reply
