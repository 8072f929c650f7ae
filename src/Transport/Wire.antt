-- ===== src/Transport/Wire.antt =====
-- `write_frame`, `read_frame` and `set_deadline` of agent/protocol/agent/transport/src/lib.rs over a
-- TCP stream: the bytes that will arrive and the error behind them, the bytes written, and the faults
-- that the system reports for a write and for setting a timeout.
pub mod Frames
mod Tests
use localscale.Prelude.{
  ℕ, ◌-◌, ◌+◌, ◌≡◌, Bool, Option, none, some, ◌++◌, Bytes, length, take, drop, ltb, if◌then◌else◌,
  Result, ok, err, map_err, [],
}
use localscale.Codec.Endian.{from_be}
use localscale.Protocol.Frame.{FrameError, max_frame_size, encode_frame, decode_frame}
use localscale.Transport.Action.{
  IoError, TransportError, from_io, frame, Action, ◌>>=◌, ◌>>◌, lift, require, pure,
}

pub record Stream : Type 0 where
  pub incoming : Bytes
  pub ending : IoError
  pub outgoing : Bytes
  pub write_fault : Option IoError
  pub deadline_fault : Option IoError

-- `stream.read_exact` into a buffer of `n` bytes.
pub read_exact : ℕ → Action Stream Bytes
read_exact n s =
    if ltb (length s.incoming) n
    then (err (from_io s.ending), record s { incoming = [] })
    else (ok (take n s.incoming), record s { incoming = drop n s.incoming })

abbrev written : Option IoError → Bytes → Stream → Result TransportError (Unit {0}) × Stream
written none b s = (ok tt, record s { outgoing = s.outgoing ++ b })
written (some e) b s = (err (from_io e), s)

-- `stream.write_all` and `flush`; a write that fails sends nothing.
pub write_all : Bytes → Action Stream (Unit {0})
write_all b s = written s.write_fault b s

abbrev timed : Option IoError → Stream → Result TransportError (Unit {0}) × Stream
timed none s = (ok tt, s)
timed (some e) s = (err (from_io e), s)

unfoldable pub set_deadline : Action Stream (Unit {0})
set_deadline s = timed s.deadline_fault s

pub write_frame : Bytes → Action Stream (Unit {0})
write_frame payload = do bytes ← lift (map_err (λ _. frame) (encode_frame payload)); write_all bytes

-- The part of `read_frame` behind the length word.
pub receive_body : Bytes → ℕ → Action Stream Bytes
receive_body head len =
    if ltb max_frame_size len
    then lift (err frame)
    else do body ← read_exact len; lift (map_err (λ _. frame) (decode_frame (head ++ body)))

pub read_frame : Action Stream Bytes
read_frame = do head ← read_exact 4; receive_body head (from_be head)
