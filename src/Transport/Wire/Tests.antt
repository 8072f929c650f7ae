-- ===== src/Transport/Wire/Tests.antt =====
-- Frames written to a stream and read from one, and frames that arrive in part.
use localscale.Prelude.{◌≡◌, refl, none, ◌++◌, List, [], ◌∷◌, arith, Bytes, codes, ok}
use localscale.Transport.Action.{unexpected_eof}
use localscale.Transport.Wire.{Stream}
use localscale.Transport.Wire.Frames.{read_frames, write_frames, read_frames-write_frames}

abbrev idle : Stream
idle = record {
  incoming = [];
  ending = unexpected_eof;
  outgoing = [];
  write_fault = none;
  deadline_fault = none;
}

abbrev payloads : List Bytes
payloads = codes "one" ∷ [] ∷ codes "three" ∷ []

read_frames-write_frames_example :
    read_frames 3
      (record idle { incoming = (write_frames payloads idle).1.outgoing ++ codes "rest" })
    ≡ (ok payloads, record idle { incoming = codes "rest" })
read_frames-write_frames_example =
    read_frames-write_frames payloads (codes "rest") idle idle (omega arith) refl refl
