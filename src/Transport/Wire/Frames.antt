-- ===== src/Transport/Wire/Frames.antt =====
-- Frames survive the stream.
use localscale.Prelude.{
  ℕ, zero, suc, ◌^◌, ◌≤◌, ◌<◌, ◌≡◌, refl, ap, ◌∙◌, none, List, [], ◌∷◌, ◌++◌, append_assoc,
  append-nil, arith, Bytes, All, length, take, drop, length-append, length-take, take-append,
  drop-append, ltb, le→ltb, if◌then◌else◌, Result, ok, err,
}
use localscale.Codec.Endian.{be_u32, from_be, from_be-be_u32}
use localscale.Protocol.Frame.{
  max_frame_size, encode_frame, decode_frame, encode_frame_lem, decode_frame_received,
}
use localscale.Transport.Action.{
  TransportError, frame, from_io, Action, continue, ◌>>=◌, ◌>>◌, pure,
}
use localscale.Transport.Wire.{Stream, read_exact, write_all, write_frame, read_frame, receive_body}

-- The bytes of a frame.
abbrev pub framed : Bytes → Bytes
framed p = be_u32 (length p) ++ p

encode_frame-framed : (p : Bytes) → length p ≤ max_frame_size → encode_frame p ≡ ok (framed p)
encode_frame-framed p h = ground (arith, encode_frame_lem p)

pub write_frame_lem :
    (p : Bytes) (s : Stream)
    → length p ≤ max_frame_size
    → s.write_fault ≡ none
    → write_frame p s ≡ (ok tt, record s { outgoing = s.outgoing ++ framed p })
unfolding write_frame write_all
write_frame_lem p s h fault = rw (encode_frame-framed p h) (ground arith)

decode_exact :
    (n : ℕ) (body : Bytes)
    → n ≤ max_frame_size
    → length body ≡ n
    → decode_frame (be_u32 n ++ body) ≡ ok body
decode_exact n body h e = ground (arith, decode_frame_received n body)

read_head :
    (n : ℕ) (rest : Bytes) (s : Stream)
    → read_exact 4 (record s { incoming = be_u32 n ++ rest })
      ≡ (ok (be_u32 n), record s { incoming = rest })
unfolding read_exact
read_head n rest s = ground arith

read_word :
    (n : ℕ) (rest : Bytes) (s : Stream)
    → n < 2 ^ 32
    → read_frame (record s { incoming = be_u32 n ++ rest })
      ≡ receive_body (be_u32 n) n (record s { incoming = rest })
unfolding read_frame
read_word n rest s h =
    ap
      (λ (r : Result TransportError Bytes × Stream).
        continue r (λ head. receive_body head (from_be head)))
      (read_head n rest s)
    ∙ ap (λ (k : ℕ). receive_body (be_u32 n) k (record s { incoming = rest })) (from_be-be_u32 n h)

receive_body_lem :
    (n : ℕ) (rest : Bytes) (s : Stream)
    → n ≤ max_frame_size
    → receive_body (be_u32 n) n (record s { incoming = rest }) ≡ (
        if ltb (length rest) n
        then (err (from_io s.ending), record s { incoming = [] })
        else (ok (take n rest), record s { incoming = drop n rest }))
unfolding receive_body read_exact
receive_body_lem n rest s h = ground (arith, decode_exact n (take n rest), length-take n rest)

-- Behind a length word of at most 64 KiB, a read waits for all the announced bytes: with fewer it
-- reports the error that ends the stream, and otherwise it takes exactly the frame.
pub read_frame_lem :
    (n : ℕ) (rest : Bytes) (s : Stream)
    → n ≤ max_frame_size
    → read_frame (record s { incoming = be_u32 n ++ rest }) ≡ (
        if ltb (length rest) n
        then (err (from_io s.ending), record s { incoming = [] })
        else (ok (take n rest), record s { incoming = drop n rest }))
read_frame_lem n rest s h = read_word n rest s (omega arith) ∙ receive_body_lem n rest s h

pub read_frame-framed :
    (p rest : Bytes) (s : Stream)
    → length p ≤ max_frame_size
    → read_frame (record s { incoming = framed p ++ rest }) ≡ (ok p, record s { incoming = rest })
read_frame-framed p rest s h =
    read_frame_lem (length p) (p ++ rest) s h
    ∙ rw (
      le→ltb (length (p ++ rest)) (length p) (omega (arith, length-append p rest)),
      take-append p rest,
      drop-append p rest,
    )

-- A stream with nothing left reports the error that ends it.
pub read_frame_empty :
    (s : Stream)
    → read_frame (record s { incoming = [] }) ≡ (err (from_io s.ending), record s { incoming = [] })
unfolding read_frame read_exact
read_frame_empty s = refl

-- A length word above 64 KiB ends the session with a frame error; nothing behind it is read.
pub read_frame_oversized :
    (n : ℕ) (rest : Bytes) (s : Stream)
    → max_frame_size < n
    → n < 2 ^ 32
    → read_frame (record s { incoming = be_u32 n ++ rest })
      ≡ (err frame, record s { incoming = rest })
unfolding receive_body
read_frame_oversized n rest s h fits = read_word n rest s fits ∙ ground arith

pub write_frames : List Bytes → Action Stream (Unit {0})
write_frames [] = pure tt
write_frames (p ∷ ps) = write_frame p >> write_frames ps

pub read_frames : ℕ → Action Stream (List Bytes)
read_frames zero = pure []
read_frames (suc n) = do p ← read_frame; ps ← read_frames n; pure (p ∷ ps)

abbrev Fits : Bytes → Type 0
Fits p = length p ≤ max_frame_size

abbrev all_framed : List Bytes → Bytes
all_framed [] = []
all_framed (p ∷ ps) = framed p ++ all_framed ps

write_frames_lem :
    (ps : List Bytes) (s : Stream)
    → All Fits ps
    → s.write_fault ≡ none
    → write_frames ps s ≡ (ok tt, record s { outgoing = s.outgoing ++ all_framed ps })
unfolding write_frames
write_frames_lem [] s h fault = rw append-nil
write_frames_lem (p ∷ ps) s h fault = rw (write_frame_lem p s h.0 fault) (
    write_frames_lem ps (record s { outgoing = s.outgoing ++ framed p }) h.1 fault
    ∙ ap (λ (o : Bytes). (ok tt, record s { outgoing = o }))
        (append_assoc s.outgoing (framed p) (all_framed ps)))

read_frames_step :
    (n : ℕ) (s t u : Stream) (p : Bytes) (ps : List Bytes)
    → read_frame s ≡ (ok p, t)
    → read_frames n t ≡ (ok ps, u)
    → read_frames (suc n) s ≡ (ok (p ∷ ps), u)
unfolding read_frames
read_frames_step n s t u p ps e f = ground arith

read_frames_lem :
    (ps : List Bytes) (rest : Bytes) (s : Stream)
    → All Fits ps
    → read_frames (length ps) (record s { incoming = all_framed ps ++ rest })
      ≡ (ok ps, record s { incoming = rest })
read_frames_lem [] rest s h = unfold read_frames in refl
read_frames_lem (p ∷ ps) rest s h =
    ap (λ (b : Bytes). read_frames (suc (length ps)) (record s { incoming = b }))
      (append_assoc (framed p) (all_framed ps) rest)
    ∙ read_frames_step (length ps) _ _ _ p ps (read_frame-framed p (all_framed ps ++ rest) s h.0)
        (read_frames_lem ps rest s h.1)

-- Payloads of at most 64 KiB that one side writes are read by the other side one by one, in order, and
-- what arrives behind them is left to read.
pub read_frames-write_frames :
    (ps : List Bytes) (rest : Bytes) (s r : Stream)
    → All (λ p. length p ≤ max_frame_size) ps
    → s.write_fault ≡ none
    → s.outgoing ≡ []
    → read_frames (length ps) (record r { incoming = (write_frames ps s).1.outgoing ++ rest })
      ≡ (ok ps, record r { incoming = rest })
read_frames-write_frames ps rest s r fits fault start =
    rw (write_frames_lem ps s fits fault, start) (read_frames_lem ps rest r fits)
