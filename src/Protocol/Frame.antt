-- ===== src/Protocol/Frame.antt =====
-- `encode_frame` and `decode_frame` of agent/protocol/src/lib.rs, on a target whose `usize` has 64
-- bits.
mod Tests
use localscale.Prelude.{
  ℕ, ◌+◌, ◌*◌, ◌-◌, ◌^◌, ◌≤◌, ◌≡◌, ◌∷◌, [], ◌++◌, arith, Bytes, IsByte, All, length, take, drop,
  ltb, ◌==◌, not, if◌then◌else◌, Result, ok, err, take_all,
}
use localscale.Codec.Endian.{be_u32, from_be, from_be-be_u32, be_u32-from_be}

abbrev pub max_frame_size : ℕ
max_frame_size = 64 * 1024

pub data FrameError : Type 0 where
  incomplete too_large trailing_bytes length_overflow : FrameError

pub encode_frame : Bytes → Result FrameError Bytes
encode_frame payload =
    if ltb max_frame_size (length payload)
    then err too_large
    else if ltb (2 ^ 32 - 1) (length payload)
    then err length_overflow
    else ok (be_u32 (length payload) ++ payload)

-- The checks of `decode_frame` behind the length word.
decode_body : Bytes → ℕ → Result FrameError Bytes
decode_body frame len =
    if ltb max_frame_size len
    then err too_large
    else if ltb (2 ^ 64 - 1) (4 + len)
    then err length_overflow
    else if ltb (length frame) (4 + len)
    then err incomplete
    else if not (length frame == 4 + len)
    then err trailing_bytes
    else ok (take (4 + len - 4) (drop 4 frame))

pub decode_frame : Bytes → Result FrameError Bytes
unfolding decode_body
decode_frame frame =
    if ltb (length frame) 4 then err incomplete else decode_body frame (from_be (take 4 frame))

-- A payload is framed exactly when it is at most 64 KiB; `LengthOverflow` is never reported.
pub encode_frame_lem :
    (p : Bytes)
    → encode_frame p
      ≡ (if ltb max_frame_size (length p) then err too_large else ok (be_u32 (length p) ++ p))
unfolding encode_frame
encode_frame_lem p = ground arith

-- The behaviour of decoding behind a well-formed length word, for any number of bytes received.
pub decode_frame_received :
    (len : ℕ) (rest : Bytes)
    → len ≤ max_frame_size
    → decode_frame (be_u32 len ++ rest) ≡ (
        if ltb (length rest) len
        then err incomplete
        else if length rest == len
        then ok rest
        else err trailing_bytes)
unfolding decode_frame
decode_frame_received len rest h =
    let word : from_be (be_u32 len) ≡ len = from_be-be_u32 len (omega arith) in
    rw word (ground (arith, take_all len rest))

-- A frame that was encoded is decoded to its payload.
pub decode_frame-encode_frame : (p f : Bytes) → encode_frame p ≡ ok f → decode_frame f ≡ ok p
decode_frame-encode_frame p f h =
    ground (arith, encode_frame_lem p, decode_frame_received (length p) p)

-- What decoding accepts is the encoding of what it returns.
pub encode_frame-decode_frame :
    (f p : Bytes) → All IsByte f → decode_frame f ≡ ok p → encode_frame p ≡ ok f
unfolding decode_frame encode_frame
encode_frame-decode_frame [] p bytes h = cc
encode_frame-decode_frame (a ∷ []) p bytes h = cc
encode_frame-decode_frame (a ∷ b ∷ []) p bytes h = cc
encode_frame-decode_frame (a ∷ b ∷ c ∷ []) p bytes h = cc
encode_frame-decode_frame (a ∷ b ∷ c ∷ d ∷ s) p bytes h =
    ground (arith, be_u32-from_be a b c d, take_all (from_be (a ∷ b ∷ c ∷ d ∷ [])) s)
