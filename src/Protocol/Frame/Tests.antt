-- ===== src/Protocol/Frame/Tests.antt =====
-- Runs of the frame codec, and its theorems at concrete frames.
use localscale.Prelude.{◌≡◌, refl, [], ◌∷◌, Bytes, codes, ok, err}
use localscale.Protocol.Frame.{incomplete, trailing_bytes, encode_frame, decode_frame, too_large}

abbrev hello : Bytes
hello = codes "hello"

abbrev hello_frame : Bytes
hello_frame = 0 ∷ 0 ∷ 0 ∷ 5 ∷ hello

hello_encoded : encode_frame hello ≡ ok hello_frame
unfolding encode_frame
hello_encoded = refl

cut_frame : decode_frame (0 ∷ 0 ∷ 0 ∷ 5 ∷ codes "hell") ≡ err incomplete
unfolding decode_frame
cut_frame = refl

long_frame : decode_frame (0 ∷ 0 ∷ 0 ∷ 1 ∷ codes "hi") ≡ err trailing_bytes
unfolding decode_frame
long_frame = refl

huge_length : decode_frame (255 ∷ 255 ∷ 255 ∷ 255 ∷ []) ≡ err too_large
unfolding decode_frame
huge_length = refl
