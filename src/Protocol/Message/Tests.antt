-- ===== src/Protocol/Message/Tests.antt =====
-- Runs of the message parser, and its theorems at concrete messages.
use localscale.Prelude.{◌≡◌, refl, arith, codes, ok, err, bytes_eq, strip_prefix}
use localscale.Codec.Utf8.{is_utf8}
use localscale.Codec.Fields.{split}
use localscale.Codec.Decimal.{parse_u64, parse_u16, parse_u8}
use localscale.Protocol.Syntax.{valid_node_id, valid_nonce}
use localscale.Protocol.Message.{
  Message, handshake_init, keepalive, parse_message, encode_message, validate_syntax, parse_version,
  parse_body, parse_timestamp, checked, IsValid, unsupported_version, invalid_mtu,
}
use localscale.Protocol.Message.RoundTrip.{parse_message-encode_message}
use localscale.Protocol.Message.Sound.{parse_message-IsValid}

abbrev hello : Message
hello = handshake_init (codes "laptop-1") 1700000000 (codes "00112233445566778899aabbccddeeff")

hello-IsValid : IsValid hello
unfolding valid_node_id valid_nonce
hello-IsValid = (refl, (omega arith, refl))

parse_message-encode_message_example : parse_message (encode_message hello) ≡ ok hello
parse_message-encode_message_example = parse_message-encode_message hello hello-IsValid

-- A sign and leading zeros are read like the plain number.
lenient_numbers : parse_message (codes "v+01|keepalive|a|+007") ≡ ok (keepalive (codes "a") 7)
unfolding parse_message parse_version parse_body parse_timestamp checked validate_syntax is_utf8
    split strip_prefix bytes_eq parse_u8 parse_u64 valid_node_id
lenient_numbers = refl

other_version : parse_message (codes "v2|keepalive|a|7") ≡ err (unsupported_version 2)
unfolding parse_message parse_version is_utf8 split strip_prefix parse_u8
other_version = refl

small_mtu : parse_message (codes "v1|mtu|a|575") ≡ err invalid_mtu
unfolding parse_message parse_version parse_body checked validate_syntax is_utf8 split strip_prefix
    bytes_eq parse_u8 parse_u16 valid_node_id
small_mtu = refl

parse_message-IsValid_example : IsValid (keepalive (codes "a") 7)
parse_message-IsValid_example =
    parse_message-IsValid (codes "v+01|keepalive|a|+007") (keepalive (codes "a") 7) lenient_numbers
