-- ===== src/Agent/Envelopes.antt =====
-- The envelope of an invitation in src/lib.rs: `decode_invitation` and its checks.
use localscale.Prelude.{
  ℕ, ◌+◌, ◌-◌, min, Bool, true, false, not, ◌&&◌, ◌||◌, Option, none, some, ◌++◌, Bytes, codes,
  length, all, ltb, leb, ◌==◌, if◌then◌else◌, strip_prefix, Result, ok, err, ◌>>=◌, ◌>>◌, ok_or,
  ensure,
}
use localscale.Codec.Decimal.{u64_max}
use localscale.Protocol.Invitation.{new_invitation}
use localscale.Agent.State.{Libraries, InvitationEnvelope}

abbrev pub invitation_prefix : Bytes
invitation_prefix = codes "lsinv1."

abbrev pub max_ttl_secs : ℕ
max_ttl_secs = 86400

abbrev pub max_clock_skew_secs : ℕ
max_clock_skew_secs = 60

-- `is_ascii_alphanumeric`, `-` and `_`.
abbrev pub is_id_byte : ℕ → Bool
is_id_byte c =
    (leb b'0' c && leb c b'9')
    || (leb b'A' c && leb c b'Z')
    || (leb b'a' c && leb c b'z')
    || c == b'-'
    || c == b'_'

unfoldable pub valid_invitation_id : Bytes → Bool
valid_invitation_id v = length v == 22 && all is_id_byte v

abbrev pub is_err {ℓ κ} : {E : Type ℓ} {A : Type κ} → Result E A → Bool
is_err (ok a) = false
is_err (err e) = true

pub data DecodeError : Type 0 where
  invalid_invitation invitation_expired : DecodeError

abbrev pub is_stale : InvitationEnvelope → ℕ → Bool
is_stale e now = leb e.expires_at now

-- The conditions of the last test of `decode_invitation`.
abbrev pub is_refused : InvitationEnvelope → ℕ → Bool
is_refused e now =
    not (e.version == 1)
    || not (valid_invitation_id e.invitation_id)
    || ltb (min (now + max_clock_skew_secs) u64_max) e.issued_at
    || is_stale e now
    || leb e.expires_at e.issued_at
    || ltb max_ttl_secs (e.expires_at - e.issued_at)
    || is_err (new_invitation e.host_node_id e.onion_endpoint e.invitation_secret)

abbrev pub judged : InvitationEnvelope → ℕ → Result DecodeError InvitationEnvelope
judged e now =
    if is_refused e now
    then err (if is_stale e now then invitation_expired else invalid_invitation)
    else ok e

module _ (libraries : Libraries) where
  unfoldable pub decode_invitation : Bytes → ℕ → Result DecodeError InvitationEnvelope
  decode_invitation value now = do
    encoded ← ok_or (strip_prefix invitation_prefix value) invalid_invitation
    ensure (not (ltb 4096 (length encoded))) invalid_invitation
    json ← ok_or (libraries.base64_decode encoded) invalid_invitation
    envelope ← ok_or (libraries.envelope_from_json json) invalid_invitation
    judged envelope now

  -- The text of the invitation that an envelope becomes.
  abbrev pub encode_invitation : InvitationEnvelope → Option Bytes
  encode_invitation e = elim (libraries.envelope_to_json e) [
    | none ↦ none
    | some json ↦ some (invitation_prefix ++ libraries.base64_encode json)
  ]
