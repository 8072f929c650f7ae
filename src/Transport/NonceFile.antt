-- ===== src/Transport/NonceFile.antt =====
-- `FileNonceAllocator` of agent/protocol/agent/transport/src/lib.rs, on the one file that holds its
-- counter. What the system does is an argument of each call: whether the lock is given, whether the file
-- can be read, the random bytes that are drawn, and how far writing the new file comes.
pub mod Increase
mod Tests
use localscale.Prelude.{
  ℕ, ◌+◌, ◌%◌, ◌≡◌, Bool, true, false, not, Option, none, some, List, [], ◌∷◌, Bytes, bytes_eq,
  length, replicate, ◌==◌, if◌then◌else◌,
}
use localscale.Transport.Action.{IoError, not_found, TransportError, from_io, protocol}
use localscale.Prelude.{Result, ok, err}
use localscale.Codec.Hex.{hex, Decoded, decoded, invalid, panicked, decode_pairs}
use localscale.Codec.Trim.{trim}
use localscale.Protocol.Envelope.{CryptoError, nonce_reuse}

-- How far `persist` comes: before the rename the old file stays, behind it the new one is there, but the
-- folder may fail to sync.
pub data Persisted : Type 0 where
  done failed_before_rename failed_after_rename : Persisted

pub record Environment : Type 0 where
  pub is_locked : Bool
  pub is_readable : Bool
  pub random : Bytes
  pub persisted : Persisted

-- The file, if it is there, and `next`.
pub record FileNonceAllocator : Type 0 where
  pub file : Option Bytes
  pub next : Bytes

pub decode_nonce : Bytes → Decoded
decode_nonce text = if not (length text == 48) then invalid else decode_pairs text

abbrev opened : Decoded → Option (Result TransportError Bytes)
opened (decoded n) = some (ok n)
opened invalid = some (err (protocol "invalid nonce state"))
opened panicked = none

-- The `next` of `open`, from the error of creating the folder, what reading returned, and random bytes;
-- `none` is a panic.
pub open_next : Option IoError → Result IoError Bytes → Bytes → Option (Result TransportError Bytes)
open_next (some e) text random = some (err (from_io e))
open_next none (ok text) random = opened (decode_nonce (trim text))
open_next none (err not_found) random = some (ok random)
open_next none (err e) random = some (err (from_io e))

-- The loop that adds one from the last byte on, with the carry that is left.
unfoldable pub increment : Bytes → Bytes × Bool
increment [] = ([], true)
increment (b ∷ bs) =
    let (r, carry) = increment bs in
    if carry then ((b + 1) % 256 ∷ r, (b + 1) % 256 == 0) else (b ∷ r, false)

pub data Outcome : Type 0 where
  allocated : Bytes → Outcome
  refused : CryptoError → Outcome
  thread_panicked : Outcome

-- `persist`, and what `allocate` does behind it.
abbrev persist_next : Persisted → Bytes → Bytes → FileNonceAllocator → Outcome × FileNonceAllocator
persist_next done nonce following a =
    (allocated nonce, record { file = some (hex following); next = following })
persist_next failed_before_rename nonce following a = (refused nonce_reuse, a)
persist_next failed_after_rename nonce following a =
    (refused nonce_reuse, record a { file = some (hex following) })

-- `allocate` behind the nonce that was read or drawn.
pub advance : Persisted → Bytes → FileNonceAllocator → Outcome × FileNonceAllocator
advance persisted nonce a =
    let following = (increment nonce).0 in
    if bytes_eq following (replicate 24 0)
    then (refused nonce_reuse, a)
    else persist_next persisted nonce following a

abbrev from_text : Decoded → Persisted → FileNonceAllocator → Outcome × FileNonceAllocator
from_text (decoded nonce) p a = advance p nonce a
from_text invalid p a = (refused nonce_reuse, a)
from_text panicked p a = (thread_panicked, a)

abbrev from_file : Option Bytes → Environment → FileNonceAllocator → Outcome × FileNonceAllocator
from_file (some text) e a = from_text (decode_nonce (trim text)) e.persisted a
from_file none e a = advance e.persisted e.random a

pub allocate : Environment → FileNonceAllocator → Outcome × FileNonceAllocator
allocate e a =
    if not e.is_locked
    then (refused nonce_reuse, a)
    else if not e.is_readable
    then (refused nonce_reuse, a)
    else from_file a.file e a

-- The nonces that a row of calls returns.
abbrev emit : Outcome → List Bytes → List Bytes
emit (allocated n) rest = n ∷ rest
emit (refused e) rest = rest
emit thread_panicked rest = rest

pub allocate_all : FileNonceAllocator → List Environment → List Bytes
allocate_all a [] = []
allocate_all a (e ∷ es) = let rest = allocate_all (allocate e a).1 es in emit (allocate e a).0 rest
