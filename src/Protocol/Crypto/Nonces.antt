-- ===== src/Protocol/Crypto/Nonces.antt =====
-- A key never seals two envelopes with one nonce.
use localscale.Prelude.{
  ◌≡◌, refl, Bool, true, false, not, List, [], ◌∷◌, arith, Bytes, Result, ok, err, if◌then◌else◌,
}
use localscale.Protocol.Validate.{Role}
use localscale.Protocol.Envelope.{CryptoError}
use localscale.Protocol.Crypto.{
  Aead, CryptoKey, HandshakeEnvelope, Sealed, mem, record_nonce, seal_unchecked,
  seal_with_nonce_internal, seal, seal_with_nonce, seal_with_allocator,
}

-- A call that may seal: each with its role, node id, nonce source and plaintext.
pub data SealCall : Type 0 where
  with_random : Role → Bytes → Bytes → Bytes → SealCall
  with_nonce : Role → Bytes → Bytes → Bytes → SealCall
  with_allocator : Role → Bytes → Result CryptoError Bytes → Bytes → SealCall

module _ (aead : Aead) where
  pub seal_call : CryptoKey → SealCall → Sealed × CryptoKey
  seal_call key (with_random role node random text) = seal aead key role node random text
  seal_call key (with_nonce role node nonce text) = seal_with_nonce aead key role node nonce text
  seal_call key (with_allocator role node allocated text) =
      seal_with_allocator aead key role node allocated text

  abbrev emit : Sealed → List Bytes → List Bytes
  emit (ok e) rest = e.nonce ∷ rest
  emit (err c) rest = rest

  -- The nonces of the envelopes that a row of calls seals.
  pub sealed_nonces : CryptoKey → List SealCall → List Bytes
  sealed_nonces key [] = []
  sealed_nonces key (c ∷ cs) =
      let rest = sealed_nonces (seal_call key c).1 cs in emit (seal_call key c).0 rest

-- No entry stands twice, and none is in `used`.
abbrev pub IsFreshList : List Bytes → List Bytes → Type 0
IsFreshList used [] = Unit
IsFreshList used (n ∷ ns) = (mem n used ≡ false) × IsFreshList (n ∷ used) ns

-- Every nonce of the first list is in the second.
abbrev Within : List Bytes → List Bytes → Type 0
Within small large = (n : Bytes) → mem n large ≡ false → mem n small ≡ false

weaken :
    (small large ns : List Bytes) → Within small large → IsFreshList large ns → IsFreshList small ns
weaken small large [] w h = tt
weaken small large (n ∷ ns) w h =
    (w n h.0, weaken (n ∷ small) (n ∷ large) ns (λ m e. ground (arith, w m)) h.1)

-- One call either seals with a nonce that was not used and is used now, or forgets no nonce.
record Outcome (key : CryptoKey) (r : Sealed × CryptoKey) : Type 0 where
  keeps : Within key.used_nonces r.1.used_nonces
  fresh :
      (e : HandshakeEnvelope)
      → r.0 ≡ ok e
      → (mem e.nonce key.used_nonces ≡ false) × Within (e.nonce ∷ key.used_nonces) r.1.used_nonces

module _ (aead : Aead) where
  unchecked_nonce :
      (key : CryptoKey) (role : Role) (node nonce text : Bytes) (e : HandshakeEnvelope)
      → seal_unchecked aead key role node nonce text ≡ ok e
      → e.nonce ≡ nonce
  unfolding seal_unchecked
  unchecked_nonce key role node nonce text e h = ground arith

  seal_with_nonce-Outcome :
      (key : CryptoKey) (role : Role) (node nonce text : Bytes)
      → Outcome key (seal_with_nonce_internal aead key role node nonce text true)
  unfolding seal_with_nonce_internal record_nonce
  seal_with_nonce-Outcome key role node nonce text = record {
    keeps = λ n h. ground arith;
    fresh = λ e h. (
      ground (arith, unchecked_nonce key role node nonce text e),
      λ n u. ground (arith, unchecked_nonce key role node nonce text e),
    );
  }

  seal_allocated-Outcome :
      (key : CryptoKey) (role : Role) (node nonce text : Bytes)
      → Outcome key (seal_with_allocator aead key role node (ok nonce) text)
  unfolding seal_with_allocator seal_with_nonce_internal record_nonce
  seal_allocated-Outcome key role node nonce text = record {
    keeps = λ n h. ground arith;
    fresh = λ e h. (
      ground (
        arith,
        unchecked_nonce (record key { used_nonces = nonce ∷ key.used_nonces }) role node nonce text
            e,
      ),
      λ n u. ground (
        arith,
        unchecked_nonce (record key { used_nonces = nonce ∷ key.used_nonces }) role node nonce text
            e,
      ),
    );
  }

  refused-Outcome : (key : CryptoKey) (c : CryptoError) → Outcome key (err c, key)
  refused-Outcome key c = record { keeps = λ n h. h; fresh = λ e h. absurd (ground arith) }

  guarded-Outcome :
      (key : CryptoKey) (b : Bool) (c : CryptoError) (r : Sealed × CryptoKey)
      → Outcome key r
      → Outcome key (if b then (err c, key) else r)
  guarded-Outcome key true c r o = refused-Outcome key c
  guarded-Outcome key false c r o = o

  seal_call-Outcome : (key : CryptoKey) (c : SealCall) → Outcome key (seal_call aead key c)
  unfolding seal_call
  seal_call-Outcome key (with_random role node random text) =
      unfold seal in
      guarded-Outcome key (not key.sealing_allowed) _ _
        (seal_with_nonce-Outcome key role node random text)
  seal_call-Outcome key (with_nonce role node nonce text) =
      unfold seal_with_nonce in seal_with_nonce-Outcome key role node nonce text
  seal_call-Outcome key (with_allocator role node (ok nonce) text) =
      seal_allocated-Outcome key role node nonce text
  seal_call-Outcome key (with_allocator role node (err e) text) =
      unfold seal_with_allocator in refused-Outcome key e

  emit-IsFreshList :
      (used after : List Bytes) (s : Sealed) (rest : List Bytes)
      → Within used after
      → ((e : HandshakeEnvelope)
          → s ≡ ok e
          → (mem e.nonce used ≡ false) × Within (e.nonce ∷ used) after)
      → IsFreshList after rest
      → IsFreshList used (emit aead s rest)
  emit-IsFreshList used after (ok e) rest keeps fresh h =
      let (new, within) = fresh e refl in (new, weaken (e.nonce ∷ used) after rest within h)
  emit-IsFreshList used after (err c) rest keeps fresh h = weaken used after rest keeps h

  -- Over any row of calls on a key, by any of the three ways to seal, whatever nonces the random source
  -- and the allocator supply: no two envelopes that are sealed share a nonce, and none reuses a nonce
  -- that the key had used before.
  pub sealed_nonces-IsFreshList :
      (key : CryptoKey) (cs : List SealCall)
      → IsFreshList key.used_nonces (sealed_nonces aead key cs)
  unfolding sealed_nonces
  sealed_nonces-IsFreshList key [] = tt
  sealed_nonces-IsFreshList key (c ∷ cs) =
      let r = seal_call aead key c in
      let o = seal_call-Outcome key c in
      emit-IsFreshList key.used_nonces r.1.used_nonces r.0 (sealed_nonces aead r.1 cs) o.keeps
        o.fresh (sealed_nonces-IsFreshList r.1 cs)
