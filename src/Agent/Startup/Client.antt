-- ===== src/Agent/Startup/Client.antt =====
-- A client of src/main.rs starts exactly from a record that was approved.
use localscale.Prelude.{
  ℕ, ◌≡◌, refl, ap, sym, subst, ◌∙◌, Bool, true, false, not, ◌||◌, Option, none, some, [], Bytes,
  codes, bytes_eq, bytes_eq_iff, if◌then◌else◌, Result, ok, err, ◌>>=◌, ◌>>◌, ok_or, ensure, arith,
}
use localscale.Prelude.Options.{unwrap_or}
use localscale.Agent.Peers.{PeerRecord}
use localscale.Agent.Runtime.{
  Failure, validate_approved_peer_record, valid_client, valid_host, checked_key,
}
use localscale.Agent.Startup.{
  ClientSystem, ClientThread, start_client, on_checked, on_client_key, on_stored, chosen_port,
}
use localscale.Protocol.Crypto.{CryptoKey}
use localscale.Protocol.Envelope.{CryptoError}
use localscale.Transport.Action.{IoError}
use localscale.Transport.StoredKey.{key_from_stored_transport_key}

-- A record with which a client may start, and the key and the host that it names.
abbrev pub IsStartable : PeerRecord → CryptoKey → Bytes → Type 0
IsStartable r key host_node =
    (r.approved ≡ true)
    × ((r.revoked ≡ false)
        × ((r.role ≡ codes "cliente")
            × ((key_from_stored_transport_key r.invitation_secret ≡ some (ok key))
                × ((r.host_node_id ≡ some host_node) × (bytes_eq host_node r.node_id ≡ false)))))

checks :
    (refused : Bool) (e : Failure) (k : Option (Result CryptoError CryptoKey))
    (rest : Result Failure (Unit {0}))
    → (if refused then some (err e) else checked_key k rest) ≡ some (ok tt)
    → (refused ≡ false) × ((key : CryptoKey) × ((k ≡ some (ok key)) × (rest ≡ ok tt)))
checks true e k rest h = ground arith
checks false e none rest h = ground arith
checks false e (some (err f)) rest h = ground arith
checks false e (some (ok key)) rest h = (refl, (key, (refl, ground arith)))

hosts :
    (o : Option Bytes) (e f : Failure) (is_same : Bytes → Bool)
    (rest : Bytes → Result Failure (Unit {0}))
    → (do host_node ← ok_or o e; ensure (not (is_same host_node)) f; rest host_node) ≡ ok tt
    → (host_node : Bytes) × ((o ≡ some host_node) × (is_same host_node ≡ false))
hosts none e f is_same rest h = ground arith
hosts (some host_node) e f is_same rest h = (host_node, (refl, ground arith))

accepted :
    (a b c d : Bool)
    → (not a || b || not c || not d) ≡ false
    → (a ≡ true) × ((b ≡ false) × (d ≡ true))
accepted a b c d h = ground arith

as_client :
    (x y : Result Failure (Unit {0}))
    → (if bytes_eq (codes "cliente") (codes "host") then x else y) ≡ ok tt
    → y ≡ ok tt
unfolding bytes_eq
as_client x y h = h

pub valid-IsStartable :
    (r : PeerRecord)
    → validate_approved_peer_record r (codes "cliente") ≡ some (ok tt)
    → (key : CryptoKey) × (host_node : Bytes) × IsStartable r key host_node
unfolding validate_approved_peer_record
valid-IsStartable r h =
    let c =
      checks _ _ (key_from_stored_transport_key r.invitation_secret)
        (if bytes_eq (codes "cliente") (codes "host") then valid_host r else valid_client r) h in
    let n =
      hosts r.host_node_id _ _ (λ host_node. bytes_eq host_node r.node_id) _
        (as_client _ _ c.1.1.1) in
    let a = accepted r.approved r.revoked _ (bytes_eq r.role (codes "cliente")) c.0 in
    (
      c.1.0,
      n.0,
      (a.0, (a.1.0, ((bytes_eq_iff r.role (codes "cliente")).0 a.1.1, (c.1.1.0, (n.1.0, n.1.1))))),
    )

or_thread : ClientThread → Option (Result Failure ClientThread) → ClientThread
or_thread t (some (ok u)) = u
or_thread t (some (err e)) = t
or_thread t none = t

-- All steps of the chain behind the key have succeeded.
chained :
    (host_node : Option Bytes) (e : Failure) (port : Result Failure ℕ)
    (x y : Result Failure (Unit {0})) (f : Bytes → ℕ → ClientThread) (t : ClientThread)
    → some (do n ← ok_or host_node e; p ← port; x; y; ok (f n p)) ≡ some (ok t)
    → (n : Bytes) × (p : ℕ) × ((host_node ≡ some n) × ((port ≡ ok p) × (f n p ≡ t)))
unfolding or_thread
chained none e port x y f t h = ground arith
chained (some n) e (err g) x y f t h = ground arith
chained (some n) e (ok p) (err g) y f t h = ground arith
chained (some n) e (ok p) (ok u) (err g) f t h = ground arith
chained (some n) e (ok p) (ok u) (ok v) f t h = (n, p, (refl, (refl, ap (or_thread t) h)))

module _ (sys : ClientSystem) (hostname : Bytes) (t : ClientThread) where
  -- What the thread takes from a record.
  abbrev pub IsOf : PeerRecord → Type 0
  IsOf r =
      (r.host_node_id ≡ some t.host_node_id)
      × ((t.node_id ≡ r.node_id)
          × ((t.hostname ≡ hostname) × (chosen_port sys.onion_port ≡ ok t.port)))

  on_client_key-IsOf :
      (r : PeerRecord) (k : Option (Result CryptoError CryptoKey))
      → on_client_key sys hostname r k ≡ some (ok t)
      → (k ≡ some (ok t.key)) × IsOf r
  on_client_key-IsOf r none h = ground arith
  on_client_key-IsOf r (some (err e)) h = ground arith
  on_client_key-IsOf r (some (ok key)) h =
      let c =
        chained r.host_node_id _ (chosen_port sys.onion_port) sys.allocator sys.socks
          (λ n p. record {
            key = key;
            node_id = r.node_id;
            host_node_id = n;
            hostname = hostname;
            port = p;
            local_virtual_ip = unwrap_or r.virtual_ip [];
          })
          t h in
      (
        ap (λ u. some (ok u.key)) c.2.1.1,
        (
          c.2.0 ∙ ap (λ u. some u.host_node_id) c.2.1.1,
          (
            ap (λ u. u.node_id) (sym c.2.1.1),
            (ap (λ u. u.hostname) (sym c.2.1.1), c.2.1.0 ∙ ap (λ u. ok u.port) c.2.1.1),
          ),
        ),
      )

  on_checked-IsOf :
      (r : PeerRecord) (v : Option (Result Failure (Unit {0})))
      → on_checked sys hostname r v ≡ some (ok t)
      → (v ≡ some (ok tt))
        × ((key_from_stored_transport_key r.invitation_secret ≡ some (ok t.key)) × IsOf r)
  on_checked-IsOf r none h = ground arith
  on_checked-IsOf r (some (err e)) h = ground arith
  on_checked-IsOf r (some (ok u)) h = (refl, on_client_key-IsOf r _ h)

  on_stored-IsOf :
      (x : Result IoError (Option PeerRecord))
      → on_stored sys hostname x ≡ some (ok t)
      → (r : PeerRecord) × ((x ≡ ok (some r)) × (IsStartable r t.key t.host_node_id × IsOf r))
  on_stored-IsOf (err e) h = ground arith
  on_stored-IsOf (ok none) h = ground arith
  on_stored-IsOf (ok (some r)) h =
      let c = on_checked-IsOf r _ h in
      let s = (valid-IsStartable r c.0).2 in
      let n : some (valid-IsStartable r c.0).1 ≡ some t.host_node_id = sym s.1.1.1.1.0 ∙ c.1.1.0 in
      (
        r,
        (
          refl,
          (
            (
              s.0,
              (
                s.1.0,
                (
                  s.1.1.0,
                  (
                    c.1.0,
                    (
                      c.1.1.0,
                      subst (λ m. bytes_eq m r.node_id ≡ false) (ap (unwrap_or_empty) n)
                          s.1.1.1.1.1,
                    ),
                  ),
                ),
              ),
            ),
            c.1.1,
          ),
        ),
      )
    where
      unwrap_or_empty : Option Bytes → Bytes
      unwrap_or_empty o = unwrap_or o []

  -- A client that starts to dial takes its key, its own node id and the host's from the stored record; that
  -- record is approved and not revoked, has the role of a client, and names a host other than itself; and the port
  -- is the one of the variable, or 8765 without it.
  pub start_client-IsStartable :
      start_client sys hostname ≡ some (ok t)
      → (r : PeerRecord) × ((sys.peer_record ≡ ok (some r))
          × (IsStartable r t.key t.host_node_id × IsOf r))
  unfolding start_client
  start_client-IsStartable h = on_stored-IsOf sys.peer_record h
