-- ===== src/Agent/Dialing/Unread.antt =====
-- A session of the dialing thread of src/main.rs whose packets nobody receives: `spawn_tun_bridge` returned
-- early and dropped its channel.
use localscale.Prelude.{
  ℕ, ◌*◌, ◌≡◌, refl, sym, subst, true, false, none, some, List, [], ◌∷◌, Bytes, ok, err, Result,
  if_both,
}
use localscale.Agent.Arguments.{retry_delay}
use localscale.Agent.Dialing.{
  Dialer, Session, Input, iteration, arrive, await, on_ping, saturating_suc,
}
use localscale.Transport.Action.{TransportError}
use localscale.Transport.Multiplex.{Inboxes, channel_receive_pong, route, frame_kind_packet}
use localscale.Transport.Wire.{Stream}

-- The attempt has failed, and the next one waits.
abbrev pub HasEnded : Dialer → Dialer → Type 0
HasEnded d r =
    (r.session ≡ none)
    × ((r.failures ≡ saturating_suc d.failures)
        × (r.delays ≡ 1000 * retry_delay (saturating_suc d.failures) ∷ d.delays))

-- No heartbeat waits, and the receiver of the packets is gone.
abbrev pub closed_boxes : List Bytes → Inboxes
closed_boxes ps = record {
  heartbeats = record { waiting = []; is_connected = true };
  packets = record { waiting = ps; is_connected = false };
}

arrive-closed :
    (q : Bytes) (frames ps : List Bytes)
    → arrive ((frame_kind_packet ∷ q) ∷ frames) (true, closed_boxes ps) ≡ (false, closed_boxes ps)
unfolding arrive route
arrive-closed q [] ps = refl
arrive-closed q (f ∷ frames) ps = refl

abbrev unread_session : Stream → List Bytes → ℕ → Session
unread_session stream ps n = record {
  stream = stream;
  reading = true;
  boxes = closed_boxes ps;
  sequence = n;
}

module _ (node peer : Bytes) where
  await-HasEnded :
      (i : Input) (s : Session) (ps : List Bytes) (d : Dialer)
      → HasEnded d (await node peer i (false, closed_boxes ps) s d)
  unfolding channel_receive_pong
  await-HasEnded i s ps d = (refl, (refl, refl))

  abbrev unread : Input → Bytes → List Bytes → Input
  unread i q frames = record i { arrived = (frame_kind_packet ∷ q) ∷ frames }

  on_ping-HasEnded :
      (i : Input) (q : Bytes) (frames ps : List Bytes) (n : ℕ) (stream : Stream) (d : Dialer)
      (x : Result TransportError (Unit {0}) × Stream)
      → HasEnded d (on_ping node peer (unread i q frames) x (unread_session stream ps n) d)
  on_ping-HasEnded i q frames ps n stream d (ok u, t) =
      subst (λ r. HasEnded d (await node peer (unread i q frames) r (unread_session t ps n) d))
        (sym (arrive-closed q frames ps))
        (await-HasEnded (unread i q frames) (unread_session t ps n) ps d)
  on_ping-HasEnded i q frames ps n stream d (err e, t) = (refl, (refl, refl))

  -- If the channel of packets was dropped, the first packet that arrives in front of a pong ends the session,
  -- whatever follows it and even if the host has answered: the attempt counts as failed, and the client waits
  -- before it dials again.
  pub iteration-closed_boxes :
      (i : Input) (q : Bytes) (frames ps : List Bytes) (n : ℕ) (stream : Stream) (d : Dialer)
      → HasEnded d (
          iteration node peer
            (record i { arrived = (frame_kind_packet ∷ q) ∷ frames })
            (record d {
              session = some (record {
                stream = stream;
                reading = true;
                boxes = closed_boxes ps;
                sequence = n;
              });
            }))
  unfolding iteration
  iteration-closed_boxes i q frames ps n stream d =
      if_both (HasEnded d) i.gate _ _ (λ yes. on_ping-HasEnded i q frames ps _ stream _ _)
        (λ no. (refl, (refl, refl)))
