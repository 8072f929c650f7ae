-- ===== src/Agent/Tun/Bridge/Endless.antt =====
-- The receiving thread of a bridge of src/main.rs behind the end of its session.
use localscale.Prelude.{
  ℕ, zero, suc, ◌+◌, ◌≡◌, refl, ap, ◌∙◌, false, none, List, [], ◌++◌, Bytes, length, arith, err,
}
use localscale.Agent.Tun.{Platform}
use localscale.Agent.Tun.Bridge.{Device, Forwarder, receive_turn, receive_turns}
use localscale.Agent.Tun.Bridge.Tunnel.{running_with, device_frames, receive_turns-running_with}
use localscale.Transport.Multiplex.{RecvTimeoutError, recv_timeout, receive_packet}

receive_turns-idle :
    (platform : Platform) (n : ℕ) (d : Device)
    → receive_turns platform n (running_with false [] d) ≡ running_with false [] d
unfolding receive_turns receive_turn receive_packet
receive_turns-idle platform zero d = refl
receive_turns-idle platform (suc n) d = receive_turns-idle platform n d

receive_turns-add :
    (platform : Platform) (m n : ℕ) (f : Forwarder)
    → receive_turns platform (m + n) f ≡ receive_turns platform n (receive_turns platform m f)
unfolding receive_turns
receive_turns-add platform zero n f =
    let none_more : 0 + n ≡ n = omega arith in ap (λ k. receive_turns platform k f) none_more
receive_turns-add platform (suc m) n f =
    let one_more : suc m + n ≡ suc (m + n) = omega arith in
    ap (λ k. receive_turns platform k f) one_more
    ∙ receive_turns-add platform m n (receive_turn platform f)

-- The receiving thread does not end with its session: behind the end of the reader thread, which dropped the
-- sender, it writes the packets that still wait, and then runs on for any number of turns, although its channel
-- reports each time that it is disconnected. The device can be written.
pub receive_turns-ended :
    (platform : Platform) (ps : List Bytes) (n : ℕ) (d : Device)
    → d.write_fault ≡ none
    → (receive_turns platform (length ps + n) (running_with false ps d)
        ≡ running_with false [] (record d { written = d.written ++ device_frames platform ps }))
      × ((recv_timeout
            (receive_turns platform (length ps + n) (running_with false ps d)).reading
            (receive_turns platform (length ps + n) (running_with false ps d)).boxes.packets).0
          ≡ err RecvTimeoutError.disconnected)
receive_turns-ended platform ps n d works =
    let final =
      receive_turns-add platform (length ps) n (running_with false ps d)
      ∙ ap (receive_turns platform n) (receive_turns-running_with platform false ps d works)
      ∙ receive_turns-idle platform n
          (record d { written = d.written ++ device_frames platform ps }) in
    (final, ap (λ (f : Forwarder). (recv_timeout f.reading f.boxes.packets).0) final)
