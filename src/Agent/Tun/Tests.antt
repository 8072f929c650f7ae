-- ===== src/Agent/Tun/Tests.antt =====
-- Two packets from a Linux device to a utun device, an ended session, and a device that cannot be made.
use localscale.Prelude.{◌≡◌, refl, none, [], ◌∷◌, true, false, arith, codes, err}
use localscale.Agent.Tun.{linux, macos}
use localscale.Agent.Tun.Bridge.{Device, forward_to_peer, receive_turns}
use localscale.Agent.Tun.Bridge.Endless.{receive_turns-ended}
use localscale.Agent.Tun.Bridge.Tunnel.{
  reads_of, running_with, device_frames, receive_turns-forward_to_peer,
}
use localscale.Agent.Tun.Spawn.{SpawnInput, spawn_all, no_device}
use localscale.Agent.Tun.Spawn.Once.{IsOnce, AreBridged, spawn_all-IsOnce}
use localscale.Transport.Action.{unexpected_eof, other}
use localscale.Transport.Multiplex.{RecvTimeoutError, recv_timeout, read_loop}
use localscale.Transport.Multiplex.Delivery.{open_boxes}
use localscale.Transport.Wire.{Stream}

abbrev idle : Stream
idle = record {
  incoming = [];
  ending = unexpected_eof;
  outgoing = [];
  write_fault = none;
  deadline_fault = none;
}

abbrev device : Device
device = record { written = []; write_fault = none }

receive_turns-forward_to_peer_example :
    receive_turns macos 2 (record {
      is_running = true;
      reading = true;
      boxes =
          read_loop 3
            (record idle {
              incoming =
                  (forward_to_peer linux
                    (reads_of linux (codes "a" ∷ codes "bc" ∷ []))
                    idle).outgoing;
            })
            (open_boxes [] []);
      device = device;
    })
    ≡ running_with true []
        (record device { written = device_frames macos (codes "a" ∷ codes "bc" ∷ []) })
receive_turns-forward_to_peer_example =
    receive_turns-forward_to_peer linux macos true (codes "a" ∷ codes "bc" ∷ []) idle idle device 3
      (omega arith) refl refl refl (omega arith)

receive_turns-ended_example :
    (receive_turns linux 6 (running_with false (codes "a" ∷ []) device)
      ≡ running_with false [] (record device { written = codes "a" ∷ [] }))
    × ((recv_timeout
          (receive_turns linux 6 (running_with false (codes "a" ∷ []) device)).reading
          (receive_turns linux 6 (running_with false (codes "a" ∷ []) device)).boxes.packets).0
        ≡ err RecvTimeoutError.disconnected)
receive_turns-ended_example = receive_turns-ended linux (codes "a" ∷ []) 5 device refl

abbrev refused : SpawnInput
refused = record {
  local_ip = codes "10.0.0.1";
  peer_ip = none;
  device = λ peer. err other;
  are_cloned = true;
}

spawn_all-IsOnce_example :
    IsOnce (spawn_all linux (refused ∷ refused ∷ []) no_device).1
    × AreBridged
        (spawn_all linux (refused ∷ refused ∷ []) no_device).0
        (spawn_all linux (refused ∷ refused ∷ []) no_device).1.memo
spawn_all-IsOnce_example = spawn_all-IsOnce linux (refused ∷ refused ∷ [])
