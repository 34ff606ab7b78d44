-- ===== src/Tests/AcrossCases.antt =====
-- A message from one node to the next, at concrete nodes and kernels.
use vexconnect.Prelude.{
  ℕ, ◌≡◌, refl, ap, sym, List, [], ◌∷◌, some, true, ok, arith, length, take, drop, get_or,
  append-nil,
}
use vexconnect.Prelude.Int.{pos, minus_one}
use vexconnect.Prelude.Text.{codes}
use vexconnect.Seen
use vexconnect.Seen.History.{init-IsCache, unrecorded-init}
use vexconnect.Packet.Decode.{accepts, accepts-Accepted}
use vexconnect.Transport.Send.{deliveries}
use vexconnect.System.{History, Event, clocked, displayed, wrote}
use vexconnect.Transport.{frame_header}
use vexconnect.Mesh.{send, receive, relay}
use vexconnect.Mesh.Receive.{heard, frame_id}
use vexconnect.Mesh.Network.{Written, origin}
use vexconnect.Mesh.Reaches.{arrival, send-shown}
use vexconnect.Mesh.Across.{receive-send}
use vexconnect.Tests.Platform.{kernel, kernel-IsOs, kernel-WritesWhole, plain_box, plain_box-IsNacl}
use vexconnect.Tests.Frames.{a_node}

abbrev hello : List ℕ
hello = codes "hello"

-- The message is sent.
sent :
    (id : List ℕ) × (h₁ : History) × (frame : List ℕ) × (send (kernel []) plain_box a_node hello []
      ≡ some (
        (ok 2, record a_node { seen = Seen.add Seen.init id 100; packets_sent = 1 }),
        deliveries minus_one frame a_node.peers (clocked ∷ h₁),
      ))
    × (take 8 (drop 1 frame) ≡ id)
    × (get_or frame 9 0 ≡ 7)
    × (accepts frame (length frame) ≡ true)
    × (receive (kernel []) plain_box a_node frame (length frame) (pos 4) []
        ≡ arrival (kernel []) a_node frame hello 7 (pos 4) [])
sent =
    send-shown (kernel []) (kernel []) plain_box a_node a_node hello (pos 4) [] []
      (kernel-IsOs [] tt) (kernel-IsOs [] tt) plain_box-IsNacl (omega arith) (ground arith)
      (omega arith) (kernel-WritesWhole []) refl init-IsCache

-- The calls of the broadcast before the last write.
abbrev calls : List Event
calls =
    wrote (pos 4) (frame_header (length sent.2))
    ∷ wrote (pos 3) sent.2
    ∷ wrote (pos 3) (frame_header (length sent.2))
    ∷ clocked
    ∷ sent.1

written : Written sent.2 [] (deliveries minus_one sent.2 a_node.peers (clocked ∷ sent.1))
written = record {
  fd = pos 4;
  later = [];
  before = calls;
  on_wire = ap (λ t. wrote (pos 4) sent.2 ∷ t) (sym (append-nil calls));
  long = omega (arith, (accepts-Accepted sent.2 (length sent.2) sent.6).long);
}

receive-send_example : receive (kernel []) plain_box a_node sent.2 (length sent.2) (pos 4) [] ≡ (
    let now = heard (kernel []) a_node sent.2 [] in
    relay
      (kernel [])
      now
      sent.2
      (length sent.2)
      (pos 4)
      (displayed hello 7 7 ∷ clocked ∷ clocked ∷ []))
receive-send_example =
    receive-send (kernel []) (kernel []) plain_box a_node
      (record a_node { seen = Seen.add Seen.init sent.0 100; packets_sent = 1 }) a_node hello sent.2
      sent.2 (ok 2) 0 (pos 4) [] (deliveries minus_one sent.2 a_node.peers (clocked ∷ sent.1)) []
      (kernel-IsOs [] tt) (kernel-IsOs [] tt) plain_box-IsNacl (omega arith) (ground arith)
      (omega arith) sent.3 written origin refl init-IsCache (unrecorded-init 100 (frame_id sent.2))
