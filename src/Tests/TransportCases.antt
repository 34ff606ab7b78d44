-- ===== src/Tests/TransportCases.antt =====
-- src/transport_unix.c at concrete inputs.
use vexconnect.Prelude.{
  ℕ, ◌≡◌, refl, List, [], ◌∷◌, ◌++◌, some, err, true, false, arith, replicate, All,
}
use vexconnect.Prelude.Int.{pos, minus_one}
use vexconnect.Node.{Peer, Node}
use vexconnect.System.{Os, History, Event, ReadReply, got, has_read, closed}
use vexconnect.Transport.{send_to_all, unix_read, unix_accept, frame_header}
use vexconnect.Transport.Send.{targets, deliveries, spares, AllKept, send_to_all_lem}
use vexconnect.Transport.Deliver.{send_to_all-delivers, send_to_all-miscounts, active_count}
use vexconnect.Transport.ReadLoop.{Reads}
use vexconnect.Transport.Read.{unix_read-Reads}
use vexconnect.Transport.Pipe.{Loaded, unix_read-Loaded}
use vexconnect.Transport.Accept.{EndsCounted, unix_accept-CountIsRight, unix_read_partial}
use vexconnect.Tests.Platform.{
  replicate-Bytes, kernel, kernel-IsOs, kernel-WritesWhole, kernel-IsPipe, content, refusing,
  refusing-WritesFail,
}
use vexconnect.Tests.Frames.{frame_of, peer_of, a_node}

-- Two frames of a peer, one behind the other.
abbrev two_frames : List ℕ
two_frames = frame_header 13 ++ (frame_of 5 ++ (frame_header 13 ++ frame_of 4))

-- A kernel that has the length of a frame and then nothing.
abbrev slow : Os
slow = record (kernel []) {
  read = λ h fd n. elim h [ [] ↦ got (0 ∷ 13 ∷ []) | e ∷ h' ↦ ReadReply.again ];
}

send_to_all_lem_example :
    (count : ℕ) × (peers : List Peer) × (events : List Event) × (send_to_all refusing a_node
        (frame_of 5)
        13
        (pos 4)
        []
      ≡ some ((count, record a_node { peers = peers }), events ++ []))
    × AllKept a_node.peers peers
    × (count ≡ targets (pos 4) peers)
    × All (λ e. spares (pos 4) e ≡ true) events
send_to_all_lem_example = send_to_all_lem refusing a_node (frame_of 5) 13 (pos 4) [] (omega arith)

send_to_all-delivers_example :
    send_to_all (kernel []) a_node (frame_of 5) 13 (pos 4) []
    ≡ some ((1, a_node), deliveries (pos 4) (frame_of 5) a_node.peers [])
send_to_all-delivers_example =
    send_to_all-delivers (kernel []) a_node (frame_of 5) 13 (pos 4) [] (omega arith)
      (kernel-WritesWhole [])

send_to_all-miscounts_example :
    (node' : Node) × (h' : History) × (send_to_all refusing a_node (frame_of 5) 13 minus_one []
      ≡ some ((0, node'), h'))
    × (active_count node'.peers ≡ 0)
    × (node'.peer_count ≡ pos 2)
send_to_all-miscounts_example =
    send_to_all-miscounts refusing a_node (frame_of 5) 13 [] refusing-WritesFail (refl, (refl, tt))

unix_read-Reads_example :
    Reads
      (unix_read (kernel two_frames) (peer_of 3) (replicate 512 0) 512)
      []
      (peer_of 3)
      (replicate 512 0)
      512
unix_read-Reads_example =
    unix_read-Reads (kernel two_frames) (kernel-IsOs two_frames (ground arith)) (peer_of 3)
      (replicate 512 0) 512 [] (omega arith) refl (replicate-Bytes 512 0 (omega arith))

unix_read-Loaded_example :
    Loaded
      (kernel two_frames)
      (content two_frames)
      (peer_of 3)
      13
      (frame_of 5 ++ replicate 499 0)
      (frame_header 13 ++ frame_of 4)
      (unix_read (kernel two_frames) (peer_of 3) (replicate 512 0) 512 [])
unix_read-Loaded_example =
    unix_read-Loaded (kernel two_frames) (kernel-IsOs two_frames (ground arith)) (peer_of 3)
      (content two_frames) (kernel-IsPipe two_frames (pos 3)) (replicate 512 0) (frame_of 5)
      (frame_header 13 ++ frame_of 4) 512 [] refl (omega arith) (omega arith) (omega arith) refl

unix_accept-CountIsRight_example : EndsCounted a_node (unix_accept (kernel []) a_node [])
unix_accept-CountIsRight_example = unix_accept-CountIsRight (kernel []) a_node refl []

unix_read_partial_example :
    unix_read slow (peer_of 3) (replicate 512 0) 512 []
    ≡ some (
      (err, record (peer_of 3) { active = false }, replicate 512 0),
      closed (pos 3) ∷ has_read (pos 3) 13 ∷ has_read (pos 3) 2 ∷ [],
    )
unix_read_partial_example =
    unix_read_partial slow (peer_of 3) (replicate 512 0) 512 0 13 [] refl refl (omega arith)
      (omega arith) (omega arith) refl
