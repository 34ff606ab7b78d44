-- ===== src/Tests/MeshCases.antt =====
-- src/mesh.c at concrete inputs.
use vexconnect.Prelude.{
  ℕ, ◌-◌, set, ◌<◌, ◌⊎◌, ◌≡◌, refl, [], ◌∷◌, some, ok, true, arith, if◌then◌else◌,
}
use vexconnect.Prelude.Int.{pos}
use vexconnect.Node.{Node}
use vexconnect.Seen
use vexconnect.Seen.{IsCache, recorded}
use vexconnect.Seen.History.{init-IsCache, unrecorded-init, unused-init}
use vexconnect.System.{History, clocked, wrote}
use vexconnect.Transport.Send.{deliveries}
use vexconnect.Mesh.{receive, dropped}
use vexconnect.Mesh.Receive.{heard, shown_at}
use vexconnect.Mesh.Once.{Leaves, receive-IsCache, receive-delivers, receive_twice}
use vexconnect.Mesh.Network.{Written, Spreads, origin, hop, Spreads-hops}
use vexconnect.Mesh.Branches.{receive_lem, receive-Spreads}
use vexconnect.Mesh.Hops.{handles, passes}
use vexconnect.Mesh.Relay.{blank}
use vexconnect.Packet.Decode.{parsed}
use vexconnect.Transport.Clock.{Ticks}
use vexconnect.Mesh.Traffic.{Hears, frame, pruned, quiet, receive_again}
use vexconnect.Tests.Platform.{kernel, kernel-IsOs, kernel-WritesWhole, plain_box, plain_box-IsNacl}
use vexconnect.Tests.Frames.{frame_of, some_id, a_node}

receive-IsCache_example : Leaves IsCache (kernel []) plain_box a_node (frame_of 5) 13 (pos 3) []
receive-IsCache_example =
    receive-IsCache (kernel []) plain_box (kernel-IsOs [] tt) plain_box-IsNacl a_node (frame_of 5)
      13 (pos 3) [] init-IsCache (omega arith) (omega arith) (ground arith)

abbrev later_node : Node
later_node = record (heard (kernel []) a_node (frame_of 5) []) { packets_relayed = 1 }

receive_lem_example : receive (kernel []) plain_box a_node (frame_of 5) 13 (pos 3) [] ≡ (
    if recorded 100 some_id a_node.seen.entries
    then some (
      (ok 0, dropped (kernel []) (record a_node { seen = (Seen.check a_node.seen some_id 100).1 })),
      clocked ∷ [],
    )
    else some (
      (ok 1, later_node),
      deliveries
          (pos 3)
          (frame_of 4)
          a_node.peers
          (shown_at (kernel []) plain_box a_node (frame_of 5) 13 []),
    ))
receive_lem_example =
    receive_lem (kernel []) plain_box (kernel-IsOs [] tt) plain_box-IsNacl a_node (frame_of 5) 13
      (pos 3) [] init-IsCache (omega arith) (omega arith) (ground arith) (kernel-WritesWhole [])

receive-delivers_example :
    receive (kernel []) plain_box a_node (frame_of 5) 13 (pos 3) []
    ≡ some (
      (ok 1, later_node),
      deliveries
          (pos 3)
          (frame_of 4)
          a_node.peers
          (shown_at (kernel []) plain_box a_node (frame_of 5) 13 []),
    )
receive-delivers_example =
    receive-delivers (kernel []) plain_box (kernel-IsOs [] tt) plain_box-IsNacl a_node (frame_of 5)
      13 (pos 3) [] init-IsCache (omega arith) (omega arith) (ground arith) refl
      (unrecorded-init 100 some_id) refl (omega arith) (kernel-WritesWhole [])

abbrev later : History
later =
    deliveries (pos 3) (frame_of 4) a_node.peers
      (shown_at (kernel []) plain_box a_node (frame_of 5) 13 [])

delivered :
    receive (kernel []) plain_box a_node (frame_of 5) 13 (pos 3) []
    ≡ some ((ok 1, later_node), later)
delivered =
    receive-delivers (kernel []) plain_box (kernel-IsOs [] tt) plain_box-IsNacl a_node (frame_of 5)
      13 (pos 3) [] init-IsCache (omega arith) (omega arith) (ground arith) refl
      (unrecorded-init 100 some_id) refl (omega arith) (kernel-WritesWhole [])

-- The frame comes back from the other peer with a lower TTL, then the cache is pruned.
abbrev node_again : Node
node_again =
    dropped (kernel []) (record later_node { seen = (Seen.check later_node.seen some_id 100).1 })

abbrev pruned_node : Node
pruned_node = record node_again { seen = Seen.prune node_again.seen 100 }

came_back :
    receive (kernel []) plain_box later_node (frame_of 3) 13 (pos 4) later
    ≡ some ((ok 0, node_again), clocked ∷ later)
came_back =
    receive_twice (kernel []) plain_box (kernel-IsOs [] tt) plain_box-IsNacl a_node (frame_of 5) 13
      (pos 3) [] init-IsCache (omega arith) (omega arith) (ground arith) (ok 1) later_node later
      (frame_of 3) 13 (pos 4) refl (unrecorded-init 100 some_id) delivered refl refl (omega arith)
      (omega arith) (ground arith) (omega arith)

between : Hears (kernel []) plain_box 1 later_node later pruned_node (clocked ∷ clocked ∷ later)
between =
    frame 0 later_node node_again pruned_node later (clocked ∷ later) (clocked ∷ clocked ∷ later)
      (ok 0) (frame_of 3) (pos 4) (omega arith) (ground arith) came_back
      (pruned 0 node_again pruned_node (clocked ∷ later) (clocked ∷ clocked ∷ later)
        (quiet pruned_node (clocked ∷ clocked ∷ later)))

-- The clock of the kernel stands still.
steady : Ticks (kernel [])
steady h e = omega arith

receive_again_example :
    receive (kernel []) plain_box pruned_node (frame_of 4) 13 (pos 4) (clocked ∷ clocked ∷ later)
    ≡ some (
      (
        ok 0,
        dropped
            (kernel [])
            (record pruned_node { seen = (Seen.check pruned_node.seen some_id 100).1 }),
      ),
      clocked ∷ clocked ∷ clocked ∷ later,
    )
receive_again_example =
    receive_again (kernel []) plain_box (kernel-IsOs [] tt) plain_box-IsNacl steady 1 a_node
      later_node pruned_node [] later (clocked ∷ clocked ∷ later) (ok 1) (frame_of 5) (frame_of 4)
      (pos 3) (pos 4) init-IsCache (omega arith) (ground arith) refl (unrecorded-init 100 some_id)
      delivered between (omega (arith, unused-init 100)) (omega arith) (ground arith) refl refl
      (omega arith)

-- The frame goes from one node to the other peer.
written : Written (frame_of 4) [] later
written = record {
  fd = pos 4;
  later = [];
  before = wrote (pos 4) (0 ∷ 13 ∷ []) ∷ clocked ∷ clocked ∷ [];
  on_wire = refl;
  long = omega arith;
}

spread : Spreads (frame_of 5) 1 (frame_of 4)
spread =
    hop 0 (frame_of 5) (frame_of 4) (kernel []) plain_box a_node later_node (ok 1) (pos 3) [] later
      (kernel-IsOs [] tt) origin delivered written

Spreads-hops_example : (frame_of 4 ≡ set (frame_of 5) 9 (5 - 1)) × (◌≡◌ {A = ℕ} 1 0 ⊎ (1 < 5))
Spreads-hops_example = Spreads-hops (frame_of 5) (frame_of 4) 1 (omega arith) (omega arith) spread

-- A second node gets what the first one has written.
receive-Spreads_example :
    receive (kernel []) plain_box a_node (frame_of 4) 13 (pos 3) []
    ≡ passes true (pos 3) (frame_of 3) (
        handles
          (kernel [])
          plain_box
          a_node
          some_id
          (record (parsed (frame_of 5) 13 (blank (kernel []) [])) { ttl = 4 })
          [])
receive-Spreads_example =
    receive-Spreads (kernel []) plain_box a_node (frame_of 5) (frame_of 4) 1 (pos 3) []
      (kernel-IsOs [] tt) plain_box-IsNacl init-IsCache (omega arith) (ground arith) refl spread
      (unrecorded-init 100 some_id) refl (kernel-WritesWhole [])
