-- ===== src/Mesh/Reaches.antt =====
-- A message from a node to its neighbours: what goes out, and what a neighbour does with it.
use vexconnect.Prelude.{
  ℕ, ◌-◌, ◌≤◌, ◌<◌, ◌≡◌, ap, ◌∙◌, List, ◌∷◌, Option, some, Bool, true, Bool-cases, inl, inr, Ret,
  ok, arith, length, take, drop, get_or, Bytes, if◌then◌else◌,
}
use vexconnect.Prelude.Int.{ℤ, minus_one}
use vexconnect.Node.{Node, count_up}
use vexconnect.Nacl.{Nacl, IsNacl}
use vexconnect.Seen
use vexconnect.Seen.{IsCache, recorded}
use vexconnect.Packet.Decode.{accepts}
use vexconnect.Transport.Send.{targets, deliveries}
use vexconnect.Transport.Deliver.{WritesWhole}
use vexconnect.System.{Os, IsOs, History, clocked, displayed}
use vexconnect.Mesh.{send, receive, relay, dropped, max_message, until_nul}
use vexconnect.Mesh.Receive.{frame_id, heard, receive_duplicate}
use vexconnect.Mesh.Network.{origin}
use vexconnect.Mesh.Message.{packs}
use vexconnect.Mesh.Message.Carried.{Carries, frame, frame_id_lem, frame-Carries, send-frame_whole}
use vexconnect.Mesh.Across.{receive-Carries}

-- The end of a handled frame, and of one whose id is recorded or not.
abbrev ends : Os → Node → List ℕ → ℤ → History → Bool → Option ((Ret ℕ × Node) × History)
ends os now frame fd h on =
    if on then relay os now frame (length frame) fd h else some ((ok 0, now), h)

-- What becomes of a frame with a text at a node: if the id is recorded, the frame is dropped; or else the text
-- is shown, and the frame is relayed if the node relays.
abbrev pub arrival :
    Os → Node → List ℕ → List ℕ → ℕ → ℤ → History → Option ((Ret ℕ × Node) × History)
arrival os receiver frame text ttl fd h =
    let old =
      dropped os
        (record receiver { seen = (Seen.check receiver.seen (frame_id frame) (os.time h)).1 }) in
    let now = heard os receiver frame h in
    let later = displayed text ttl receiver.default_ttl ∷ clocked ∷ clocked ∷ h in
    if recorded (os.time h) (frame_id frame) receiver.seen.entries
    then some ((ok 0, old), clocked ∷ h)
    else ends os now frame fd later receiver.relay_enabled

receive-arrival :
    (os : Os) (nacl : Nacl) (node receiver : Node) (message g : List ℕ) (fd : ℤ) (h : History)
    → IsOs os
    → IsNacl nacl
    → Carries nacl node message g
    → node.default_ttl < 256
    → receiver.mesh_key ≡ node.mesh_key
    → IsCache receiver.seen
    → receive os nacl receiver g (length g) fd h
      ≡ arrival os receiver g (until_nul message) node.default_ttl fd h
receive-arrival os nacl node receiver message g fd h v w c ttl same cache =
    elim (Bool-cases (recorded (os.time h) (frame_id g) receiver.seen.entries)) [
      | inl old ↦ rw old (
          receive_duplicate os nacl v w receiver g (length g) fd h cache (omega arith) c.small
            c.bytes c.decodes old)
      | inr new ↦ rw new (
          receive-Carries os nacl node receiver message g g 0 fd h v w c ttl origin same cache new
          ∙ ap
              (λ t.
                ends os (heard os receiver g h) g fd
                  (displayed (until_nul message) t receiver.default_ttl ∷ clocked ∷ clocked ∷ h)
                  receiver.relay_enabled)
              all_left)
    ]
  where
    all_left : node.default_ttl - 0 ≡ node.default_ttl
    all_left = omega arith

-- A message reaches the screens of the others: where the kernel takes every write, a message of at most
-- 401 bytes goes to every open peer in one frame, which carries the node's TTL. A node with the same mesh key and
-- a well-formed cache that gets this frame, on any kernel, shows the message, up to a zero byte, if it has not
-- recorded the id, and relays the frame if it relays; or else it drops the frame.
pub send-shown :
    (os os' : Os) (nacl : Nacl) (node receiver : Node) (message : List ℕ) (fd : ℤ) (h h' : History)
    → IsOs os
    → IsOs os'
    → IsNacl nacl
    → length message ≤ max_message
    → Bytes message
    → node.default_ttl < 256
    → WritesWhole os
    → receiver.mesh_key ≡ node.mesh_key
    → IsCache receiver.seen
    → (id : List ℕ) × (h₁ : History) × (frame : List ℕ) × (send os nacl node message h
        ≡ some (
          (
            ok (targets minus_one node.peers),
            record node {
              seen = Seen.add node.seen id (os.time h₁);
              packets_sent = count_up node.packets_sent;
            },
          ),
          deliveries minus_one frame node.peers (clocked ∷ h₁),
        ))
      × (take 8 (drop 1 frame) ≡ id)
      × (get_or frame 9 0 ≡ node.default_ttl)
      × (accepts frame (length frame) ≡ true)
      × (receive os' nacl receiver frame (length frame) fd h'
          ≡ arrival os' receiver frame (until_nul message) node.default_ttl fd h')
send-shown os os' nacl node receiver message fd h h' v v' w small clean ttl whole same cache =
    let p = packs os nacl v w node message h small in
    let c = frame-Carries os nacl v w node message h small clean ttl in
    (
      p.id,
      p.h₁,
      frame os nacl v w node message h small,
      send-frame_whole os nacl v w node message h small whole,
      frame_id_lem os nacl v w node message h small,
      c.timed,
      c.decodes,
      receive-arrival os' nacl node receiver message (frame os nacl v w node message h small) fd h'
          v' w c ttl same cache,
    )
