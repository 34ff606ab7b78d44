-- ===== src/Mesh/Message/Sent.antt =====
-- What `vex_mesh_send` does on any kernel.
use vexconnect.Prelude.{
  ℕ, ◌+◌, ◌≤◌, ◌≡◌, subst, ◌∙◌, List, ◌∷◌, some, true, ok, arith, length, take, drop, get_or,
}
use vexconnect.Prelude.Int.{minus_one}
use vexconnect.Node.{Node, Peer, count_up}
use vexconnect.Nacl.{Nacl, IsNacl}
use vexconnect.Seen
use vexconnect.Packet.{header_size}
use vexconnect.Packet.Decode.{accepts}
use vexconnect.Transport.Speaks.{Speaks}
use vexconnect.Transport.Broadcast.{Broadcasts, send_to_all-Broadcasts}
use vexconnect.System.{Os, IsOs, History, clocked}
use vexconnect.Mesh.{send, max_message}
use vexconnect.Mesh.Send.{framed}
use vexconnect.Mesh.Framed.{framed-ReadsBack, framed-accepts, length-framed}
use vexconnect.Mesh.Message.{body, packs, sends, frame_taken, length-body, unspoken}

-- Whatever the kernel answers, a message of at most 401 bytes is sent, with no error and no access outside an
-- array: an id is added to the cache before anything is written to a socket; then the frame that carries this
-- id and the node's TTL, which a receiver accepts, goes to the open peers in the order of the slots. A peer
-- gets its length and then the frame, and is counted, or is closed where the kernel does not take one of
-- them. The count is returned, one sent packet is counted, and nothing else changes.
pub send_any :
    (os : Os) (nacl : Nacl) (node : Node) (message : List ℕ) (h : History)
    → IsOs os
    → IsNacl nacl
    → length message ≤ max_message
    → (id : List ℕ) × (h₁ : History) × (frame : List ℕ) × (count : ℕ) × (peers : List Peer)
      × (h₂ : History) × (send os nacl node message h
          ≡ some (
            (
              ok count,
              record node {
                peers = peers;
                seen = Seen.add node.seen id (os.time h₁);
                packets_sent = count_up node.packets_sent;
              },
            ),
            h₂,
          ))
      × Speaks (λ f. ⊥) h h₁
      × (length id ≡ 8)
      × (take 8 (drop 1 frame) ≡ id)
      × (get_or frame 9 0 ≡ node.default_ttl)
      × (accepts frame (length frame) ≡ true)
      × Broadcasts os minus_one (length frame) frame node.peers peers (clocked ∷ h₁) h₂ count
send_any os nacl node message h v w small =
    let p = packs os nacl v w node message h small in
    let text = body os nacl v w node message h small in
    let total = header_size + (length message + 40) in
    let marked = record node { seen = Seen.add node.seen p.id (os.time p.h₁) } in
    let size : length text ≡ length message + 40 = length-body os nacl v w node message h small in
    let back = framed-ReadsBack node p.id text p.id_size in
    let long : total ≡ length (framed node p.id text) =
      omega (arith, length-framed node p.id text p.id_size, size) in
    let (count, peers, h₂, run, calls) =
      send_to_all-Broadcasts os p.buf total p.room minus_one marked (clocked ∷ p.h₁) in
    (
      p.id,
      p.h₁,
      framed node p.id text,
      count,
      peers,
      h₂,
      sends os nacl v w node message h small
          ∙ p.runs count (record marked { peers = peers }) h₂ run,
      unspoken os nacl v w node message h small,
      p.id_size,
      back.identified,
      back.timed,
      framed-accepts node p.id text p.id_size (omega (arith, size)),
      subst
          (λ n.
            Broadcasts os minus_one n (framed node p.id text) node.peers peers (clocked ∷ p.h₁) h₂
              count)
          long
          (subst (λ f. Broadcasts os minus_one total f node.peers peers (clocked ∷ p.h₁) h₂ count)
            (frame_taken os nacl v w node message h small) calls),
    )
