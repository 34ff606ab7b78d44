-- ===== src/Mesh/Message.antt =====
-- A message from the user of one node to the screens of the others.
pub mod Carried
pub mod Sent
use vexconnect.Prelude.{
  ◌<◌, ℕ, ◌+◌, ◌%◌, ◌^◌, ◌≤◌, ◌≡◌, ◌∙◌, ap, sym, subst, List, [], ◌∷◌, ◌++◌, some, true, le→ltb,
  lt→ltb, err, ok, arith, length, take, drop, get_or, length-append, length-drop, take_prefix,
  take_all, append-nil,
}
use vexconnect.Prelude.Int.{minus_one}
use vexconnect.Node.{Node, Peer, count_up}
use vexconnect.Nacl.{Nacl, IsNacl}
use vexconnect.Seen
use vexconnect.Packet.{Packet, max_payload, header_size}
use vexconnect.Packet.Decode.{accepts, parsed, body_len}
use vexconnect.Crypto.{box_zero_bytes}
use vexconnect.Crypto.Decrypt.{opened_text}
use vexconnect.Crypto.Encrypt.{Encrypted, encrypt_broadcast-Encrypted}
use vexconnect.Crypto.Wire.{encrypt_broadcast-Makes}
use vexconnect.Crypto.RoundTrip.{opened-sealed}
use vexconnect.Transport.Send.{targets, deliveries, AllKept, send_to_all_lem}
use vexconnect.Transport.Deliver.{WritesWhole, send_to_all-delivers}
use vexconnect.System.{Os, IsOs, History, Event, clocked, displayed, ◌>>=◌}
use vexconnect.Transport.Speaks.{Speaks, Speaks-trans, Finds}
use vexconnect.Mesh.{send, send_packet, max_message, until_nul}
use vexconnect.Mesh.Relay.{blank, blank-IsPacket}
use vexconnect.Mesh.Show.{shown}
use vexconnect.Mesh.Send.{framed, Packs, send_packet-Packs}
use vexconnect.Mesh.Framed.{framed-ReadsBack, length-framed, framed-accepts, shown_of}

-- A message of more than 401 bytes is refused, and nothing changes.
pub send_refused :
    (os : Os) (nacl : Nacl) (node : Node) (message : List ℕ) (h : History)
    → max_message < length message
    → send os nacl node message h ≡ some ((err, node), h)
unfolding send
send_refused os nacl node message h long = rw (lt→ltb max_message (length message) long)

module _ (os : Os) (nacl : Nacl) (v : IsOs os) (w : IsNacl nacl) (node : Node) (message : List ℕ)
    (h : History) (small : length message ≤ max_message) where
  pub sealed : Encrypted os nacl node message (length message) (os.uninit h max_payload) h
  sealed =
      encrypt_broadcast-Encrypted os nacl node message (length message) (os.uninit h max_payload) h
        v w (omega arith) (omega arith) (v.uninit_size h max_payload)

  -- The nonce and the box: what the frame carries.
  pub body : List ℕ
  body = sealed.nonce ++ drop box_zero_bytes sealed.box

  pub payload : List ℕ
  payload = body ++ drop (length message + 40) (os.uninit h max_payload)

  pub length-body : length body ≡ length message + 40
  unfolding body
  length-body = omega (
    arith,
    length-append sealed.nonce (drop box_zero_bytes sealed.box),
    length-drop box_zero_bytes sealed.box,
    sealed.nonce_size,
    sealed.box_size,
  )

  pub length-payload : length payload ≡ max_payload
  unfolding payload
  length-payload = omega (
    arith,
    length-append body (drop (length message + 40) (os.uninit h max_payload)),
    length-body,
    length-drop (length message + 40) (os.uninit h max_payload),
    v.uninit_size h max_payload,
  )

  pub packs :
      Packs os nacl v w node
        (blank os h)
        payload
        (length message + 40)
        sealed.h'
        (blank-IsPacket os h v)
        length-payload
        (omega arith)
  packs =
      send_packet-Packs os nacl v w node (blank os h) payload (length message + 40) sealed.h'
        (blank-IsPacket os h v) length-payload (omega arith)

  pub sends :
      send os nacl node message h
      ≡ send_packet os nacl node (blank os h) payload (length message + 40) sealed.h'
  unfolding send body payload
  sends =
      let same : length message % 2 ^ 16 ≡ length message = omega arith in
      rw (le→ltb max_message (length message) small, same, sealed.runs, ◌>>=◌)

  pub frame_taken : take (header_size + (length message + 40)) packs.buf ≡ framed node packs.id body
  unfolding payload
  frame_taken =
      packs.starts
      ∙ ap (framed node packs.id) (
          take_prefix (length message + 40) body
            (drop (length message + 40) (os.uninit h max_payload)) (sym length-body))

  -- Before the id is added nothing is written to a socket.
  pub unspoken : Speaks (λ f. ⊥) h packs.h₁
  unspoken =
      Speaks-trans
        (subst (Finds (λ f. ⊥) h) sealed.runs (
          (encrypt_broadcast-Makes os nacl node message (length message)
              (os.uninit h max_payload)).at
            h))
        packs.drawn

  -- Whatever the kernel answers, a message of at most 401 bytes is sent with no access outside an array,
  -- each slot is kept or closed, and nothing is written to a socket before the id is added.
  pub send-AllKept :
      (id : List ℕ) × (h₁ : History) × (count : ℕ) × (peers : List Peer) × (events : List Event)
      × (send os nacl node message h
          ≡ some (
            (
              ok count,
              record node {
                peers = peers;
                seen = Seen.add node.seen id (os.time h₁);
                packets_sent = count_up node.packets_sent;
              },
            ),
            events ++ (clocked ∷ h₁),
          ))
      × (length id ≡ 8)
      × AllKept node.peers peers
      × (count ≡ targets minus_one peers)
      × Speaks (λ f. ⊥) h h₁
  send-AllKept =
      let marked = record node { seen = Seen.add node.seen packs.id (os.time packs.h₁) } in
      let (count, peers, events, run, kept, tally, quiet) =
        send_to_all_lem os marked packs.buf (header_size + (length message + 40)) minus_one
          (clocked ∷ packs.h₁) packs.room in
      (
        packs.id,
        packs.h₁,
        count,
        peers,
        events,
        sends
            ∙ packs.runs count (record marked { peers = peers }) (events ++ (clocked ∷ packs.h₁))
                run,
        packs.id_size,
        kept,
        tally,
        unspoken,
      )

  body_opens :
      (receiver : Node) (rest : List ℕ)
      → receiver.mesh_key ≡ node.mesh_key
      → opened_text nacl receiver (body ++ rest) (length message + 40) ≡ some message
  unfolding body
  body_opens receiver rest same =
      opened-sealed os nacl node receiver message (os.uninit h max_payload) rest (length message) h
        w same (omega arith) sealed
      ∙ ap some (take_all (length message) message (omega arith))

  -- What a receiver decodes of a frame with this body opens to the message.
  pub opens-parsed :
      (receiver : Node) (old : Packet) (id : List ℕ)
      → receiver.mesh_key ≡ node.mesh_key
      → length id ≡ 8
      → opened_text nacl receiver
          (parsed (framed node id body) (length (framed node id body)) old).payload
          (parsed (framed node id body) (length (framed node id body)) old).payload_len
        ≡ some message
  opens-parsed receiver old id same e =
      let frame = framed node id body in
      let back = framed-ReadsBack node id body e in
      let size : body_len (length frame) ≡ length message + 40 =
        omega (arith, length-framed node id body e, length-body) in
      let taken : take (length message + 40) (drop header_size frame) ≡ body =
        ap (take (length message + 40)) (back.followed ∙ append-nil body)
        ∙ take_all (length message + 40) body (omega (arith, length-body)) in
      ap (λ k. opened_text nacl receiver (take k (drop header_size frame) ++ drop k old.payload) k)
        size
      ∙ (ap
            (λ b.
              opened_text nacl receiver (b ++ drop (length message + 40) old.payload)
                (length message + 40))
            taken
          ∙ body_opens receiver (drop (length message + 40) old.payload) same)

  -- Where the kernel takes every write, the one frame of a message goes to every open peer.
  pub send-delivers :
      WritesWhole os
      → send os nacl node message h
        ≡ some (
          (
            ok (targets minus_one node.peers),
            record node {
              seen = Seen.add node.seen packs.id (os.time packs.h₁);
              packets_sent = count_up node.packets_sent;
            },
          ),
          deliveries minus_one (framed node packs.id body) node.peers (clocked ∷ packs.h₁),
        )
  send-delivers whole =
      let marked = record node { seen = Seen.add node.seen packs.id (os.time packs.h₁) } in
      let run =
        send_to_all-delivers os marked packs.buf (header_size + (length message + 40)) minus_one
          (clocked ∷ packs.h₁) packs.room whole in
      sends
      ∙ (packs.runs (targets minus_one node.peers) marked
            (deliveries minus_one (take (header_size + (length message + 40)) packs.buf) node.peers
              (clocked ∷ packs.h₁))
            run
          ∙ ap
              (λ f. some (
                (
                  ok (targets minus_one node.peers),
                  record marked { packets_sent = count_up node.packets_sent },
                ),
                deliveries minus_one f node.peers (clocked ∷ packs.h₁),
              ))
              frame_taken)
