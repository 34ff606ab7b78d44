-- ===== src/Mesh/Message/Carried.antt =====
-- The frame that a message is sent in, and that it is the only one.
use vexconnect.Prelude.{
  ℕ, ◌+◌, ◌≤◌, ◌<◌, ◌≡◌, subst, ◌∙◌, List, ◌∷◌, ◌++◌, some, true, arith, length, take, drop, get_or,
  Bytes, All-append, All-drop, All-take, Ret, ok,
}
use vexconnect.Prelude.Int.{minus_one}
use vexconnect.Node.{Node, count_up}
use vexconnect.Nacl.{Nacl, IsNacl}
use vexconnect.Seen
use vexconnect.Packet.{Packet, max_packet, header_size}
use vexconnect.Packet.Decode.{accepts, parsed}
use vexconnect.Util.Drawn.{randombytes-Bytes}
use vexconnect.Crypto.{box_zero_bytes, nonce_bytes, zero_bytes}
use vexconnect.Crypto.Encrypt.{zeros}
use vexconnect.Crypto.Decrypt.{opened_text}
use vexconnect.Transport.Send.{send_to_all_lem, targets, deliveries}
use vexconnect.Transport.Deliver.{WritesWhole}
use vexconnect.Transport.Wire.{send_to_all-Makes}
use vexconnect.Transport.Speaks.{Speaks, Speaks-map, Speaks-trans, Finds, quiet, silent}
use vexconnect.System.{Os, IsOs, History, clocked}
use vexconnect.Mesh.{send, max_message}
use vexconnect.Mesh.Send.{framed}
use vexconnect.Mesh.Framed.{framed-ReadsBack, framed-accepts, length-framed}
use vexconnect.Mesh.Message.{
  sealed, body, packs, sends, frame_taken, length-body, opens-parsed, unspoken, send-delivers,
}

-- A frame carries a message of a node.
pub record Carries (nacl : Nacl) (node : Node) (message frame : List ℕ) : Type 0 where
  pub bytes : Bytes frame
  pub small : length frame ≤ max_packet
  pub decodes : accepts frame (length frame) ≡ true
  pub timed : get_or frame 9 0 ≡ node.default_ttl
  pub flagged : get_or frame 10 0 ≡ 3
  pub opens :
      (receiver : Node) (old : Packet)
      → receiver.mesh_key ≡ node.mesh_key
      → opened_text nacl receiver
          (parsed frame (length frame) old).payload
          (parsed frame (length frame) old).payload_len
        ≡ some message

module _ (os : Os) (nacl : Nacl) (v : IsOs os) (w : IsNacl nacl) (node : Node) (message : List ℕ)
    (h : History) (small : length message ≤ max_message) where
  text : List ℕ
  text = body os nacl v w node message h small

  pub frame : List ℕ
  frame = framed node (packs os nacl v w node message h small).id text

  -- The frame carries the id that is added to the cache.
  pub frame_id_lem : take 8 (drop 1 frame) ≡ (packs os nacl v w node message h small).id
  unfolding frame
  frame_id_lem =
      let p = packs os nacl v w node message h small in
      (framed-ReadsBack node p.id text p.id_size).identified

  -- Where the kernel takes every write, the frame goes to every open peer.
  pub send-frame_whole :
      WritesWhole os
      → send os nacl node message h
        ≡ some (
          (
            ok (targets minus_one node.peers),
            record node {
              seen =
                  Seen.add node.seen
                    (packs os nacl v w node message h small).id
                    (os.time (packs os nacl v w node message h small).h₁);
              packets_sent = count_up node.packets_sent;
            },
          ),
          deliveries minus_one frame node.peers
              (clocked ∷ (packs os nacl v w node message h small).h₁),
        )
  unfolding frame text
  send-frame_whole whole = send-delivers os nacl v w node message h small whole

  text-Bytes : Bytes message → Bytes text
  unfolding text body
  text-Bytes clean =
      let e = sealed os nacl v w node message h small in
      All-append (λ b. b < 256) e.nonce (drop box_zero_bytes e.box)
        (randombytes-Bytes os (os.uninit h nonce_bytes) e.nonce nonce_bytes h e.h' v
          (v.uninit_bytes h nonce_bytes) e.drawn)
        (All-drop (λ b. b < 256) box_zero_bytes e.box
          (w.box_bytes (zeros zero_bytes ++ take (length message) message) e.nonce node.mesh_key
            e.box e.boxed
            (All-append (λ b. b < 256) (zeros zero_bytes) (take (length message) message)
              (ground arith) (All-take (λ b. b < 256) (length message) message clean))))

  pub frame-Carries : Bytes message → node.default_ttl < 256 → Carries nacl node message frame
  unfolding frame text
  frame-Carries clean ttl =
      let p = packs os nacl v w node message h small in
      let b = body os nacl v w node message h small in
      let size : length b ≡ length message + 40 = length-body os nacl v w node message h small in
      let back = framed-ReadsBack node p.id b p.id_size in
      record {
        bytes = (
          omega arith,
          All-append (λ x. x < 256) p.id (node.default_ttl ∷ (3 ∷ b)) p.id_u8
              (ttl, (omega arith, text-Bytes clean)),
        );
        small = omega (arith, length-framed node p.id b p.id_size, size);
        decodes = framed-accepts node p.id b p.id_size (omega (arith, size));
        timed = back.timed;
        flagged = back.flagged;
        opens = λ receiver old same.
            opens-parsed os nacl v w node message h small receiver old p.id same p.id_size;
      }

  -- Whatever the kernel answers, a message is sent in this one frame, and in no other bytes.
  pub send-frame :
      (r : Ret ℕ) × (node' : Node) × (h' : History) × (send os nacl node message h
        ≡ some ((r, node'), h'))
      × Speaks (λ f. f ≡ frame) h h'
  unfolding frame text
  send-frame =
      let p = packs os nacl v w node message h small in
      let marked = record node { seen = Seen.add node.seen p.id (os.time p.h₁) } in
      let total = header_size + (length message + 40) in
      let (count, peers, events, run, kept, tally, spared) =
        send_to_all_lem os marked p.buf total minus_one (clocked ∷ p.h₁) p.room in
      let taken = frame_taken os nacl v w node message h small in
      (
        ok count,
        _,
        events ++ (clocked ∷ p.h₁),
        sends os nacl v w node message h small
            ∙ p.runs count (record marked { peers = peers }) (events ++ (clocked ∷ p.h₁)) run,
        Speaks-trans
            (Speaks-trans (Speaks-map (λ f e. absurd e) (unspoken os nacl v w node message h small))
              (quiet clocked tt silent))
            (subst (Finds (λ f. f ≡ frame) (clocked ∷ p.h₁)) run (
              (send_to_all-Makes (λ f. f ≡ frame) os p.buf total p.room taken marked minus_one).at
                (clocked ∷ p.h₁))),
      )
