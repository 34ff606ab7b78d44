-- ===== src/Mesh/Send.antt =====
-- `vex_mesh_send`: the frame that a message becomes.
use vexconnect.Prelude.{
  Bytes, subst, ℕ, ◌+◌, ◌≤◌, ◌<◌, ◌≡◌, ◌∙◌, ap, sym, List, ◌∷◌, ◌++◌, some, ok, arith, length, take,
  drop, All-take, length-take, length-drop, length-append, take_prefix,
}
use vexconnect.Prelude.Memory.{memcpy, memcpy_start}
use vexconnect.Prelude.Int.{minus_one}
use vexconnect.Node.{Node, count_up}
use vexconnect.Nacl.{Nacl, IsNacl}
use vexconnect.Seen
use vexconnect.Packet.{
  Packet, IsPacket, wire, encode, max_packet, max_payload, vex_version, flag_encrypted,
  flag_broadcast, header_size,
}
use vexconnect.Packet.Encode.{encode_lem}
use vexconnect.Packet.Id.{make_id-Makes, make_id_lem}
use vexconnect.Transport.{send_to_all}
use vexconnect.System.{Os, IsOs, History, clocked, ◌>>=◌}
use vexconnect.Mesh.{send_packet}
use vexconnect.Transport.Speaks.{Speaks, Finds}
use vexconnect.Mesh.Relay.{id_hex_runs}

-- The frame of a payload.
abbrev pub framed : Node → List ℕ → List ℕ → List ℕ
framed node id body =
    vex_version ∷ (id ++ (node.default_ttl ∷ ((flag_encrypted + flag_broadcast) ∷ body)))

-- The packet that a payload is put into.
abbrev pub packed : Node → List ℕ → List ℕ → ℕ → List ℕ → Packet
packed node id encrypted n old = record {
  version = vex_version;
  packet_id = id;
  ttl = node.default_ttl;
  flags = flag_encrypted + flag_broadcast;
  payload = take n encrypted ++ drop n old;
  payload_len = n;
}

module _ (os : Os) (nacl : Nacl) (v : IsOs os) (w : IsNacl nacl) (node : Node) (pkt₀ : Packet)
    (encrypted : List ℕ) (n : ℕ) (h : History) (old : IsPacket pkt₀)
    (size : length encrypted ≡ max_payload) (small : n ≤ max_payload) where
  -- How the frame is made: its id, the array that holds it, and that it goes to the transport.
  pub record Packs : Type 0 where
    pub id : List ℕ
    pub h₁ : History
    pub buf : List ℕ
    pub id_size : length id ≡ 8
    pub id_u8 : Bytes id
    pub starts : take (header_size + n) buf ≡ framed node id (take n encrypted)
    pub room : header_size + n ≤ length buf
    pub drawn : Speaks (λ f. ⊥) h h₁
    pub runs :
        (count : ℕ) (node' : Node) (h' : History)
        → send_to_all os
            (record node { seen = Seen.add node.seen id (os.time h₁) })
            buf
            (header_size + n)
            minus_one
            (clocked ∷ h₁)
          ≡ some ((count, node'), h')
        → send_packet os nacl node pkt₀ encrypted n h
          ≡ some ((ok count, record node' { packets_sent = count_up node'.packets_sent }), h')

  copied : memcpy pkt₀.payload 0 encrypted 0 n ≡ some (take n encrypted ++ drop n pkt₀.payload)
  copied = memcpy_start pkt₀.payload encrypted 0 n (omega arith) (omega (arith, old.payload_size))

  packed-IsPacket :
      (id : List ℕ) → length id ≡ 8 → IsPacket (packed node id encrypted n pkt₀.payload)
  packed-IsPacket id e = record {
    id_size = e;
    payload_size = omega (
      arith,
      length-append (take n encrypted) (drop n pkt₀.payload),
      length-take n encrypted,
      length-drop n pkt₀.payload,
      old.payload_size,
    );
  }

  wire-packed :
      (id : List ℕ)
      → wire (packed node id encrypted n pkt₀.payload) ≡ framed node id (take n encrypted)
  wire-packed id = ap (framed node id) (
      take_prefix n (take n encrypted) (drop n pkt₀.payload)
        (omega (arith, length-take n encrypted)))

  encoded :
      (id wire₀ : List ℕ)
      → length id ≡ 8
      → length wire₀ ≡ max_packet
      → encode (packed node id encrypted n pkt₀.payload) wire₀ max_packet
        ≡ some (
            ok (header_size + n, framed node id (take n encrypted) ++ drop (header_size + n) wire₀))
  encoded id wire₀ e e₀ =
      ground (
        arith,
        encode_lem (packed node id encrypted n pkt₀.payload) wire₀ max_packet (packed-IsPacket id e)
            (omega arith),
      )
      ∙ ap (λ b. some (ok (header_size + n, b ++ drop (header_size + n) wire₀))) (wire-packed id)

  pub send_packet-Packs : Packs
  unfolding send_packet
  send_packet-Packs =
      let (nonce, h₁, drawn, nonce_size, made) =
        make_id_lem os nacl encrypted n pkt₀.packet_id h v w (omega arith) small old.id_size in
      let hash = nacl.hash (take n encrypted ++ nonce) in
      let id = take 8 hash in
      let id_size : length id ≡ 8 =
        omega (arith, length-take 8 hash, w.hash_size (take n encrypted ++ nonce)) in
      let wire₀ = os.uninit h max_packet in
      let frame = framed node id (take n encrypted) in
      let frame_size : length frame ≡ header_size + n = omega (
        arith,
        length-append id (node.default_ttl ∷ (3 ∷ take n encrypted)),
        length-take n encrypted,
      ) in
      record {
        id = id;
        h₁ = h₁;
        buf = frame ++ drop (header_size + n) wire₀;
        id_size = id_size;
        id_u8 = All-take (λ b. b < 256) 8 hash (w.hash_bytes (take n encrypted ++ nonce));
        starts =
            take_prefix (header_size + n) frame (drop (header_size + n) wire₀) (sym frame_size);
        room = omega (arith, length-append frame (drop (header_size + n) wire₀), frame_size);
        drawn =
            subst (Finds (λ f. ⊥) h) made ((make_id-Makes os nacl encrypted n pkt₀.packet_id).at h);
        runs = λ count node' h' sent.
            let (out, shown) =
              id_hex_runs os id h' v
                (All-take (λ b. b < 256) 8 hash (w.hash_bytes (take n encrypted ++ nonce)))
                id_size in
            rw (copied, ◌>>=◌)
              (rw (made, ◌>>=◌)
                (rw (encoded id wire₀ id_size (v.uninit_size h max_packet))
                  (rw (sent, ◌>>=◌) (rw (shown, ◌>>=◌)))));
      }
