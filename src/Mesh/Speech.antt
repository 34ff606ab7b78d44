-- ===== src/Mesh/Speech.antt =====
-- What `vex_mesh_send` writes to the sockets.
use vexconnect.Prelude.{
  ℕ, ◌+◌, ◌≡◌, List, ◌∷◌, ◌%◌, ◌^◌, refl, some, Ret, ok, err, ltb, if◌then◌else◌, length,
}
use vexconnect.Prelude.Int.{minus_one}
use vexconnect.Prelude.Memory.{memcpy}
use vexconnect.Node.{Node, count_up}
use vexconnect.Nacl.{Nacl}
use vexconnect.Packet.{
  Packet, encode, max_packet, max_payload, vex_version, flag_encrypted, flag_broadcast,
}
use vexconnect.Seen
use vexconnect.Packet.Encoded.{encode-IsFrame}
use vexconnect.Packet.Id.{make_id, make_id-Makes}
use vexconnect.Crypto.{encrypt_broadcast}
use vexconnect.Crypto.Wire.{encrypt_broadcast-Makes}
use vexconnect.System.{Os, IsOs, Io, History, ◌>>=◌, return, lift, clocked}
use vexconnect.Transport.{send_to_all}
use vexconnect.Transport.Speaks.{
  Finds, Makes, makes_rules, Finds-lift, Finds-seq, Finds-from, quiet, silent,
}
use vexconnect.Transport.Wire.{send_to_all-Makes}
use vexconnect.Mesh.Relay.{blank}
use vexconnect.Mesh.{id_hex, send_packet, send, max_message}
use vexconnect.Mesh.Wire.{Encodes}

module _ (Q : List ℕ → Type 0) (os : Os) (v : IsOs os) (nacl : Nacl) where
  send_packet-Makes :
      (node : Node) (pkt₀ : Packet) (encrypted : List ℕ) (len : ℕ)
      → ((pkt : Packet) → pkt.ttl ≡ node.default_ttl → Encodes Q pkt)
      → Makes Q (send_packet os nacl node pkt₀ encrypted len)
  unfolding send_packet
  send_packet-Makes node pkt₀ encrypted len good = record {
    at = λ h. Finds-lift Q (memcpy pkt₀.payload 0 encrypted 0 len) _ h (λ payload e.
        Finds-seq _ h (make_id os nacl encrypted len pkt₀.packet_id h)
          ((make_id-Makes os nacl encrypted len pkt₀.packet_id).at h)
          (λ id. record {
            at = λ h'. Finds-from _ (quiet clocked tt silent) (
                transmitted (record node { seen = Seen.add node.seen id (os.time h') })
                  (packet_of id payload) (os.uninit h max_packet) (v.uninit_size h max_packet) refl
                  (clocked ∷ h'));
          }));
  }
    where
      packet_of : List ℕ → List ℕ → Packet
      packet_of id payload = record {
        version = vex_version;
        packet_id = id;
        ttl = node.default_ttl;
        flags = flag_encrypted + flag_broadcast;
        payload = payload;
        payload_len = len;
      }

      encoded :
          (node' : Node) (pkt : Packet) (wire₀ : List ℕ) (r : Ret (ℕ × List ℕ))
          → length wire₀ ≡ max_packet
          → pkt.ttl ≡ node.default_ttl
          → encode pkt wire₀ max_packet ≡ some r
          → Makes Q (elim r as (λ u. Io (Ret ℕ × Node)) [
            | err ↦ return (err, node')
            | ok (wire_len, wire) ↦ do
              sent ← send_to_all os node' wire wire_len minus_one
              let node'' = sent.1
              shown ← id_hex os pkt
              return (ok sent.0, record node'' { packets_sent = count_up node''.packets_sent })
          ])
      encoded node' pkt wire₀ err size same e = search makes_rules
      encoded node' pkt wire₀ (ok (n, w)) size same e =
          let room = (encode-IsFrame pkt wire₀ w max_packet n e).0 in
          let sent = send_to_all-Makes Q os w n room (good pkt same wire₀ w n size e) in
          search (makes_rules, sent)

      transmitted :
          (node' : Node) (pkt : Packet) (wire₀ : List ℕ)
          → length wire₀ ≡ max_packet
          → pkt.ttl ≡ node.default_ttl
          → (h : History)
          → Finds Q h (
              (do
                r ← lift (encode pkt wire₀ max_packet)
                elim r as (λ u. Io (Ret ℕ × Node)) [
                  | err ↦ return (err, node')
                  | ok (wire_len, wire) ↦ do
                    sent ← send_to_all os node' wire wire_len minus_one
                    let node'' = sent.1
                    shown ← id_hex os pkt
                    return
                        (ok sent.0, record node'' { packets_sent = count_up node''.packets_sent })
                ])
                h)
      transmitted node' pkt wire₀ size same h =
          Finds-lift Q (encode pkt wire₀ max_packet) _ h
            (λ r e. (encoded node' pkt wire₀ r size same e).at h)

  -- A message is sent in frames that the encoder makes of a packet with the node's TTL, and in no other way.
  pub send-Makes :
      (node : Node) (message : List ℕ)
      → ((pkt : Packet) → pkt.ttl ≡ node.default_ttl → Encodes Q pkt)
      → Makes Q (send os nacl node message)
  unfolding send
  send-Makes node message good = record {
    at = λ h. (tail (blank os h) (os.uninit h max_payload)).at h;
  }
    where
      sealed :
          (pkt₀ : Packet) (r : Ret (List ℕ × ℕ))
          → Makes Q (elim r as (λ u. Io (Ret ℕ × Node)) [
            | err ↦ return (err, node)
            | ok (encrypted, encrypted_len) ↦ send_packet os nacl node pkt₀ encrypted encrypted_len
          ])
      sealed pkt₀ err = search makes_rules
      sealed pkt₀ (ok (c, n)) = send_packet-Makes node pkt₀ c n good

      tail :
          (pkt₀ : Packet) (encrypted₀ : List ℕ)
          → Makes Q (
              if ltb max_message (length message) then return (err, node) else do
                r ← encrypt_broadcast os nacl node message (length message % 2 ^ 16) encrypted₀
                elim r as (λ u. Io (Ret ℕ × Node)) [
                  | err ↦ return (err, node)
                  | ok (encrypted, encrypted_len) ↦
                      send_packet os nacl node pkt₀ encrypted encrypted_len
                ])
      tail pkt₀ encrypted₀ = search (makes_rules, encrypt_broadcast-Makes, sealed pkt₀)
