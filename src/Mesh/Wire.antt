-- ===== src/Mesh/Wire.antt =====
-- What the mesh layer writes to the sockets.
use vexconnect.Prelude.{
  ℕ, ◌-◌, ◌<◌, ◌≡◌, List, some, Ret, ok, err, leb, if◌then◌else◌, take, length, arith,
}
use vexconnect.Prelude.Int.{ℤ}
use vexconnect.Prelude.Memory.{store}
use vexconnect.Node.{Node, count_up}
use vexconnect.Nacl.{Nacl}
use vexconnect.Packet.{Packet, IsPacket, encode, decode, max_packet}
use vexconnect.Packet.Encoded.{encode-IsFrame}
use vexconnect.Crypto.Wire.{decrypt_broadcast-Makes}
use vexconnect.System.{Os, IsOs, Io, History, displayed, ◌>>=◌, return, lift, call}
use vexconnect.Transport.{send_to_all}
use vexconnect.Transport.Speaks.{Makes, makes_rules, Makes-bind_lift, Makes-if, Finds-lift}
use vexconnect.Transport.Wire.{send_to_all-Makes}
use vexconnect.Mesh.Relay.{blank, blank-IsPacket}
use vexconnect.Mesh.{
  id_hex, forward, relay, show_payload, receive_new, receive_packet, receive, until_nul, dropped,
}

-- Every frame that the encoder may make of a packet, in an array of 512 bytes, is in Q.
abbrev pub Encodes : (List ℕ → Type 0) → Packet → Type 0
Encodes Q pkt =
    (buf w : List ℕ) (n : ℕ)
    → length buf ≡ max_packet
    → encode pkt buf max_packet ≡ some (ok (n, w))
    → Q (take n w)

-- Every frame that may be made of a received one is in Q: its packet, with the TTL lowered by one.
abbrev pub Passes : (List ℕ → Type 0) → List ℕ → ℕ → Type 0
Passes Q raw len =
    (old pkt : Packet)
    → IsPacket old
    → decode raw len old ≡ some (ok pkt)
    → 1 < pkt.ttl
    → Encodes Q (record pkt { ttl = pkt.ttl - 1 })

module _ (Q : List ℕ → Type 0) (os : Os) (v : IsOs os) where
  forward-Makes :
      (node : Node) (pkt : Packet) (fd : ℤ) → Encodes Q pkt → Makes Q (forward os node pkt fd)
  unfolding forward
  forward-Makes node pkt fd good = record {
    at = λ h.
        Finds-lift Q (encode pkt (os.uninit h max_packet) max_packet) _ h
          (λ r e. (encoded (os.uninit h max_packet) r (v.uninit_size h max_packet) e).at h);
  }
    where
      encoded :
          (wire₀ : List ℕ) (r : Ret (ℕ × List ℕ))
          → length wire₀ ≡ max_packet
          → encode pkt wire₀ max_packet ≡ some r
          → Makes Q (elim r as (λ u. Io (Ret ℕ × Node)) [
            | err ↦ return (err, node)
            | ok (wire_len, wire) ↦ do
              sent ← send_to_all os node wire wire_len fd
              let node' = sent.1
              shown ← id_hex os pkt
              return (ok sent.0, record node' { packets_relayed = count_up node'.packets_relayed })
          ])
      encoded wire₀ err size e = search makes_rules
      encoded wire₀ (ok (n, w)) size e =
          let sent =
            send_to_all-Makes Q os w n (encode-IsFrame pkt wire₀ w max_packet n e).0
              (good wire₀ w n size e) in
          search (makes_rules, sent)

  pub relay-Makes :
      (node : Node) (raw : List ℕ) (len : ℕ) (fd : ℤ)
      → Passes Q raw len
      → Makes Q (relay os node raw len fd)
  unfolding relay
  relay-Makes node raw len fd good = record { at = λ h. (passed h).at h }
    where
      decoded :
          (h : History) (r : Ret Packet)
          → decode raw len (blank os h) ≡ some r
          → Makes Q (elim r as (λ u. Io (Ret ℕ × Node)) [
            | err ↦ return (err, node)
            | ok pkt ↦
                if leb pkt.ttl 1
                then return (ok 0, node)
                else forward os node (record pkt { ttl = pkt.ttl - 1 }) fd
          ])
      decoded h err e = search makes_rules
      decoded h (ok pkt) e =
          Makes-if (leb pkt.ttl 1) _ _ (λ old. search makes_rules)
            (λ alive.
              forward-Makes node (record pkt { ttl = pkt.ttl - 1 }) fd
                (good (blank os h) pkt (blank-IsPacket os h v) e (ground arith)))

      passed :
          (h : History)
          → Makes Q (do
            r ← lift (decode raw len (blank os h))
            elim r as (λ u. Io (Ret ℕ × Node)) [
              | err ↦ return (err, node)
              | ok pkt ↦
                  if leb pkt.ttl 1
                  then return (ok 0, node)
                  else forward os node (record pkt { ttl = pkt.ttl - 1 }) fd
            ])
      passed h = Makes-bind_lift (decode raw len (blank os h)) _ (decoded h)

module _ (Q : List ℕ → Type 0) (os : Os) (v : IsOs os) (nacl : Nacl) where
  show_payload-Makes : (node : Node) (pkt : Packet) → Makes Q (show_payload os nacl node pkt)
  unfolding show_payload
  show_payload-Makes node pkt = search (makes_rules, decrypt_broadcast-Makes, opened) depth 8
    where
      opened :
          (r : Ret (List ℕ × ℕ))
          → Makes Q (elim r as (λ u. Io (Unit {0})) [
            | err ↦ return tt
            | ok (plain, plain_len) ↦ do
              plain' ← lift (store plain plain_len 0)
              call (displayed (until_nul plain') pkt.ttl node.default_ttl)
          ])
      opened err = search makes_rules
      opened (ok (plain, plain_len)) = search makes_rules

  -- A handler writes nothing but frames that are made of the one that it got.
  pub receive-Makes :
      (node : Node) (raw : List ℕ) (len : ℕ) (fd : ℤ)
      → Passes Q raw len
      → Makes Q (receive os nacl node raw len fd)
  unfolding receive receive_packet receive_new
  receive-Makes node raw len fd good = search (makes_rules, decoded) depth 10
    where
      passed : (n : Node) → Makes Q (relay os n raw len fd)
      passed n = relay-Makes Q os v n raw len fd good

      decoded :
          (r : Ret Packet)
          → Makes Q (elim r as (λ u. Io (Ret ℕ × Node)) [
            | err ↦ return (err, dropped os node)
            | ok pkt ↦ receive_packet os nacl node pkt raw len fd
          ])
      decoded err = search makes_rules
      decoded (ok pkt) = search (makes_rules, show_payload-Makes, passed) depth 12
