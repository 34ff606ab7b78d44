-- ===== src/Mesh.antt =====
-- src/mesh.c: sending, receiving and relaying packets. A log line is not modelled; the line that
-- shows a message is.
pub mod Send
pub mod Framed
pub mod Message
pub mod Relay
pub mod Show
pub mod Receive
pub mod Once
pub mod Steps
pub mod Traffic
pub mod Hops
pub mod Wire
pub mod Speech
pub mod Network
pub mod Branches
pub mod Across
pub mod Reaches
use vexconnect.Prelude.{
  ℕ, zero, suc, ◌+◌, ◌-◌, ◌%◌, ◌^◌, List, [], ◌∷◌, some, Bool, true, false, not, ltb, leb, ◌==◌,
  if◌then◌else◌, Ret, ok, err, length, bit_and,
}
use vexconnect.Prelude.Int.{ℤ, minus_one}
use vexconnect.Prelude.Memory.{memcpy, store}
use vexconnect.Node.{Node, count_up}
use vexconnect.Seen
use vexconnect.Packet.{
  Packet, vex_version, max_packet, max_payload, flag_encrypted, flag_broadcast, encode, decode,
}
use vexconnect.Packet.Id.{make_id}
use vexconnect.Util.{hex}
use vexconnect.Transport.{send_to_all}
use vexconnect.Crypto.{encrypt_broadcast, decrypt_broadcast}
use vexconnect.Nacl.{Nacl}
use vexconnect.System.{Os, Io, displayed, ◌>>=◌, ◌>>◌, return, lift, call, uninit, time}

-- The text that `%s` prints of an array: the bytes before the first zero.
abbrev pub until_nul : List ℕ → List ℕ
until_nul [] = []
until_nul (b ∷ bs) = if b == 0 then [] else b ∷ until_nul bs

-- The longest message: 401 bytes.
abbrev pub max_message : ℕ
max_message = max_payload - 100

-- A local `vex_packet_t`. Its numbers are written before they are read.
abbrev pub uninit_packet : Os → Io Packet
uninit_packet os = do
  id ← uninit os 8
  payload ← uninit os max_payload
  return (record {
    version = 0;
    packet_id = id;
    ttl = 0;
    flags = 0;
    payload = payload;
    payload_len = 0;
  })

module _ (os : Os) where
  -- The hexadecimal id that the log lines show.
  abbrev pub id_hex : Packet → Io (List ℕ)
  id_hex pkt = do out ← uninit os 17; lift (hex pkt.packet_id 8 out)

  -- `vex_mesh_relay` behind the test of the TTL.
  pub forward : Node → Packet → ℤ → Io (Ret ℕ × Node)
  forward node pkt source_fd = do
    wire₀ ← uninit os max_packet
    r ← lift (encode pkt wire₀ max_packet)
    elim r [
      | err ↦ return (err, node)
      | ok (wire_len, wire) ↦ do
        sent ← send_to_all os node wire wire_len source_fd
        let node' = sent.1
        shown ← id_hex pkt
        return (ok sent.0, record node' { packets_relayed = count_up node'.packets_relayed })
    ]

  -- `vex_mesh_relay`
  pub relay : Node → List ℕ → ℕ → ℤ → Io (Ret ℕ × Node)
  unfolding forward
  relay node raw len source_fd = do
    pkt₀ ← uninit_packet os
    r ← lift (decode raw len pkt₀)
    elim r [
      | err ↦ return (err, node)
      | ok pkt ↦
          if leb pkt.ttl 1
          then return (ok 0, node)
          else forward node (record pkt { ttl = pkt.ttl - 1 }) source_fd
    ]

  abbrev pub dropped : Node → Node
  dropped node = record node { packets_dropped = count_up node.packets_dropped }

  module _ (nacl : Nacl) where
    -- The part of `vex_mesh_receive` that decrypts and shows a message.
    pub show_payload : Node → Packet → Io (Unit {0})
    show_payload node pkt = if bit_and pkt.flags flag_encrypted == 0 then return tt else do
      plaintext ← uninit os max_payload
      r ← decrypt_broadcast os nacl node pkt.payload pkt.payload_len plaintext
      elim r [
        | err ↦ return tt
        | ok (plain, plain_len) ↦ do
          plain' ← lift (store plain plain_len 0)
          call (displayed (until_nul plain') pkt.ttl node.default_ttl)
      ]

    -- `vex_mesh_receive` of a packet that is new.
    pub receive_new : Node → Packet → List ℕ → ℕ → ℤ → Io (Ret ℕ × Node)
    receive_new node pkt raw len source_fd = do
      now ← time os
      let node' = record node {
        seen = Seen.add node.seen pkt.packet_id now;
        packets_received = count_up node.packets_received;
      }
      show_payload node' pkt
      if node'.relay_enabled then relay node' raw len source_fd else return (ok 0, node')

    -- `vex_mesh_receive` of a packet that was decoded.
    pub receive_packet : Node → Packet → List ℕ → ℕ → ℤ → Io (Ret ℕ × Node)
    receive_packet node pkt raw len source_fd =
        if not (pkt.version == vex_version) then return (err, dropped node) else do
          shown ← id_hex pkt
          now ← time os
          let (seen, cache) = Seen.check node.seen pkt.packet_id now
          let node' = record node { seen = cache }
          if seen then return (ok 0, dropped node') else receive_new node' pkt raw len source_fd

    -- `vex_mesh_receive`
    pub receive : Node → List ℕ → ℕ → ℤ → Io (Ret ℕ × Node)
    receive node raw len source_fd = do
      pkt₀ ← uninit_packet os
      r ← lift (decode raw len pkt₀)
      elim r [
        | err ↦ return (err, dropped node)
        | ok pkt ↦ receive_packet node pkt raw len source_fd
      ]

    -- `vex_mesh_send` from the packet on.
    pub send_packet : Node → Packet → List ℕ → ℕ → Io (Ret ℕ × Node)
    send_packet node pkt₀ encrypted encrypted_len = do
      wire₀ ← uninit os max_packet
      payload ← lift (memcpy pkt₀.payload 0 encrypted 0 encrypted_len)
      id ← make_id os nacl encrypted encrypted_len pkt₀.packet_id
      let pkt : Packet = record {
        version = vex_version;
        packet_id = id;
        ttl = node.default_ttl;
        flags = flag_encrypted + flag_broadcast;
        payload = payload;
        payload_len = encrypted_len;
      }
      now ← time os
      let node' = record node { seen = Seen.add node.seen id now }
      r ← lift (encode pkt wire₀ max_packet)
      elim r [
        | err ↦ return (err, node')
        | ok (wire_len, wire) ↦ do
          sent ← send_to_all os node' wire wire_len minus_one
          let node'' = sent.1
          shown ← id_hex pkt
          return (ok sent.0, record node'' { packets_sent = count_up node''.packets_sent })
      ]

    -- `vex_mesh_send` of the bytes of a text.
    pub send : Node → List ℕ → Io (Ret ℕ × Node)
    send node message = do
      pkt₀ ← uninit_packet os
      encrypted₀ ← uninit os max_payload
      if ltb max_message (length message) then return (err, node) else do
        r ← encrypt_broadcast os nacl node message (length message % 2 ^ 16) encrypted₀
        elim r [
          | err ↦ return (err, node)
          | ok (encrypted, encrypted_len) ↦ send_packet node pkt₀ encrypted encrypted_len
        ]
