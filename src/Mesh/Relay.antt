-- ===== src/Mesh/Relay.antt =====
-- `vex_mesh_relay`: which frames are forwarded, to whom, and with which bytes.
use vexconnect.Prelude.{
  ℕ, ◌-◌, ◌≤◌, ◌<◌, ◌≡◌, ◌∙◌, ap, List, ◌++◌, some, true, false, le→leb, lt→leb_false, sym,
  length-take, length-set, length-append, take_prefix, ok, err, arith, length, take, drop, set,
  get_or, Bytes, All, All-take, All-drop, if◌then◌else◌,
}
use vexconnect.Prelude.Int.{ℤ}
use vexconnect.Prelude.Memory.{length-take-drop}
use vexconnect.Node.{Peer, Node, count_up}
use vexconnect.Packet.{Packet, IsPacket, encode, decode, max_packet, max_payload}
use vexconnect.Packet.Decode.{decode_lem, parsed, accepts, accepts-Accepted}
use vexconnect.Packet.RoundTrip.{encode-parsed}
use vexconnect.Util.{hex}
use vexconnect.Util.Hex.{hex_lem}
use vexconnect.Transport.{send_to_all}
use vexconnect.Transport.Send.{targets, deliveries, spares, AllKept, send_to_all_lem}
use vexconnect.Transport.Deliver.{WritesWhole, send_to_all-delivers}
use vexconnect.System.{Os, IsOs, History, Event, ◌>>=◌}
use vexconnect.Mesh.{relay, forward}

-- The frame that a node passes on: the received one with its TTL byte lowered.
abbrev pub relayed : List ℕ → ℕ → List ℕ
relayed raw len = take len (set raw 9 (get_or raw 9 0 - 1))

-- The local packet before it is decoded into.
abbrev pub blank : Os → History → Packet
blank os h = record {
  version = 0;
  packet_id = os.uninit h 8;
  ttl = 0;
  flags = 0;
  payload = os.uninit h max_payload;
  payload_len = 0;
}

pub blank-IsPacket : (os : Os) (h : History) → IsOs os → IsPacket (blank os h)
blank-IsPacket os h v = record {
  id_size = v.uninit_size h 8;
  payload_size = v.uninit_size h max_payload;
}

-- The hexadecimal id of a log line fits its array of 17 bytes.
pub id_hex_runs :
    (os : Os) (id : List ℕ) (h : History)
    → IsOs os
    → Bytes id
    → length id ≡ 8
    → (out : List ℕ) × (hex id 8 (os.uninit h 17) ≡ some out)
id_hex_runs os id h v bytes size = (
  _,
  (hex_lem id (os.uninit h 17) 8 bytes (omega (arith, size)) (omega (arith, v.uninit_size h 17))).0,
)

forward_runs :
    (os : Os) (node node' : Node) (pkt : Packet) (source_fd : ℤ) (h h' : History)
    (wire out : List ℕ) (len n : ℕ)
    → encode pkt (os.uninit h max_packet) max_packet ≡ some (ok (len, wire))
    → send_to_all os node wire len source_fd h ≡ some ((n, node'), h')
    → hex pkt.packet_id 8 (os.uninit h' 17) ≡ some out
    → forward os node pkt source_fd h
      ≡ some ((ok n, record node' { packets_relayed = count_up node'.packets_relayed }), h')
unfolding forward
forward_runs os node node' pkt source_fd h h' wire out len n e s x =
    rw (e, ◌>>=◌) (rw (s, ◌>>=◌) (rw (x, ◌>>=◌)))

module _ (os : Os) (node : Node) (raw : List ℕ) (len : ℕ) (source_fd : ℤ) (h : History)
    (v : IsOs os) (inside : len ≤ length raw) (small : len ≤ max_packet) (bytes : Bytes raw) where
  read_packet :
      accepts raw len ≡ true → decode raw len (blank os h) ≡ some (ok (parsed raw len (blank os h)))
  read_packet acc =
      decode_lem raw len (blank os h) (blank-IsPacket os h v) inside
      ∙ ap (λ t. some (if t then ok (parsed raw len (blank os h)) else err)) acc

  -- A frame that does not decode is not forwarded, and nothing changes.
  pub relay_refused :
      accepts raw len ≡ false → relay os node raw len source_fd h ≡ some ((err, node), h)
  unfolding relay
  relay_refused rej = rw (
    decode_lem raw len (blank os h) (blank-IsPacket os h v) inside
        ∙ ap (λ t. some (if t then ok (parsed raw len (blank os h)) else err)) rej,
    ◌>>=◌,
  )

  -- A frame whose TTL is at most 1 is not forwarded, and nothing changes.
  pub relay_expired :
      accepts raw len ≡ true
      → get_or raw 9 0 ≤ 1
      → relay os node raw len source_fd h ≡ some ((ok 0, node), h)
  unfolding relay
  relay_expired acc old = rw (read_packet acc, ◌>>=◌) (rw (le→leb (get_or raw 9 0) 1 old))

  wire : List ℕ
  wire = relayed raw len ++ drop len (os.uninit h max_packet)

  length-relayed : length (relayed raw len) ≡ len
  length-relayed = omega (
    arith,
    length-take len (set raw 9 (get_or raw 9 0 - 1)),
    length-set raw 9 (get_or raw 9 0 - 1),
  )

  taken : take len wire ≡ relayed raw len
  unfolding wire
  taken = take_prefix len (relayed raw len) (drop len (os.uninit h max_packet)) (sym length-relayed)

  within : len ≤ length wire
  unfolding wire
  within =
      omega
        (arith, length-append (relayed raw len) (drop len (os.uninit h max_packet)), length-relayed)

  relay_forwards :
      (n : ℕ) (node' : Node) (h' : History)
      → accepts raw len ≡ true
      → 1 < get_or raw 9 0
      → send_to_all os node wire len source_fd h ≡ some ((n, node'), h')
      → relay os node raw len source_fd h
        ≡ some ((ok n, record node' { packets_relayed = count_up node'.packets_relayed }), h')
  unfolding relay wire
  relay_forwards n node' h' acc alive sent =
      let (out, shown) =
        id_hex_runs os (take 8 (drop 1 raw)) h' v
          (All-take (λ b. b < 256) 8 (drop 1 raw) (All-drop (λ b. b < 256) 1 raw bytes))
          (length-take-drop raw 1 8 (omega (arith, inside, (accepts-Accepted raw len acc).long))) in
      rw (read_packet acc, ◌>>=◌)
        (rw (lt→leb_false (get_or raw 9 0) 1 alive) (
          forward_runs os node node'
            (record (parsed raw len (blank os h)) { ttl = get_or raw 9 0 - 1 }) source_fd h h' wire
            out len n
            (encode-parsed raw (os.uninit h max_packet) len (get_or raw 9 0 - 1) (blank os h)
              (blank-IsPacket os h v) acc small inside (v.uninit_size h max_packet))
            sent shown))

  -- A frame of at most 512 bytes that decodes and has a TTL above 1 is forwarded: whatever the kernel answers there is no
  -- access outside an array, no write to the source and no closing of it, each slot is kept or closed,
  -- the number of the peers that are sent to is returned, one relayed packet is counted, and nothing else
  -- of the node changes.
  pub relay_any :
      accepts raw len ≡ true
      → 1 < get_or raw 9 0
      → (count : ℕ) × (peers : List Peer) × (events : List Event) × (relay os node raw len source_fd
            h
          ≡ some (
            (
              ok count,
              record node { peers = peers; packets_relayed = count_up node.packets_relayed },
            ),
            events ++ h,
          ))
        × AllKept node.peers peers
        × (count ≡ targets source_fd peers)
        × All (λ e. spares source_fd e ≡ true) events
  relay_any acc alive =
      let (count, peers, events, run, kept, tally, quiet) =
        send_to_all_lem os node wire len source_fd h within in
      (
        count,
        peers,
        events,
        relay_forwards count (record node { peers = peers }) (events ++ h) acc alive run,
        kept,
        tally,
        quiet,
      )

  -- Where the kernel takes every write, a frame of at most 512 bytes that decodes and has a TTL above 1 is
  -- forwarded: the received bytes with only the TTL lowered by one go once to
  -- each open peer but the source, in the order of the slots.
  pub relay-delivers :
      accepts raw len ≡ true
      → 1 < get_or raw 9 0
      → WritesWhole os
      → relay os node raw len source_fd h
        ≡ some (
          (
            ok (targets source_fd node.peers),
            record node { packets_relayed = count_up node.packets_relayed },
          ),
          deliveries source_fd (relayed raw len) node.peers h,
        )
  relay-delivers acc alive whole =
      relay_forwards (targets source_fd node.peers) node
        (deliveries source_fd (take len wire) node.peers h) acc alive
        (send_to_all-delivers os node wire len source_fd h within whole)
      ∙ ap
          (λ b. some (
            (
              ok (targets source_fd node.peers),
              record node { packets_relayed = count_up node.packets_relayed },
            ),
            deliveries source_fd b node.peers h,
          ))
          taken
