-- ===== src/Tests/Frames.antt =====
-- Frames, peers and nodes.
use vexconnect.Prelude.{ℕ, ◌<◌, refl, List, [], ◌∷◌, ◌++◌, true, false, replicate, arith, Bytes}
use vexconnect.Prelude.Int.{pos}
use vexconnect.Node.{Peer, Node}
use vexconnect.Seen
use vexconnect.Packet.{Packet, IsPacket, vex_version}

abbrev pub some_id : List ℕ
some_id = 8 ∷ 7 ∷ 6 ∷ 5 ∷ 4 ∷ 3 ∷ 2 ∷ 1 ∷ []

-- A frame with this id, a TTL, no encryption, and a payload of two bytes.
abbrev pub frame_of : ℕ → List ℕ
frame_of ttl = 1 ∷ (some_id ++ (ttl ∷ 2 ∷ 104 ∷ 105 ∷ []))

pub frame-Bytes : (ttl : ℕ) → ttl < 256 → Bytes (frame_of ttl)
frame-Bytes ttl h = ground arith

abbrev pub peer_of : ℕ → Peer
peer_of fd = record {
  fd = pos fd;
  name = [];
  pubkey = [];
  active = true;
  rssi = pos 0;
  last_seen = 0;
}

-- A node with two peers and an empty cache.
abbrev pub a_node : Node
a_node = record {
  sign_pk = replicate 32 1;
  sign_sk = replicate 64 2;
  box_pk = replicate 32 3;
  box_sk = replicate 32 4;
  node_name = [];
  mesh_key = replicate 32 5;
  peers = peer_of 3 ∷ peer_of 4 ∷ [];
  peer_count = pos 2;
  seen = Seen.init;
  packets_sent = 0;
  packets_received = 0;
  packets_relayed = 0;
  packets_dropped = 0;
  started_at = 0;
  default_ttl = 7;
  scan_interval = 15;
  relay_enabled = true;
  lora_enabled = false;
  running = true;
  listen_fd = pos 5;
}

-- A packet with a payload of two bytes, and one that is all zeros.
abbrev pub a_packet : Packet
a_packet = record {
  version = vex_version;
  packet_id = some_id;
  ttl = 7;
  flags = 2;
  payload = 104 ∷ 105 ∷ replicate 499 0;
  payload_len = 2;
}

abbrev pub empty_packet : Packet
empty_packet = record {
  version = 0;
  packet_id = replicate 8 0;
  ttl = 0;
  flags = 0;
  payload = replicate 501 0;
  payload_len = 0;
}

pub a_packet-IsPacket : IsPacket a_packet
a_packet-IsPacket = record { id_size = refl; payload_size = refl }

pub empty_packet-IsPacket : IsPacket empty_packet
empty_packet-IsPacket = record { id_size = refl; payload_size = refl }
