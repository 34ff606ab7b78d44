-- ===== src/Packet/Decode.antt =====
-- What `vex_packet_decode` accepts and reads.
use vexconnect.Prelude.{
  ℕ, ◌+◌, ◌-◌, ◌%◌, ◌^◌, ◌≤◌, ◌<◌, ◌≡◌, List, ◌++◌, some, Bool, true, ◌&&◌, leb, ◌==◌,
  if◌then◌else◌, ok, err, arith, length, take, drop, get_or, append-nil, drop_all,
}
use vexconnect.Prelude.Memory.{memcpy, memcpy_start, load_lem}
use vexconnect.Packet.{Packet, IsPacket, decode, header_size, max_payload, max_packet, vex_version}

-- The `uint16_t` payload length of a packet of len bytes.
abbrev pub body_len : ℕ → ℕ
body_len len = (len - header_size) % 2 ^ 16

-- The packet that len bytes stand for, read over an old packet.
abbrev pub parsed : List ℕ → ℕ → Packet → Packet
parsed buf len pkt = record {
  version = get_or buf 0 0;
  packet_id = take 8 (drop 1 buf);
  ttl = get_or buf 9 0;
  flags = get_or buf 10 0;
  payload = take (body_len len) (drop header_size buf) ++ drop (body_len len) pkt.payload;
  payload_len = body_len len;
}

abbrev pub accepts : List ℕ → ℕ → Bool
accepts buf len =
    leb header_size len && (get_or buf 0 0 == vex_version && leb (body_len len) max_payload)

pub record Accepted (buf : List ℕ) (len : ℕ) : Type 0 where
  pub long : header_size ≤ len
  pub versioned : get_or buf 0 0 ≡ vex_version
  pub short : body_len len ≤ max_payload

pub accepts-Accepted : (buf : List ℕ) (len : ℕ) → accepts buf len ≡ true → Accepted buf len
accepts-Accepted buf len h = ground arith

module _ (buf : List ℕ) (len : ℕ) (pkt : Packet) (v : IsPacket pkt) (room : len ≤ length buf) where
  read_id : header_size ≤ len → memcpy pkt.packet_id 0 buf 1 8 ≡ some (take 8 (drop 1 buf))
  read_id h = rw (
    memcpy_start pkt.packet_id buf 1 8 (omega arith) (omega (arith, v.id_size)),
    drop_all 8 pkt.packet_id (omega (arith, v.id_size)),
    append-nil (take 8 (drop 1 buf)),
  )

  read_payload :
      header_size ≤ len
      → body_len len ≤ max_payload
      → memcpy pkt.payload 0 buf header_size (body_len len) ≡ some (parsed buf len pkt).payload
  read_payload h k =
      memcpy_start pkt.payload buf header_size (body_len len) (omega arith)
        (omega (arith, v.payload_size))

-- On arrays of the declared sizes the decoder never leaves them. It reports an error exactly if there
-- are fewer than 11 bytes, the first is not the version, or the length of the payload, taken modulo
-- 2 ^ 16, is above 501; otherwise it reads the fields from their places.
pub decode_lem :
    (buf : List ℕ) (len : ℕ) (pkt : Packet) (v : IsPacket pkt) (room : len ≤ length buf)
    → decode buf len pkt ≡ some (if accepts buf len then ok (parsed buf len pkt) else err)
unfolding decode
decode_lem buf len pkt v room = ground (
  arith,
  load_lem buf 0,
  load_lem buf 9,
  load_lem buf 10,
  read_id buf len pkt v room,
  read_payload buf len pkt v room,
)

-- A frame above the limit of 512 bytes is refused, as long as its payload's length does not wrap.
pub decode_oversize :
    (buf : List ℕ) (len : ℕ) (pkt : Packet)
    → IsPacket pkt
    → len ≤ length buf
    → max_packet < len
    → len < 2 ^ 16 + header_size
    → decode buf len pkt ≡ some err
decode_oversize buf len pkt v room h k = ground (arith, decode_lem buf len pkt v room)
