-- ===== src/Packet.antt =====
-- `vex_packet_t` and src/packet.c: the wire format of a packet.
-- A pointer argument that a function writes through is an array that it takes and returns. An
-- option's `none` is an access outside an array; `err` is the C result -1.
pub mod Encode
pub mod Decode
pub mod RoundTrip
pub mod Id
pub mod Encoded
use vexconnect.Prelude.{
  ℕ, zero, suc, ◌+◌, ◌-◌, ◌%◌, ◌^◌, List, [], ◌∷◌, ◌++◌, Option, none, some, Bool, not, ◌||◌, ltb,
  ◌==◌, if◌then◌else◌, Ret, ok, err, length, take, ◌≡◌, ◌≤◌,
}
use vexconnect.Prelude.Memory.{◌>>=◌, memcpy, store, load}

abbrev pub vex_version : ℕ
vex_version = 1

abbrev pub max_packet : ℕ
max_packet = 512

abbrev pub header_size : ℕ
header_size = 11

abbrev pub max_payload : ℕ
max_payload = 501

abbrev pub default_ttl : ℕ
default_ttl = 7

abbrev pub flag_encrypted : ℕ
flag_encrypted = 1

abbrev pub flag_broadcast : ℕ
flag_broadcast = 2

pub record Packet : Type 0 where
  pub version : ℕ
  pub packet_id : List ℕ
  pub ttl : ℕ
  pub flags : ℕ
  pub payload : List ℕ
  pub payload_len : ℕ

-- `vex_packet_encode`. The payload's copy is guarded by its length, as in the source.
pub encode : Packet → List ℕ → ℕ → Option (Ret (ℕ × List ℕ))
encode pkt buf buf_len =
    let total = header_size + pkt.payload_len in
    if ltb buf_len total || ltb max_packet total
    then some err
    else if not (pkt.version == vex_version)
    then some err
    else do
      b₁ ← store buf 0 pkt.version
      b₂ ← memcpy b₁ 1 pkt.packet_id 0 8
      b₃ ← store b₂ 9 pkt.ttl
      b₄ ← store b₃ 10 pkt.flags
      b₅ ←
          if ltb 0 pkt.payload_len
          then memcpy b₄ header_size pkt.payload 0 pkt.payload_len
          else some b₄
      some (ok (total, b₅))

-- `vex_packet_decode`. Both callers drop the packet that an error leaves half written.
pub decode : List ℕ → ℕ → Packet → Option (Ret Packet)
decode buf len pkt = if ltb len header_size then some err else do
  version ← load buf 0
  if not (version == vex_version) then some err else do
    packet_id ← memcpy pkt.packet_id 0 buf 1 8
    ttl ← load buf 9
    flags ← load buf 10
    let payload_len = (len - header_size) % 2 ^ 16
    if ltb max_payload payload_len then some err else do
      payload ←
          if ltb 0 payload_len
          then memcpy pkt.payload 0 buf header_size payload_len
          else some pkt.payload
      some (
          ok (record {
            version = version;
            packet_id = packet_id;
            ttl = ttl;
            flags = flags;
            payload = payload;
            payload_len = payload_len;
          }))

-- The sizes of the arrays of a `vex_packet_t`.
pub record IsPacket (pkt : Packet) : Type 0 where
  pub id_size : length pkt.packet_id ≡ 8
  pub payload_size : length pkt.payload ≡ max_payload

-- The bytes of a packet on the wire.
abbrev pub wire : Packet → List ℕ
wire pkt =
    pkt.version ∷ (pkt.packet_id ++ (pkt.ttl ∷ (pkt.flags ∷ take pkt.payload_len pkt.payload)))
