-- ===== src/Packet/Encode.antt =====
-- What `vex_packet_encode` writes.
use vexconnect.Prelude.{
  ℕ, ◌+◌, ◌≤◌, ◌≡◌, refl, List, [], ◌∷◌, ◌++◌, some, ok, err, Bool, ◌&&◌, leb, ◌==◌, if◌then◌else◌,
  arith, length, drop,
}
use vexconnect.Prelude.{append_assoc, length-append, length-drop, take_all, drop-drop}
use vexconnect.Prelude.Memory.{store, memcpy, store-append, memcpy-append}
use vexconnect.Packet.{
  IsPacket, wire, Packet, encode, header_size, max_packet, max_payload, vex_version,
}

-- The chain of writes, each just after the one before.
module _ (pkt : Packet) (buf : List ℕ) (v : IsPacket pkt) (small : pkt.payload_len ≤ max_payload)
    (room : header_size + pkt.payload_len ≤ length buf) where
  open pkt use {version, packet_id, ttl, flags, payload, payload_len}

  written₁ : store buf 0 version ≡ some ((version ∷ []) ++ drop 1 buf)
  written₁ = store-append [] buf 0 version refl (omega arith)

  written₂ :
      memcpy ((version ∷ []) ++ drop 1 buf) 1 packet_id 0 8
      ≡ some ((version ∷ packet_id) ++ drop 9 buf)
  written₂ = rw (
    memcpy-append (version ∷ []) (drop 1 buf) packet_id 1 0 8 refl (omega (arith, v.id_size))
        (omega (arith, length-drop 1 buf)),
    take_all 8 packet_id (omega (arith, v.id_size)),
    drop-drop 8 1 buf,
  )

  written₃ :
      store ((version ∷ packet_id) ++ drop 9 buf) 9 ttl
      ≡ some ((version ∷ (packet_id ++ (ttl ∷ []))) ++ drop 10 buf)
  written₃ = rw (
    store-append (version ∷ packet_id) (drop 9 buf) 9 ttl (omega (arith, v.id_size))
        (omega (arith, length-drop 9 buf)),
    drop-drop 1 9 buf,
  )

  written₄ :
      store ((version ∷ (packet_id ++ (ttl ∷ []))) ++ drop 10 buf) 10 flags
      ≡ some ((version ∷ (packet_id ++ (ttl ∷ (flags ∷ [])))) ++ drop 11 buf)
  written₄ = rw (
    store-append (version ∷ (packet_id ++ (ttl ∷ []))) (drop 10 buf) 10 flags
        (omega (arith, v.id_size, length-append packet_id (ttl ∷ [])))
        (omega (arith, length-drop 10 buf)),
    drop-drop 1 10 buf,
    append_assoc packet_id,
  )

  written₅ :
      memcpy
        ((version ∷ (packet_id ++ (ttl ∷ (flags ∷ [])))) ++ drop 11 buf)
        11
        payload
        0
        payload_len
      ≡ some (wire pkt ++ drop (header_size + payload_len) buf)
  written₅ = rw (
    memcpy-append (version ∷ (packet_id ++ (ttl ∷ (flags ∷ [])))) (drop 11 buf) payload 11 0
        payload_len (omega (arith, v.id_size, length-append packet_id (ttl ∷ (flags ∷ []))))
        (omega (arith, v.payload_size, small)) (omega (arith, length-drop 11 buf)),
    drop-drop payload_len 11 buf,
    append_assoc packet_id,
  )

-- The conditions under which `vex_packet_encode` does not return -1.
abbrev pub encodes : Packet → ℕ → Bool
encodes pkt buf_len =
    leb (header_size + pkt.payload_len) buf_len
    && (leb (header_size + pkt.payload_len) max_packet && (pkt.version == vex_version))

-- On arrays of the declared sizes the encoder never leaves them. It reports an error exactly if the
-- packet does not fit the buffer, is longer than 512 bytes or has another version, and otherwise
-- writes the wire bytes, reports their number, and leaves the rest of the buffer.
pub encode_lem :
    (pkt : Packet) (buf : List ℕ) (buf_len : ℕ)
    → IsPacket pkt
    → buf_len ≤ length buf
    → let total = header_size + pkt.payload_len in
      encode pkt buf buf_len
      ≡ some (if encodes pkt buf_len then ok (total, wire pkt ++ drop total buf) else err)
unfolding encode
encode_lem pkt buf buf_len v h = ground (
  arith,
  written₁ pkt buf v,
  written₂ pkt buf v,
  written₃ pkt buf v,
  written₄ pkt buf v,
  written₅ pkt buf v,
)
