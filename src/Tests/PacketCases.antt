-- ===== src/Tests/PacketCases.antt =====
-- src/packet.c and src/util.c at concrete inputs.
use vexconnect.Prelude.{
  ℕ, ◌≡◌, refl, List, [], ◌∷◌, ◌++◌, some, ok, err, arith, replicate, length, take, drop, set,
  if◌then◌else◌,
}
use vexconnect.Packet.{Packet, encode, decode, max_packet}
use vexconnect.Packet.Decode.{decode_lem, accepts, parsed}
use vexconnect.Packet.RoundTrip.{encode-parsed, decode-encode, SamePacket}
use vexconnect.Packet.Id.{make_id_lem, make_id}
use vexconnect.Util.{hex, randombytes}
use vexconnect.Util.Hex.{hex_lem, encoded, decoded}
use vexconnect.System.{History}
use vexconnect.Tests.Platform.{kernel, kernel-IsOs, plain_box, plain_box-IsNacl}
use vexconnect.Tests.Frames.{
  frame_of, some_id, a_packet, a_packet-IsPacket, empty_packet, empty_packet-IsPacket,
}

decode_lem_example :
    decode (frame_of 5) 13 empty_packet
    ≡ some (if accepts (frame_of 5) 13 then ok (parsed (frame_of 5) 13 empty_packet) else err)
decode_lem_example = decode_lem (frame_of 5) 13 empty_packet empty_packet-IsPacket (omega arith)

decode-encode_example :
    (b : List ℕ) × (r : Packet) × (encode a_packet (replicate 512 0) max_packet ≡ some (ok (13, b)))
    × (decode b 13 empty_packet ≡ some (ok r))
    × SamePacket r a_packet
decode-encode_example =
    decode-encode a_packet empty_packet (replicate 512 0) a_packet-IsPacket empty_packet-IsPacket
      refl refl (omega arith)

encode-parsed_example :
    encode (record (parsed (frame_of 5) 13 empty_packet) { ttl = 4 }) (replicate 512 0) max_packet
    ≡ some (ok (13, take 13 (set (frame_of 5) 9 4) ++ drop 13 (replicate 512 0)))
encode-parsed_example =
    encode-parsed (frame_of 5) (replicate 512 0) 13 4 empty_packet empty_packet-IsPacket refl
      (omega arith) (omega arith) refl

make_id_lem_example :
    (nonce : List ℕ) × (h' : History) × (randombytes (kernel []) (replicate 8 0) 8 []
      ≡ some (nonce, h'))
    × (length nonce ≡ 8)
    × (make_id (kernel []) plain_box (104 ∷ 105 ∷ []) 2 (replicate 8 0) []
        ≡ some (take 8 (plain_box.hash ((104 ∷ 105 ∷ []) ++ nonce)), h'))
make_id_lem_example =
    make_id_lem (kernel []) plain_box (104 ∷ 105 ∷ []) 2 (replicate 8 0) [] (kernel-IsOs [] tt)
      plain_box-IsNacl (omega arith) (omega arith) refl

hex_lem_example :
    (hex some_id 8 (replicate 17 7) ≡ some (encoded some_id ++ (0 ∷ [])))
    × (decoded (encoded some_id) ≡ some_id)
hex_lem_example = hex_lem some_id (replicate 17 7) 8 (ground arith) (omega arith) (omega arith)
