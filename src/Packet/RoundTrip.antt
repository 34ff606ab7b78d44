-- ===== src/Packet/RoundTrip.antt =====
-- Encoding and decoding undo one another.
use vexconnect.Prelude.{
  ℕ, zero, suc, ◌+◌, ◌-◌, ◌≤◌, ◌≡◌, refl, ap, subst, ◌∙◌, List, [], ◌∷◌, ◌++◌, some, ok, err, arith,
  length, take, drop, get_or, set, length-append, length-take, take-append, length-drop, true,
  if◌then◌else◌,
}
use vexconnect.Prelude.Memory.{length-take-drop}
use vexconnect.Packet.{
  Packet, IsPacket, wire, encode, decode, header_size, max_packet, max_payload, vex_version,
}
use vexconnect.Packet.Encode.{encode_lem}
use vexconnect.Packet.Decode.{decode_lem, parsed, accepts, accepts-Accepted, body_len}

take-take-append : (n : ℕ) (xs ys : List ℕ) → n ≤ length xs → take n (take n xs ++ ys) ≡ take n xs
take-take-append zero xs ys h = refl
take-take-append (suc n) [] ys h = absurd (omega arith)
take-take-append (suc n) (x ∷ xs) ys h = ap (◌∷◌ x) (take-take-append n xs ys (omega arith))

body_taken :
    (body rest : List ℕ) (n m : ℕ)
    → n ≡ m
    → m ≤ length body
    → take n (take n body ++ drop n rest) ≡ take m body
body_taken body rest n m e h = rw e (take-take-append m body (drop m rest) h)

-- The wire bytes of a parsed packet whose TTL is replaced: the frame with its TTL byte replaced.
pub wire-parsed :
    (buf : List ℕ) (len t : ℕ) (pkt : Packet)
    → header_size ≤ len
    → len ≤ max_packet
    → len ≤ length buf
    → wire (record (parsed buf len pkt) { ttl = t }) ≡ take len (set buf 9 t)
wire-parsed (b₀ ∷ b₁ ∷ b₂ ∷ b₃ ∷ b₄ ∷ b₅ ∷ b₆ ∷ b₇ ∷ b₈ ∷ b₉ ∷ b₁₀ ∷ body) len t pkt h k room =
    ap (λ z. b₀ ∷ b₁ ∷ b₂ ∷ b₃ ∷ b₄ ∷ b₅ ∷ b₆ ∷ b₇ ∷ b₈ ∷ t ∷ b₁₀ ∷ z)
      (body_taken body pkt.payload (body_len len) (len - 11) (omega arith) (omega arith))
    ∙ ap (λ n. take n (b₀ ∷ b₁ ∷ b₂ ∷ b₃ ∷ b₄ ∷ b₅ ∷ b₆ ∷ b₇ ∷ b₈ ∷ t ∷ b₁₀ ∷ body)) eleven
  where
    eleven : suc (suc (suc (suc (suc (suc (suc (suc (suc (suc (suc (len - 11))))))))))) ≡ len
    eleven = omega arith
wire-parsed _ len t pkt h k room = absurd (omega arith)

pub parsed-IsPacket :
    (buf : List ℕ) (len : ℕ) (pkt : Packet)
    → IsPacket pkt
    → accepts buf len ≡ true
    → len ≤ length buf
    → IsPacket (parsed buf len pkt)
parsed-IsPacket buf len pkt v h room = record {
  id_size = length-take-drop buf 1 8 (ground arith);
  payload_size = ground (
    arith,
    length-append (take (body_len len) (drop 11 buf)) (drop (body_len len) pkt.payload),
    length-take-drop buf 11 (body_len len),
    length-drop (body_len len) pkt.payload,
    v.payload_size,
  );
}

-- Encoding an accepted frame again, with another TTL, gives the frame with only the TTL byte changed.
pub encode-parsed :
    (buf out : List ℕ) (len t : ℕ) (pkt : Packet)
    → IsPacket pkt
    → accepts buf len ≡ true
    → len ≤ max_packet
    → len ≤ length buf
    → length out ≡ max_packet
    → encode (record (parsed buf len pkt) { ttl = t }) out max_packet
      ≡ some (ok (len, take len (set buf 9 t) ++ drop len out))
encode-parsed buf out len t pkt v acc k room size = ground (
  arith,
  encode_lem p out max_packet p-IsPacket (omega arith),
  whole,
  accepts-Accepted buf len acc,
  wire-parsed buf len t pkt,
)
  where
    p : Packet
    p = record (parsed buf len pkt) { ttl = t }

    p-IsPacket : IsPacket p
    p-IsPacket =
        let q = parsed-IsPacket buf len pkt v acc room in
        record { id_size = q.id_size; payload_size = q.payload_size }

    whole : header_size + body_len len ≡ len
    whole = omega (arith, accepts-Accepted buf len acc)

-- Two packets that carry the same message: they differ at most behind the payload's length.
pub record SamePacket (p q : Packet) : Type 0 where
  pub version : p.version ≡ q.version
  pub packet_id : p.packet_id ≡ q.packet_id
  pub ttl : p.ttl ≡ q.ttl
  pub flags : p.flags ≡ q.flags
  pub payload_len : p.payload_len ≡ q.payload_len
  pub payload : take p.payload_len p.payload ≡ take q.payload_len q.payload

pub record ReadsBack (v t f : ℕ) (id body b rest : List ℕ) : Type 0 where
  pub versioned : get_or b 0 0 ≡ v
  pub identified : take 8 (drop 1 b) ≡ id
  pub timed : get_or b 9 0 ≡ t
  pub flagged : get_or b 10 0 ≡ f
  pub followed : drop 11 b ≡ body ++ rest

pub read_back :
    (v t f : ℕ) (id body rest : List ℕ)
    → length id ≡ 8
    → ReadsBack v t f id body (v ∷ ((id ++ (t ∷ (f ∷ body))) ++ rest)) rest
read_back v t f (a ∷ b ∷ c ∷ d ∷ e ∷ g ∷ h ∷ i ∷ []) body rest size = record {
  versioned = refl;
  identified = refl;
  timed = refl;
  flagged = refl;
  followed = refl;
}
read_back v t f _ body rest size = absurd (omega arith)

-- What is parsed from an array that reads back as a packet's wire bytes is that packet.
module _ (pkt old : Packet) (b rest : List ℕ)
    (back : ReadsBack pkt.version pkt.ttl pkt.flags pkt.packet_id
      (take pkt.payload_len pkt.payload)
      b
      rest)
    (size : length pkt.payload ≡ max_payload) (small : pkt.payload_len ≤ max_payload)
    (long : length b ≡ max_packet) where
  total : ℕ
  total = header_size + pkt.payload_len

  body_len-total : body_len total ≡ pkt.payload_len
  unfolding total
  body_len-total = omega arith

  payload_back :
      take (body_len total) (parsed b total old).payload ≡ take pkt.payload_len pkt.payload
  unfolding total
  payload_back =
      body_taken (drop 11 b) old.payload (body_len total) pkt.payload_len body_len-total
        (omega (arith, length-drop 11 b))
      ∙ (ap (take pkt.payload_len) back.followed
          ∙ subst (λ n. take n (body ++ rest) ≡ body)
              (omega (arith, length-take pkt.payload_len pkt.payload)) (take-append body rest))
    where
      body : List ℕ
      body = take pkt.payload_len pkt.payload

  SamePacket-parsed : SamePacket (parsed b (header_size + pkt.payload_len) old) pkt
  unfolding total
  SamePacket-parsed = record {
    version = back.versioned;
    packet_id = back.identified;
    ttl = back.timed;
    flags = back.flagged;
    payload_len = body_len-total;
    payload = payload_back;
  }

  accepts-total : pkt.version ≡ vex_version → accepts b (header_size + pkt.payload_len) ≡ true
  unfolding total
  accepts-total e = ground (arith, back.versioned, body_len-total)

-- A packet of this version that fits a frame is read back from the frame that it is written to.
pub decode-encode :
    (pkt old : Packet) (buf : List ℕ)
    → IsPacket pkt
    → IsPacket old
    → length buf ≡ max_packet
    → pkt.version ≡ vex_version
    → pkt.payload_len ≤ max_payload
    → (b : List ℕ) × (r : Packet) × (encode pkt buf max_packet
        ≡ some (ok (header_size + pkt.payload_len, b)))
      × (decode b (header_size + pkt.payload_len) old ≡ some (ok r))
      × SamePacket r pkt
decode-encode pkt old buf v w size e small = (
  b,
  parsed b full old,
  ground (arith, encode_lem pkt buf max_packet v (omega arith)),
  accepted,
  SamePacket-parsed pkt old b rest back v.payload_size small long,
)
  where
    full : ℕ
    full = header_size + pkt.payload_len

    rest : List ℕ
    rest = drop (header_size + pkt.payload_len) buf

    b : List ℕ
    b = wire pkt ++ rest

    back :
        ReadsBack pkt.version pkt.ttl pkt.flags pkt.packet_id
          (take pkt.payload_len pkt.payload)
          b
          rest
    back =
        read_back pkt.version pkt.ttl pkt.flags pkt.packet_id (take pkt.payload_len pkt.payload)
          rest v.id_size

    taken : length (take pkt.payload_len pkt.payload) ≡ pkt.payload_len
    taken = omega (arith, length-take pkt.payload_len pkt.payload, v.payload_size)

    long : length b ≡ max_packet
    long = omega (
      arith,
      length-append (wire pkt) rest,
      length-drop full buf,
      length-append pkt.packet_id (pkt.ttl ∷ (pkt.flags ∷ take pkt.payload_len pkt.payload)),
      taken,
      v.id_size,
    )

    accepted : decode b full old ≡ some (ok (parsed b full old))
    accepted =
        decode_lem b full old w (omega (arith, long))
        ∙ ap (λ t. some (if t then ok (parsed b full old) else err))
            (accepts-total pkt old b rest back v.payload_size small long e)
