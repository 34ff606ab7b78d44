-- ===== src/Mesh/Receive.antt =====
-- `vex_mesh_receive`: which packets are dropped, which are handled, and that none is handled twice.
use vexconnect.Prelude.{
  ℕ, zero, suc, ◌≤◌, ◌<◌, ◌≡◌, ◌∙◌, ap, List, [], ◌∷◌, ◌++◌, some, ◌==◌, true, false, ok, err,
  arith, length, take, drop, get_or, Bytes, All-take, All-drop, if◌then◌else◌, Bool-cases, inl, inr,
}
use vexconnect.Prelude.Int.{ℤ}
use vexconnect.Prelude.Memory.{length-take-drop}
use vexconnect.Node.{Node, count_up}
use vexconnect.Nacl.{Nacl, IsNacl}
use vexconnect.Seen
use vexconnect.Seen.{IsCache, recorded, seen_ttl_sec}
use vexconnect.Seen.Check.{check_lem}
use vexconnect.Util.{hex}
use vexconnect.Packet.{Packet, vex_version, max_packet}
use vexconnect.Packet.Decode.{decode_lem, parsed, accepts, accepts-Accepted}
use vexconnect.Packet.RoundTrip.{parsed-IsPacket}
use vexconnect.System.{Os, IsOs, History, clocked, ◌>>=◌, ◌>>◌}
use vexconnect.Mesh.{receive, receive_packet, receive_new, show_payload, relay, dropped}
use vexconnect.Mesh.Relay.{blank, blank-IsPacket, id_hex_runs}
use vexconnect.Mesh.Show.{shown, show_payload_lem}

-- The id that a frame carries.
abbrev pub frame_id : List ℕ → List ℕ
frame_id raw = take 8 (drop 1 raw)

-- The node once it has handled a frame: the id is added, and one received packet counted.
abbrev pub heard : Os → Node → List ℕ → History → Node
heard os node raw h = record node {
  seen =
      Seen.add (Seen.check node.seen (frame_id raw) (os.time h)).1 (frame_id raw)
        (os.time (clocked ∷ h));
  packets_received = count_up node.packets_received;
}

-- The calls before a handled frame is forwarded: the clock is read twice, and the text shown.
abbrev pub shown_at : Os → Nacl → Node → List ℕ → ℕ → History → History
shown_at os nacl node raw len h =
    shown nacl (heard os node raw h) (parsed raw len (blank os h)) ++ (clocked ∷ clocked ∷ h)

get_or-Bytes : (bs : List ℕ) (i : ℕ) → Bytes bs → get_or bs i 0 < 256
get_or-Bytes [] i b = omega arith
get_or-Bytes (x ∷ bs) zero b = b.0
get_or-Bytes (x ∷ bs) (suc i) b = get_or-Bytes bs i b.1

module _ (os : Os) (nacl : Nacl) (v : IsOs os) (w : IsNacl nacl) (node : Node) (raw : List ℕ)
    (len : ℕ) (source_fd : ℤ) (h : History) (cache : IsCache node.seen) (inside : len ≤ length raw)
    (small : len ≤ max_packet) (bytes : Bytes raw) where
  pkt : Packet
  pkt = parsed raw len (blank os h)

  -- A frame that does not decode is reported as an error and counted as dropped; nothing else changes
  -- and no call is made.
  pub receive_rejected :
      accepts raw len ≡ false
      → receive os nacl node raw len source_fd h ≡ some ((err, dropped os node), h)
  unfolding receive
  receive_rejected rej = rw (
    decode_lem raw len (blank os h) (blank-IsPacket os h v) inside
        ∙ ap (λ t. some (if t then ok (parsed raw len (blank os h)) else err)) rej,
    ◌>>=◌,
  )

  unwrap :
      accepts raw len ≡ true
      → receive os nacl node raw len source_fd h
        ≡ receive_packet os nacl node pkt raw len source_fd h
  unfolding receive pkt
  unwrap acc = rw (
    decode_lem raw len (blank os h) (blank-IsPacket os h v) inside
        ∙ ap (λ t. some (if t then ok (parsed raw len (blank os h)) else err)) acc,
    ◌>>=◌,
  )

  id_shown :
      accepts raw len ≡ true
      → (k : History) → (out : List ℕ) × (hex pkt.packet_id 8 (os.uninit k 17) ≡ some out)
  unfolding pkt
  id_shown acc k =
      id_hex_runs os (frame_id raw) k v
        (All-take (λ b. b < 256) 8 (drop 1 raw) (All-drop (λ b. b < 256) 1 raw bytes))
        (length-take-drop raw 1 8 (omega (arith, inside, (accepts-Accepted raw len acc).long)))

  versioned : accepts raw len ≡ true → (pkt.version == vex_version) ≡ true
  unfolding pkt
  versioned acc = ground (arith, (accepts-Accepted raw len acc).versioned)

  packet_duplicate :
      accepts raw len ≡ true
      → recorded (os.time h) (frame_id raw) node.seen.entries ≡ true
      → receive_packet os nacl node pkt raw len source_fd h
        ≡ some (
          (
            ok 0,
            dropped os (record node { seen = (Seen.check node.seen (frame_id raw) (os.time h)).1 }),
          ),
          clocked ∷ h,
        )
  unfolding receive_packet pkt
  packet_duplicate acc old = rw (
    versioned acc,
    (id_shown acc h).1,
    check_lem node.seen (frame_id raw) (os.time h) cache ∙ old,
    ◌>>=◌,
  )

  -- A frame whose id is recorded is answered with 0 and counted as dropped: it is neither shown nor
  -- forwarded, the only call is to the clock, and only the cache changes besides.
  pub receive_duplicate :
      accepts raw len ≡ true
      → recorded (os.time h) (frame_id raw) node.seen.entries ≡ true
      → receive os nacl node raw len source_fd h
        ≡ some (
          (
            ok 0,
            dropped os (record node { seen = (Seen.check node.seen (frame_id raw) (os.time h)).1 }),
          ),
          clocked ∷ h,
        )
  receive_duplicate acc old = unwrap acc ∙ packet_duplicate acc old

  packet_shown :
      accepts raw len ≡ true
      → show_payload os nacl (heard os node raw h) pkt (clocked ∷ clocked ∷ h)
        ≡ some (tt, shown_at os nacl node raw len h)
  unfolding pkt
  packet_shown acc =
      show_payload_lem os nacl v w (heard os node raw h) pkt (clocked ∷ clocked ∷ h)
        (parsed-IsPacket raw len (blank os h) (blank-IsPacket os h v) acc inside).payload_size
        (accepts-Accepted raw len acc).short (get_or-Bytes raw 10 bytes)

  packet_fresh :
      accepts raw len ≡ true
      → recorded (os.time h) (frame_id raw) node.seen.entries ≡ false
      → receive_packet os nacl node pkt raw len source_fd h
        ≡ receive_new os nacl
            (record node { seen = (Seen.check node.seen (frame_id raw) (os.time h)).1 })
            pkt
            raw
            len
            source_fd
            (clocked ∷ h)
  unfolding receive_packet pkt
  packet_fresh acc new = rw (
    versioned acc,
    (id_shown acc h).1,
    check_lem node.seen (frame_id raw) (os.time h) cache ∙ new,
    ◌>>=◌,
  )

  new_handled :
      accepts raw len ≡ true
      → receive_new os nacl
          (record node { seen = (Seen.check node.seen (frame_id raw) (os.time h)).1 })
          pkt
          raw
          len
          source_fd
          (clocked ∷ h)
        ≡ (if node.relay_enabled
            then relay os (heard os node raw h) raw len source_fd (shown_at os nacl node raw len h)
            else some ((ok 0, heard os node raw h), shown_at os nacl node raw len h))
  unfolding receive_new pkt
  new_handled acc = elim (Bool-cases node.relay_enabled) [
    | inl on ↦ rw (packet_shown acc, on, ◌>>=◌, ◌>>◌)
    | inr off ↦ rw (packet_shown acc, off, ◌>>=◌, ◌>>◌)
  ]

  -- A frame that decodes and whose id is not recorded is handled: its id is added, one received packet
  -- is counted, its text is shown if it opens, and then the frame is relayed if the node relays.
  pub receive_fresh :
      accepts raw len ≡ true
      → recorded (os.time h) (frame_id raw) node.seen.entries ≡ false
      → receive os nacl node raw len source_fd h ≡ (
          if node.relay_enabled
          then relay os (heard os node raw h) raw len source_fd (shown_at os nacl node raw len h)
          else some ((ok 0, heard os node raw h), shown_at os nacl node raw len h))
  receive_fresh acc new = unwrap acc ∙ (packet_fresh acc new ∙ new_handled acc)
