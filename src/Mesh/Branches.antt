-- ===== src/Mesh/Branches.antt =====
-- `vex_mesh_receive` on every branch, and after any relays.
use vexconnect.Prelude.{
  ℕ, suc, refl, ◌-◌, ◌≤◌, ◌<◌, ◌≡◌, ap, ap₂, sym, ◌∙◌, List, ◌∷◌, some, Bool, true, false, ◌&&◌,
  ltb, ok, err, arith, length, length-set, set, get_or, Bytes, if◌then◌else◌, Bool-cases, inl, inr,
}
use vexconnect.Prelude.Int.{ℤ}
use vexconnect.Node.{Node, count_up}
use vexconnect.Nacl.{Nacl, IsNacl}
use vexconnect.Seen
use vexconnect.Seen.{IsCache, recorded}
use vexconnect.Packet.{max_packet}
use vexconnect.Packet.Decode.{accepts, accepts-Accepted, parsed}
use vexconnect.Transport.Send.{targets, deliveries}
use vexconnect.Transport.Deliver.{WritesWhole}
use vexconnect.System.{Os, IsOs, History, clocked}
use vexconnect.Mesh.{receive, dropped}
use vexconnect.Mesh.Relay.{relayed, relay_expired, blank}
use vexconnect.Mesh.Receive.{frame_id, heard, shown_at, receive_rejected, receive_duplicate}
use vexconnect.Mesh.Once.{handled, receive-delivers}
use vexconnect.Mesh.Hops.{hops, hops_lem, handles, passes, receive-hops}
use vexconnect.Mesh.Network.{Spreads, Spreads-hops}

module _ (os : Os) (nacl : Nacl) (v : IsOs os) (w : IsNacl nacl) (node : Node) (raw : List ℕ)
    (len : ℕ) (source_fd : ℤ) (h : History) (cache : IsCache node.seen) (inside : len ≤ length raw)
    (small : len ≤ max_packet) (bytes : Bytes raw) (whole : WritesWhole os) where
  -- A frame that goes no further, and one that is passed on.
  kept :
      (on alive : Bool)
      → accepts raw len ≡ true
      → recorded (os.time h) (frame_id raw) node.seen.entries ≡ false
      → node.relay_enabled ≡ on
      → ltb 1 (get_or raw 9 0) ≡ alive
      → receive os nacl node raw len source_fd h ≡ (
          if on && alive
          then some (
            (
              ok (targets source_fd node.peers),
              record (heard os node raw h) { packets_relayed = count_up node.packets_relayed },
            ),
            deliveries source_fd (relayed raw len) node.peers (shown_at os nacl node raw len h),
          )
          else some ((ok 0, heard os node raw h), shown_at os nacl node raw len h))
  kept false alive acc new off t =
      handled os nacl v w node raw len source_fd h cache inside small bytes false acc new off
  kept true false acc new on t =
      handled os nacl v w node raw len source_fd h cache inside small bytes true acc new on
      ∙ relay_expired os (heard os node raw h) raw len source_fd (shown_at os nacl node raw len h) v
          inside small bytes acc (ground (arith, t))
  kept true true acc new on t =
      receive-delivers os nacl v w node raw len source_fd h cache inside small bytes acc new on
        (ground (arith, t)) whole

  -- What the handler does with any bytes, where the kernel takes every write: a frame that does not decode is
  -- an error and is counted as dropped; one whose id is recorded is counted as dropped; for any other, its id is
  -- added, it is counted as received, and its text is shown if it opens. Then, where the node relays and the
  -- TTL is above 1, it goes with its TTL lowered by one to each open peer but the source, and is counted
  -- as relayed; or else it goes no further.
  pub receive_lem : receive os nacl node raw len source_fd h ≡ (
      if accepts raw len
      then (if recorded (os.time h) (frame_id raw) node.seen.entries
          then some (
            (
              ok 0,
              dropped os
                  (record node { seen = (Seen.check node.seen (frame_id raw) (os.time h)).1 }),
            ),
            clocked ∷ h,
          )
          else if node.relay_enabled && ltb 1 (get_or raw 9 0)
          then some (
            (
              ok (targets source_fd node.peers),
              record (heard os node raw h) { packets_relayed = count_up node.packets_relayed },
            ),
            deliveries source_fd (relayed raw len) node.peers (shown_at os nacl node raw len h),
          )
          else some ((ok 0, heard os node raw h), shown_at os nacl node raw len h))
      else some ((err, dropped os node), h))
  receive_lem = elim (Bool-cases (accepts raw len)) [
    | inr rej ↦
        rw rej (receive_rejected os nacl v w node raw len source_fd h cache inside small bytes rej)
    | inl acc ↦ rw acc (elim (Bool-cases (recorded (os.time h) (frame_id raw) node.seen.entries)) [
      | inl old ↦
          rw old (
            receive_duplicate os nacl v w node raw len source_fd h cache inside small bytes acc old)
      | inr new ↦ rw new (kept node.relay_enabled (ltb 1 (get_or raw 9 0)) acc new refl refl)
    ])
  ]

-- The end of a frame's way: whatever has come of a frame that decodes, after k relays on any kernels and in any
-- states, a relaying node with a well-formed cache that has not recorded its id handles the first packet
-- with k taken from its TTL: it adds the id, shows the text if it opens, and, where the kernel takes every
-- write, passes the frame on, with k + 1 taken from its TTL, to each open peer but the source, if the TTL that
-- is left is above 1, and to no peer if not.
pub receive-Spreads :
    (os : Os) (nacl : Nacl) (node : Node) (f raw : List ℕ) (k : ℕ) (source_fd : ℤ) (h : History)
    → IsOs os
    → IsNacl nacl
    → IsCache node.seen
    → length f ≤ max_packet
    → Bytes f
    → accepts f (length f) ≡ true
    → Spreads f k raw
    → recorded (os.time h) (frame_id f) node.seen.entries ≡ false
    → node.relay_enabled ≡ true
    → WritesWhole os
    → receive os nacl node raw (length raw) source_fd h
      ≡ passes (ltb 1 (get_or f 9 0 - k)) source_fd (set f 9 (get_or f 9 0 - suc k)) (
          handles os nacl node
            (frame_id f)
            (record (parsed f (length f) (blank os h)) { ttl = get_or f 9 0 - k })
            h)
receive-Spreads os nacl node f raw k source_fd h v w cache small bytes acc spread new on whole =
    ap₂ (λ g n. receive os nacl node g n source_fd h) same size
    ∙ receive-hops os nacl v w f k node source_fd h cache small bytes acc new on whole
    ∙ ap
        (λ next. passes (ltb 1 (get_or f 9 0 - k)) source_fd next (
          handles os nacl node (frame_id f)
            (record (parsed f (length f) (blank os h)) { ttl = get_or f 9 0 - k }) h))
        (hops_lem f (suc k) long)
  where
    long : 9 < length f
    long = omega (arith, (accepts-Accepted f (length f) acc).long)

    lowered : raw ≡ set f 9 (get_or f 9 0 - k)
    lowered = (Spreads-hops f raw k long small spread).0

    same : raw ≡ hops k f
    same = lowered ∙ sym (hops_lem f k long)

    size : length raw ≡ length f
    size = ap length lowered ∙ length-set f 9 (get_or f 9 0 - k)
