-- ===== src/Mesh/Once.antt =====
-- `vex_mesh_receive` as a whole: it always returns, it floods, and it handles a packet once.
use vexconnect.Prelude.{
  ℕ, ◌+◌, ◌≤◌, ◌<◌, ◌≡◌, refl, ◌∙◌, ap, subst, sym, List, ◌∷◌, ◌++◌, some, Bool, true, false, Ret,
  ok, err, arith, length, get_or, Bytes, if◌then◌else◌, Bool-cases, inl, inr,
}
use native.Mathlib.Decide.{dec_le}
use vexconnect.Prelude.Int.{ℤ}
use vexconnect.Node.{Node, count_up}
use vexconnect.Nacl.{Nacl, IsNacl}
use vexconnect.Seen
use vexconnect.Seen.{Cache, IsCache, recorded, seen_ttl_sec}
use vexconnect.Seen.Check.{check-IsCache}
use vexconnect.Seen.Evict.{add-IsCache}
use vexconnect.Seen.Fresh.{recorded_just_added}
use vexconnect.Packet.{max_packet}
use vexconnect.Packet.Decode.{accepts}
use vexconnect.Transport.Send.{AllKept, AllKept-refl, targets, deliveries}
use vexconnect.Transport.Deliver.{WritesWhole}
use vexconnect.System.{Os, IsOs, History, clocked}
use vexconnect.Mesh.{receive, relay, dropped}
use vexconnect.Mesh.Relay.{relayed, relay_expired, relay_any, relay-delivers}
use vexconnect.Mesh.Receive.{
  frame_id, heard, shown_at, receive_rejected, receive_duplicate, receive_fresh,
}

-- A frame changes nothing of a node but its slots, its cache and its counts, and opens no slot.
pub record Settled (node node' : Node) : Type 0 where
  pub kept : AllKept node.peers node'.peers
  pub rest : node' ≡ record node {
    peers = node'.peers;
    seen = node'.seen;
    packets_received = node'.packets_received;
    packets_relayed = node'.packets_relayed;
    packets_dropped = node'.packets_dropped;
  }

-- What a run of the handler leaves: an answer, and a node with a certain cache.
abbrev pub Leaves : (Cache → Type 0) → Os → Nacl → Node → List ℕ → ℕ → ℤ → History → Type 0
Leaves P os nacl node raw len source_fd h =
    (r : Ret ℕ) × (node' : Node) × (h' : History) × (receive os nacl node raw len source_fd h
      ≡ some ((r, node'), h'))
    × P node'.seen
    × Settled node node'

module _ (os : Os) (nacl : Nacl) (v : IsOs os) (w : IsNacl nacl) (node : Node) (raw : List ℕ)
    (len : ℕ) (source_fd : ℤ) (h : History) (cache : IsCache node.seen) (inside : len ≤ length raw)
    (small : len ≤ max_packet) (bytes : Bytes raw) where
  heard-IsCache : IsCache (heard os node raw h).seen
  heard-IsCache =
      add-IsCache (Seen.check node.seen (frame_id raw) (os.time h)).1 (frame_id raw)
        (os.time (clocked ∷ h)) (check-IsCache node.seen (frame_id raw) (os.time h) cache)

  pub handled :
      (on : Bool)
      → accepts raw len ≡ true
      → recorded (os.time h) (frame_id raw) node.seen.entries ≡ false
      → node.relay_enabled ≡ on
      → receive os nacl node raw len source_fd h ≡ (
          if on
          then relay os (heard os node raw h) raw len source_fd (shown_at os nacl node raw len h)
          else some ((ok 0, heard os node raw h), shown_at os nacl node raw len h))
  handled on acc new e =
      receive_fresh os nacl v w node raw len source_fd h cache inside small bytes acc new
      ∙ ap
          (λ b.
            if b
            then relay os (heard os node raw h) raw len source_fd (shown_at os nacl node raw len h)
            else some ((ok 0, heard os node raw h), shown_at os nacl node raw len h))
          e

  pub fresh-Leaves :
      accepts raw len ≡ true
      → recorded (os.time h) (frame_id raw) node.seen.entries ≡ false
      → Leaves (λ c. c ≡ (heard os node raw h).seen) os nacl node raw len source_fd h
  fresh-Leaves acc new =
      let node₁ = heard os node raw h in
      let later = shown_at os nacl node raw len h in
      elim (Bool-cases node.relay_enabled) [
        | inr off ↦ (
          ok 0,
          node₁,
          later,
          handled false acc new off,
          refl,
          record { kept = AllKept-refl node.peers; rest = refl },
        )
        | inl on ↦ elim (dec_le (get_or raw 9 0) 1) [
          | yes old ↦ (
            ok 0,
            node₁,
            later,
            handled true acc new on
                ∙ relay_expired os node₁ raw len source_fd later v inside small bytes acc old,
            refl,
            record { kept = AllKept-refl node.peers; rest = refl },
          )
          | no alive ↦
              let (count, peers, events, run, kept, tally, quiet) =
                relay_any os node₁ raw len source_fd later v inside small bytes acc (omega arith) in
              (
                ok count,
                record node₁ { peers = peers; packets_relayed = count_up node₁.packets_relayed },
                events ++ later,
                handled true acc new on ∙ run,
                refl,
                record { kept = kept; rest = refl },
              )
        ]
      ]

  -- Whatever bytes a frame of at most 512 bytes holds, and whatever the kernel answers, the handler
  -- returns with no access outside an array, a well-formed cache stays well-formed, no slot is opened, and
  -- nothing changes but slots, cache and counts.
  pub receive-IsCache : Leaves IsCache os nacl node raw len source_fd h
  receive-IsCache = elim (Bool-cases (accepts raw len)) [
    | inr rej ↦ (
      err,
      dropped os node,
      h,
      receive_rejected os nacl v w node raw len source_fd h cache inside small bytes rej,
      cache,
      record { kept = AllKept-refl node.peers; rest = refl },
    )
    | inl acc ↦ elim (Bool-cases (recorded (os.time h) (frame_id raw) node.seen.entries)) [
      | inl old ↦ (
        ok 0,
        _,
        clocked ∷ h,
        receive_duplicate os nacl v w node raw len source_fd h cache inside small bytes acc old,
        check-IsCache node.seen (frame_id raw) (os.time h) cache,
        record { kept = AllKept-refl node.peers; rest = refl },
      )
      | inr new ↦
          let (r, node', h', run, same, settled) = fresh-Leaves acc new in
          (r, node', h', run, subst IsCache (sym same) heard-IsCache, settled)
    ]
  ]

  -- A relaying node floods a frame that decodes and is not recorded: where the TTL is above 1 and the kernel
  -- takes every write, the frame goes with its TTL lowered by one to each open peer but the source.
  pub receive-delivers :
      accepts raw len ≡ true
      → recorded (os.time h) (frame_id raw) node.seen.entries ≡ false
      → node.relay_enabled ≡ true
      → 1 < get_or raw 9 0
      → WritesWhole os
      → receive os nacl node raw len source_fd h
        ≡ some (
          (
            ok (targets source_fd node.peers),
            record (heard os node raw h) { packets_relayed = count_up node.packets_relayed },
          ),
          deliveries source_fd (relayed raw len) node.peers (shown_at os nacl node raw len h),
        )
  receive-delivers acc new on alive whole =
      handled true acc new on
      ∙ relay-delivers os (heard os node raw h) raw len source_fd (shown_at os nacl node raw len h)
          v inside small bytes acc alive whole

  -- A frame whose TTL is used up is handled, but it goes no further.
  pub receive_expired :
      accepts raw len ≡ true
      → recorded (os.time h) (frame_id raw) node.seen.entries ≡ false
      → node.relay_enabled ≡ true
      → get_or raw 9 0 ≤ 1
      → receive os nacl node raw len source_fd h
        ≡ some ((ok 0, heard os node raw h), shown_at os nacl node raw len h)
  receive_expired acc new on old =
      handled true acc new on
      ∙ relay_expired os (heard os node raw h) raw len source_fd (shown_at os nacl node raw len h) v
          inside small bytes acc old

  -- A packet is handled once: after a frame with a new id was handled on a well-formed cache, the next
  -- frame with that id that decodes, from any peer and with any TTL, is dropped if it comes within 60
  -- seconds: it is neither shown nor forwarded.
  pub receive_twice :
      (r : Ret ℕ) (node' : Node) (h' : History) (raw' : List ℕ) (len' : ℕ) (source' : ℤ)
      → accepts raw len ≡ true
      → recorded (os.time h) (frame_id raw) node.seen.entries ≡ false
      → receive os nacl node raw len source_fd h ≡ some ((r, node'), h')
      → frame_id raw' ≡ frame_id raw
      → accepts raw' len' ≡ true
      → len' ≤ length raw'
      → len' ≤ max_packet
      → Bytes raw'
      → os.time h' ≤ os.time (clocked ∷ h) + seen_ttl_sec
      → receive os nacl node' raw' len' source' h'
        ≡ some (
          (
            ok 0,
            dropped os
                (record node' { seen = (Seen.check node'.seen (frame_id raw) (os.time h')).1 }),
          ),
          clocked ∷ h',
        )
  receive_twice r node' h' raw' len' source' acc new run same acc' inside' small' bytes' soon =
      let (r₁, node₁, h₁, run₁, seen₁, settled₁) = fresh-Leaves acc new in
      let as_heard : node'.seen ≡ (heard os node raw h).seen = cc (run, run₁, seen₁) in
      let known : recorded (os.time h') (frame_id raw) node'.seen.entries ≡ true =
        ap (λ c. recorded (os.time h') (frame_id raw) c.entries) as_heard
        ∙ recorded_just_added (Seen.check node.seen (frame_id raw) (os.time h)).1 (frame_id raw)
            (os.time (clocked ∷ h)) (os.time h')
            (check-IsCache node.seen (frame_id raw) (os.time h) cache) soon in
      receive_duplicate os nacl v w node' raw' len' source' h'
        (subst IsCache (sym as_heard) heard-IsCache) inside' small' bytes' acc'
        (ap (λ i. recorded (os.time h') i node'.seen.entries) same ∙ known)
      ∙ ap
          (λ i. some (
            (ok 0, dropped os (record node' { seen = (Seen.check node'.seen i (os.time h')).1 })),
            clocked ∷ h',
          ))
          same
