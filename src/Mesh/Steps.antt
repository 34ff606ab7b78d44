-- ===== src/Mesh/Steps.antt =====
-- What one frame and one message do to the cache, and when.
use vexconnect.Prelude.{
  ℕ, ◌≤◌, ◌≡◌, ◌∙◌, ap, sym, List, [], ◌∷◌, ◌++◌, some, err, Bool, if◌then◌else◌, true, false, Ret,
  ok, arith, length, Bytes, Bool-cases, inl, inr,
}
use vexconnect.Prelude.Int.{ℤ}
use vexconnect.Node.{Node, count_up}
use vexconnect.Nacl.{Nacl, IsNacl}
use vexconnect.Seen
use vexconnect.Seen.{Cache, IsCache, recorded, seen_capacity, seen_ttl_sec}
use vexconnect.Seen.History.{checks, adds, run}
use vexconnect.Packet.{max_packet}
use vexconnect.Packet.Decode.{accepts, parsed}
use native.Mathlib.Decide.{dec_le}
use vexconnect.System.{Os, IsOs, History, clocked}
use vexconnect.Transport.Clock.{Ticks, time-Speaks, time-append, time-run}
use vexconnect.Mesh.{receive, relay, send, dropped, max_message}
use vexconnect.Mesh.Wire.{relay-Makes, receive-Makes}
use vexconnect.Mesh.Message.{send-AllKept, send_refused}
use vexconnect.Mesh.Show.{shown}
use vexconnect.Mesh.Relay.{blank}
use vexconnect.Mesh.Receive.{frame_id, heard, shown_at, receive_rejected, receive_duplicate}
use vexconnect.Mesh.Once.{handled, fresh-Leaves}
use vexconnect.Seen.Calls.{idle, Calls}

module _ (os : Os) (nacl : Nacl) (v : IsOs os) (w : IsNacl nacl) (ticks : Ticks os) where
  -- A frame that is handled: the second reading of the clock comes before the end.
  pub heard_late :
      (node node₁ : Node) (h h₁ : History) (r : Ret ℕ) (raw : List ℕ) (source_fd : ℤ)
      → IsCache node.seen
      → length raw ≤ max_packet
      → Bytes raw
      → accepts raw (length raw) ≡ true
      → recorded (os.time h) (frame_id raw) node.seen.entries ≡ false
      → receive os nacl node raw (length raw) source_fd h ≡ some ((r, node₁), h₁)
      → os.time (clocked ∷ h) ≤ os.time h₁
  heard_late node node₁ h h₁ r raw source_fd cache small bytes acc new run =
      elim (Bool-cases node.relay_enabled) [
        | inl on ↦ omega (
          arith,
          before,
          time-run os ticks (relay os (heard os node raw h) raw (length raw) source_fd) (r, node₁)
              later h₁
              (relay-Makes (λ f. Unit {0}) os v (heard os node raw h) raw (length raw) source_fd
                (λ old pkt is e alive buf out n size enc. tt))
              (sym (whole true on) ∙ run),
        )
        | inr off ↦
            let e : some ((ok 0, heard os node raw h), later) ≡ some ((r, node₁), h₁) =
              sym (whole false off) ∙ run in
            let same : later ≡ h₁ = cc e in omega (arith, before, ap os.time same)
      ]
    where
      later : History
      later = shown_at os nacl node raw (length raw) h

      whole :
          (on : Bool)
          → node.relay_enabled ≡ on
          → receive os nacl node raw (length raw) source_fd h ≡ (
              if on
              then relay os (heard os node raw h) raw (length raw) source_fd later
              else some ((ok 0, heard os node raw h), later))
      whole on e =
          handled os nacl v w node raw (length raw) source_fd h cache (omega arith) small bytes on
            acc new e

      before : os.time (clocked ∷ h) ≤ os.time later
      before = omega (
        arith,
        ticks (clocked ∷ h) clocked,
        time-append os ticks
            (shown nacl (heard os node raw h) (parsed raw (length raw) (blank os h)))
            (clocked ∷ clocked ∷ h),
      )

  pub frame-Calls :
      (node node₁ : Node) (h h₁ : History) (r : Ret ℕ) (raw : List ℕ) (source_fd : ℤ)
      → IsCache node.seen
      → length raw ≤ max_packet
      → Bytes raw
      → receive os nacl node raw (length raw) source_fd h ≡ some ((r, node₁), h₁)
      → Calls 1 node.seen node₁.seen (os.time h) (os.time h₁)
  frame-Calls node node₁ h h₁ r raw source_fd cache small bytes run =
      elim (Bool-cases (accepts raw (length raw))) [
        | inr rej ↦
            let e =
              receive_rejected os nacl v w node raw (length raw) source_fd h cache (omega arith)
                small bytes rej in
            let same : dropped os node ≡ node₁ = cc (run, e) in
            idle 1 node.seen node₁.seen (os.time h) (os.time h₁) (ap (λ n. n.seen) (sym same)) past
        | inl acc ↦ elim (Bool-cases (recorded (os.time h) (frame_id raw) node.seen.entries)) [
          | inl old ↦
              let e =
                receive_duplicate os nacl v w node raw (length raw) source_fd h cache (omega arith)
                  small bytes acc old in
              let same : dropped os
                    (record node { seen = (Seen.check node.seen (frame_id raw) (os.time h)).1 })
                  ≡ node₁ =
                cc (run, e) in
              record {
                calls = (os.time h, checks (frame_id raw)) ∷ [];
                same = ap (λ n. n.seen) (sym same);
                ascends = (omega arith, past);
                few = omega arith;
              }
          | inr new ↦
              let (r', node₂, h₂, e, seen, settled) =
                fresh-Leaves os nacl v w node raw (length raw) source_fd h cache (omega arith) small
                  bytes acc new in
              let same : node₂ ≡ node₁ = cc (run, e) in
              record {
                calls =
                    (os.time h, checks (frame_id raw))
                    ∷ (os.time (clocked ∷ h), adds (frame_id raw))
                    ∷ [];
                same = ap (λ n. n.seen) (sym same) ∙ seen;
                ascends = (
                  omega arith,
                  (
                    ticks h clocked,
                    heard_late node node₁ h h₁ r raw source_fd cache small bytes acc new run,
                  ),
                );
                few = omega arith;
              }
        ]
      ]
    where
      past : os.time h ≤ os.time h₁
      past =
          time-run os ticks (receive os nacl node raw (length raw) source_fd) (r, node₁) h h₁
            (receive-Makes (λ f. Unit {0}) os v nacl node raw (length raw) source_fd
              (λ old pkt is e alive buf out n size enc. tt))
            run

  pub send-Calls :
      (node node₁ : Node) (h h₁ : History) (r : Ret ℕ) (text : List ℕ)
      → send os nacl node text h ≡ some ((r, node₁), h₁)
      → Calls 1 node.seen node₁.seen (os.time h) (os.time h₁)
  send-Calls node node₁ h h₁ r text run = elim (dec_le (length text) max_message) [
    | no long ↦
        let e : some ((err, node), h) ≡ some ((r, node₁), h₁) =
          sym (send_refused os nacl node text h (omega arith)) ∙ run in
        let same : node ≡ node₁ = cc e in
        let still : h ≡ h₁ = cc e in
        idle 1 node.seen node₁.seen (os.time h) (os.time h₁) (ap (λ n. n.seen) (sym same))
          (omega (arith, ap os.time still))
    | yes small ↦
        let (id, h₂, count, peers, events, sent, size, kept, tally, before) =
          send-AllKept os nacl v w node text h small in
        let same : record node {
          peers = peers;
          seen = Seen.add node.seen id (os.time h₂);
          packets_sent = count_up node.packets_sent;
        }
            ≡ node₁ =
          cc (run, sent) in
        let ends : events ++ (clocked ∷ h₂) ≡ h₁ = cc (run, sent) in
        record {
          calls = (os.time h₂, adds id) ∷ [];
          same = ap (λ n. n.seen) (sym same);
          ascends = (
            time-Speaks os ticks before,
            omega (
              arith,
              ticks h₂ clocked,
              time-append os ticks events (clocked ∷ h₂),
              ap os.time ends,
            ),
          );
          few = omega arith;
        }
  ]
