-- ===== src/Mesh/Traffic.antt =====
-- A node over a sequence of frames: a packet is handled once, whatever frames come between.
use vexconnect.Prelude.{
  ℕ, suc, ◌+◌, ◌≤◌, ◌<◌, ◌≡◌, refl, ◌∙◌, ap, subst, sym, List, [], ◌∷◌, ◌++◌, some, ◌||◌, true,
  false, Ret, ok, arith, length, Bytes,
}
use vexconnect.Prelude.Int.{ℤ}
use vexconnect.Node.{Node}
use vexconnect.Nacl.{Nacl, IsNacl}
use vexconnect.Seen
use vexconnect.Seen.{Cache, IsCache, recorded, seen_capacity, seen_ttl_sec}
use vexconnect.Seen.Check.{check-IsCache, prune-IsCache}
use vexconnect.Seen.Evict.{add-IsCache}
use vexconnect.Seen.Fresh.{recorded_just_added}
use vexconnect.Seen.Used.{used, used_later, used-check, used-add}
use vexconnect.Seen.History.{prunes, run, additions, added, recorded-run}
use vexconnect.Packet.{max_packet}
use vexconnect.Packet.Decode.{accepts}
use vexconnect.System.{Os, IsOs, History, Event, clocked}
use vexconnect.Transport.Clock.{Ticks, time-append}
use vexconnect.Mesh.{receive, send, dropped}
use vexconnect.Mesh.Receive.{frame_id, receive_duplicate}
use vexconnect.Mesh.Once.{fresh-Leaves}
use vexconnect.Seen.Calls.{idle, Calls, or_true, joined, Calls-IsCache}
use vexconnect.Mesh.Steps.{heard_late, frame-Calls, send-Calls}

-- What a node does in a time, with n frames and messages at most: frames of whatever bytes come from
-- whatever peers, messages of the user go out, the cache is pruned, and anything else is done that leaves the
-- cache as it is.
pub data Hears (os : Os) (nacl : Nacl) : ℕ → Node → History → Node → History → Type 0 where
  quiet : (node : Node) (h : History) → Hears os nacl 0 node h node h
  pruned :
      (n : ℕ) (node node' : Node) (h h' : History)
      → Hears os nacl n
          (record node { seen = Seen.prune node.seen (os.time h) })
          (clocked ∷ h)
          node'
          h'
      → Hears os nacl n node h node' h'
  frame :
      (n : ℕ) (node node₁ node' : Node) (h h₁ h' : History) (r : Ret ℕ) (raw : List ℕ)
      (source_fd : ℤ)
      → length raw ≤ max_packet
      → Bytes raw
      → receive os nacl node raw (length raw) source_fd h ≡ some ((r, node₁), h₁)
      → Hears os nacl n node₁ h₁ node' h'
      → Hears os nacl (suc n) node h node' h'
  said :
      (n : ℕ) (node node₁ node' : Node) (h h₁ h' : History) (r : Ret ℕ) (text : List ℕ)
      → send os nacl node text h ≡ some ((r, node₁), h₁)
      → Hears os nacl n node₁ h₁ node' h'
      → Hears os nacl (suc n) node h node' h'
  aside :
      (n : ℕ) (node node₁ node' : Node) (h h' : History) (events : List Event)
      → node₁.seen ≡ node.seen
      → Hears os nacl n node₁ (events ++ h) node' h'
      → Hears os nacl n node h node' h'

module _ (os : Os) (nacl : Nacl) (v : IsOs os) (w : IsNacl nacl) (ticks : Ticks os) where
  -- The cache after the traffic is the cache after some calls, of which at most n are additions.
  Hears-Calls :
      {n : ℕ} {node node' : Node} {h h' : History}
      → IsCache node.seen
      → Hears os nacl n node h node' h'
      → Calls n node.seen node'.seen (os.time h) (os.time h')
  Hears-Calls cache (quiet node h) =
      idle 0 node.seen node.seen (os.time h) (os.time h) refl (omega arith)
  Hears-Calls cache (pruned n node node' h h' rest) =
      joined 0 n n node.seen (Seen.prune node.seen (os.time h)) node'.seen (os.time h)
        (os.time (clocked ∷ h)) (os.time h') (omega arith)
        (record {
          calls = (os.time h, prunes) ∷ [];
          same = refl;
          ascends = (omega arith, ticks h clocked);
          few = omega arith;
        })
        (Hears-Calls (prune-IsCache node.seen (os.time h) cache) rest)
  Hears-Calls cache (frame m node node₁ node' h h₁ h' r raw source_fd small bytes run rest) =
      let one =
        frame-Calls os nacl v w ticks node node₁ h h₁ r raw source_fd cache small bytes run in
      joined 1 m (suc m) node.seen node₁.seen node'.seen (os.time h) (os.time h₁) (os.time h')
        (omega arith) one
        (Hears-Calls (Calls-IsCache 1 node.seen node₁.seen (os.time h) (os.time h₁) cache one) rest)
  Hears-Calls cache (said m node node₁ node' h h₁ h' r text run rest) =
      let one = send-Calls os nacl v w ticks node node₁ h h₁ r text run in
      joined 1 m (suc m) node.seen node₁.seen node'.seen (os.time h) (os.time h₁) (os.time h')
        (omega arith) one
        (Hears-Calls (Calls-IsCache 1 node.seen node₁.seen (os.time h) (os.time h₁) cache one) rest)
  Hears-Calls cache (aside n node node₁ node' h h' events same rest) =
      joined 0 n n node.seen node₁.seen node'.seen (os.time h) (os.time (events ++ h)) (os.time h')
        (omega arith)
        (idle 0 node.seen node₁.seen (os.time h) (os.time (events ++ h)) same
          (time-append os ticks events h))
        (Hears-Calls (subst IsCache (sym same) cache) rest)

  -- A packet is handled once, whatever the node does in between: a frame with a new id was handled, then the node
  -- got frames of whatever bytes from whatever peers and sent messages of its own, fewer than the cache
  -- has entries left, with pruning and any other work that leaves the cache as it is between them, and
  -- then, within 60 seconds by a clock that does not run backwards, comes a frame with that id that decodes.
  -- It is dropped: it is neither shown nor forwarded.
  pub receive_again :
      (n : ℕ) (node node₁ node' : Node) (h h₁ h' : History) (r : Ret ℕ) (raw raw' : List ℕ)
      (fd fd' : ℤ)
      → IsCache node.seen
      → length raw ≤ max_packet
      → Bytes raw
      → accepts raw (length raw) ≡ true
      → recorded (os.time h) (frame_id raw) node.seen.entries ≡ false
      → receive os nacl node raw (length raw) fd h ≡ some ((r, node₁), h₁)
      → Hears os nacl n node₁ h₁ node' h'
      → used (os.time h) node.seen.entries + n < seen_capacity
      → length raw' ≤ max_packet
      → Bytes raw'
      → accepts raw' (length raw') ≡ true
      → frame_id raw' ≡ frame_id raw
      → os.time h' ≤ os.time (clocked ∷ h) + seen_ttl_sec
      → receive os nacl node' raw' (length raw') fd' h'
        ≡ some (
          (
            ok 0,
            dropped os
                (record node' { seen = (Seen.check node'.seen (frame_id raw') (os.time h')).1 }),
          ),
          clocked ∷ h',
        )
  receive_again n node node₁ node' h h₁ h' r raw raw' fd fd' cache small bytes acc new run₁ traffic
        room small' bytes' acc' same soon =
      receive_duplicate os nacl v w node' raw' (length raw') fd' h'
        (Calls-IsCache n node₁.seen node'.seen (os.time h₁) (os.time h') cache₁ between)
        (omega arith) small' bytes' acc'
        (ap (λ i. recorded (os.time h') i node'.seen.entries) same ∙ known)
    where
      up : os.time h ≤ os.time (clocked ∷ h)
      up = ticks h clocked

      up' : os.time (clocked ∷ h) ≤ os.time h₁
      up' = heard_late os nacl v w ticks node node₁ h h₁ r raw fd cache small bytes acc new run₁

      id : List ℕ
      id = frame_id raw

      checked : Cache
      checked = (Seen.check node.seen id (os.time h)).1

      stored : Cache
      stored = Seen.add checked id (os.time (clocked ∷ h))

      checked-IsCache : IsCache checked
      checked-IsCache = check-IsCache node.seen id (os.time h) cache

      stored-IsCache : IsCache stored
      stored-IsCache = add-IsCache checked id (os.time (clocked ∷ h)) checked-IsCache

      as_stored : node₁.seen ≡ stored
      as_stored =
          let (r', node₂, h₂, e, seen, settled) =
            fresh-Leaves os nacl v w node raw (length raw) fd h cache (omega arith) small bytes acc
              new in
          let one : node₂ ≡ node₁ = cc (run₁, e) in ap (λ n. n.seen) (sym one) ∙ seen

      cache₁ : IsCache node₁.seen
      cache₁ = subst IsCache (sym as_stored) stored-IsCache

      between : Calls n node₁.seen node'.seen (os.time h₁) (os.time h')
      between = Hears-Calls cache₁ traffic

      fits : used (os.time h₁) stored.entries + additions between.calls ≤ seen_capacity
      fits = omega (
        arith,
        room,
        between.few,
        used_later (os.time (clocked ∷ h)) (os.time h₁) stored.entries up',
        used-add checked id (os.time (clocked ∷ h)),
        used_later (os.time h) (os.time (clocked ∷ h)) checked.entries up,
        used-check node.seen id (os.time h),
      )

      known : recorded (os.time h') id node'.seen.entries ≡ true
      known =
          ap (λ c. recorded (os.time h') id c.entries)
            (between.same ∙ ap (λ c. run c between.calls) as_stored)
          ∙ recorded-run between.calls stored id (os.time h₁) (os.time h') stored-IsCache
              between.ascends fits
          ∙ ap (λ b. added (os.time h') id between.calls || b)
              (recorded_just_added checked id (os.time (clocked ∷ h)) (os.time h') checked-IsCache
                soon)
          ∙ or_true (added (os.time h') id between.calls)
