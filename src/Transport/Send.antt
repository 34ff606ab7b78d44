-- ===== src/Transport/Send.antt =====
-- `vex_transport_send_to_all`: to whom it writes, and what becomes of the peers.
use vexconnect.Prelude.{
  ap, suc, ℕ, ◌+◌, ◌≤◌, ◌≡◌, refl, List, [], ◌∷◌, ◌++◌, some, Bool, true, false, not, ◌&&◌,
  if◌then◌else◌, arith, length, take, All-append, All, All-append, Bool-cases, ◌⊎◌, inl, inr,
  append_assoc,
}
use vexconnect.Prelude.Int.{ℤ, is_negative, int_eq}
use vexconnect.Prelude.Memory.{slice_lem}
use vexconnect.Node.{Peer, Node}
use vexconnect.System.{◌>>=◌, Os, History, Event, wrote, closed}
use vexconnect.Transport.{frame_header, is_size, send_to_peer, send_loop, send_to_all}

-- A peer that a frame is sent to.
abbrev pub is_target : ℤ → Peer → Bool
is_target except_fd p = p.active && (not (is_negative p.fd) && not (int_eq p.fd except_fd))

abbrev pub targets : ℤ → List Peer → ℕ
targets except_fd [] = 0
targets except_fd (p ∷ ps) = (if is_target except_fd p then 1 else 0) + targets except_fd ps

-- The calls, newest first, that send a frame to every target in the order of the slots.
abbrev pub deliveries : ℤ → List ℕ → List Peer → History → History
deliveries except_fd frame [] h = h
deliveries except_fd frame (p ∷ ps) h = deliveries except_fd frame ps (
    if is_target except_fd p
    then wrote p.fd frame ∷ wrote p.fd (frame_header (length frame)) ∷ h
    else h)

-- A call that neither writes to a descriptor nor closes it.
abbrev pub spares : ℤ → Event → Bool
spares fd (wrote fd' bytes) = not (int_eq fd' fd)
spares fd (closed fd') = not (int_eq fd' fd)
spares fd _ = true

-- A slot after a send: unchanged, or closed.
abbrev pub Kept : Peer → Peer → Type 0
Kept p q = (q ≡ p) ⊎ (q ≡ record p { active = false })

abbrev pub AllKept : List Peer → List Peer → Type 0
AllKept [] [] = Unit {0}
AllKept [] (q ∷ qs) = ⊥
AllKept (p ∷ ps) [] = ⊥
AllKept (p ∷ ps) (q ∷ qs) = Kept p q × AllKept ps qs

pub AllKept-refl : (ps : List Peer) → AllKept ps ps
AllKept-refl [] = tt
AllKept-refl (p ∷ ps) = (inl refl, AllKept-refl ps)

pub length-AllKept : (ps qs : List Peer) → AllKept ps qs → length qs ≡ length ps
length-AllKept [] [] k = refl
length-AllKept [] (q ∷ qs) k = absurd k
length-AllKept (p ∷ ps) [] k = absurd k
length-AllKept (p ∷ ps) (q ∷ qs) k = ap suc (length-AllKept ps qs k.1)

module _ (os : Os) (bytes : List ℕ) (len : ℕ) (inside : len ≤ length bytes) where
  body : List ℕ
  body = take len bytes

  -- What one send does: it keeps the peer or closes it, and touches its descriptor alone.
  record PeerSent (p : Peer) (h : History) (fd : ℤ) : Type 0 where
    done : Bool
    peer : Peer
    events : List Event
    runs : send_to_peer os p bytes len h ≡ some ((done, peer), events ++ h)
    kept : Kept p peer
    tally : done ≡ is_target fd peer
    quiet : All (λ e. spares fd e ≡ true) events

  send_to_peer-PeerSent :
      (p : Peer) (h : History) (fd : ℤ) → p.active ≡ true → int_eq p.fd fd ≡ false → PeerSent p h fd
  unfolding send_to_peer body
  send_to_peer-PeerSent p h fd up other = elim (Bool-cases (is_negative p.fd)) [
    | inl bad ↦ record {
      done = false;
      peer = p;
      events = [];
      runs = rw (up, bad);
      kept = inl refl;
      tally = ground arith;
      quiet = tt;
    }
    | inr good ↦ elim (Bool-cases (is_size (os.write h p.fd (frame_header len)) 2)) [
      | inr cut ↦ record {
        done = false;
        peer = record p { active = false };
        events = closed p.fd ∷ wrote p.fd (frame_header len) ∷ [];
        runs = rw (up, good, cut);
        kept = inr refl;
        tally = refl;
        quiet = ground arith;
      }
      | inl headed ↦ elim (Bool-cases (is_size (os.write h₁ p.fd body) len)) [
        | inr cut ↦ record {
          done = false;
          peer = record p { active = false };
          events = closed p.fd ∷ wrote p.fd body ∷ wrote p.fd (frame_header len) ∷ [];
          runs = rw (up, good, headed, slice_lem bytes 0 len (omega arith), cut);
          kept = inr refl;
          tally = refl;
          quiet = ground arith;
        }
        | inl whole ↦ record {
          done = true;
          peer = p;
          events = wrote p.fd body ∷ wrote p.fd (frame_header len) ∷ [];
          runs = rw (up, good, headed, slice_lem bytes 0 len (omega arith), whole);
          kept = inl refl;
          tally = ground arith;
          quiet = ground arith;
        }
      ]
    ]
  ]
    where
      h₁ : History
      h₁ = wrote p.fd (frame_header len) ∷ h

  -- What the loop does to the peers that are left.
  pub record LoopSent (ps : List Peer) (h : History) (fd : ℤ) (sent : ℕ) : Type 0 where
    pub count : ℕ
    pub peers : List Peer
    pub events : List Event
    pub runs : send_loop os ps bytes len fd sent h ≡ some ((count, peers), events ++ h)
    pub kept : AllKept ps peers
    pub tally : count ≡ sent + targets fd peers
    pub quiet : All (λ e. spares fd e ≡ true) events

  send_loop-LoopSent : (ps : List Peer) (h : History) (fd : ℤ) (sent : ℕ) → LoopSent ps h fd sent
  unfolding send_loop
  send_loop-LoopSent [] h fd sent = record {
    count = sent;
    peers = [];
    events = [];
    runs = refl;
    kept = tt;
    tally = omega arith;
    quiet = tt;
  }
  send_loop-LoopSent (p ∷ ps) h fd sent = elim (Bool-cases (p.active && not (int_eq p.fd fd))) [
    | inr skipped ↦
        let r = send_loop-LoopSent ps h fd sent in
        record {
          count = r.count;
          peers = p ∷ r.peers;
          events = r.events;
          runs = rw (skipped, r.runs, ◌>>=◌);
          kept = (inl refl, r.kept);
          tally = ground (arith, r.tally);
          quiet = r.quiet;
        }
    | inl chosen ↦
        let one = send_to_peer-PeerSent p h fd (ground arith) (ground arith) in
        let r = send_loop-LoopSent ps (one.events ++ h) fd (if one.done then sent + 1 else sent) in
        record {
          count = r.count;
          peers = one.peer ∷ r.peers;
          events = r.events ++ one.events;
          runs = rw (chosen, one.runs, r.runs, append_assoc r.events one.events h, ◌>>=◌);
          kept = (one.kept, r.kept);
          tally = ground (arith, r.tally, one.tally);
          quiet =
              All-append (λ (e : Event). spares fd e ≡ true) r.events one.events r.quiet one.quiet;
        }
  ]

-- Whatever the kernel answers: a frame that lies inside its array is sent with no access outside it.
-- No call writes to the excepted descriptor or closes it, each slot is kept as it is or closed, the
-- number that is returned is that of the targets that are still open, and nothing else of the node
-- changes.
pub send_to_all_lem :
    (os : Os) (node : Node) (bytes : List ℕ) (len : ℕ) (except_fd : ℤ) (h : History)
    → len ≤ length bytes
    → (count : ℕ) × (peers : List Peer) × (events : List Event) × (send_to_all os node bytes len
          except_fd h
        ≡ some ((count, record node { peers = peers }), events ++ h))
      × AllKept node.peers peers
      × (count ≡ targets except_fd peers)
      × All (λ e. spares except_fd e ≡ true) events
unfolding send_to_all
send_to_all_lem os node bytes len except_fd h inside =
    let r = send_loop-LoopSent os bytes len inside node.peers h except_fd 0 in
    (r.count, r.peers, r.events, rw (r.runs, ◌>>=◌), r.kept, omega (arith, r.tally), r.quiet)
