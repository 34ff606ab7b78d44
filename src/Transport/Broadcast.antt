-- ===== src/Transport/Broadcast.antt =====
-- `vex_transport_send_to_all` call by call, on any kernel.
use vexconnect.Prelude.{
  ℕ, suc, ◌+◌, ◌≤◌, ◌≡◌, refl, ap, List, [], ◌∷◌, some, Bool, true, false, not, ◌&&◌, ◌||◌, Option,
  if◌then◌else◌, arith, length, take, Bool-cases, inl, inr,
}
use vexconnect.Prelude.Int.{ℤ, is_negative, int_eq}
use vexconnect.Prelude.Memory.{slice_lem}
use vexconnect.Node.{Peer, Node}
use vexconnect.System.{◌>>=◌, Os, History, wrote, closed, return}
use vexconnect.Transport.{frame_header, is_size, send_to_peer, send_loop, send_to_all}
use vexconnect.Transport.Send.{is_target}

-- A frame of some bytes goes to the peers in the order of the slots, from one time to another, and some get it:
-- a peer that is no target is passed over; a target is written the length and then the frame, and is counted;
-- or it is closed where the kernel does not take the length, or the frame.
pub data Broadcasts (os : Os) (except_fd : ℤ) (len : ℕ) (frame : List ℕ)
    : List Peer → List Peer → History → History → ℕ → Type 0 where
  finished : (h : History) → Broadcasts os except_fd len frame [] [] h h 0
  skipped :
      (p : Peer) {ps qs : List Peer} {h h' : History} {n : ℕ}
      → is_target except_fd p ≡ false
      → Broadcasts os except_fd len frame ps qs h h' n
      → Broadcasts os except_fd len frame (p ∷ ps) (p ∷ qs) h h' n
  given :
      (p : Peer) {ps qs : List Peer} {h h' : History} {n : ℕ}
      → is_target except_fd p ≡ true
      → is_size (os.write h p.fd (frame_header len)) 2 ≡ true
      → is_size (os.write (wrote p.fd (frame_header len) ∷ h) p.fd frame) len ≡ true
      → Broadcasts os except_fd len frame ps qs
          (wrote p.fd frame ∷ wrote p.fd (frame_header len) ∷ h)
          h'
          n
      → Broadcasts os except_fd len frame (p ∷ ps) (p ∷ qs) h h' (suc n)
  no_length :
      (p : Peer) {ps qs : List Peer} {h h' : History} {n : ℕ}
      → is_target except_fd p ≡ true
      → is_size (os.write h p.fd (frame_header len)) 2 ≡ false
      → Broadcasts os except_fd len frame ps qs
          (closed p.fd ∷ wrote p.fd (frame_header len) ∷ h)
          h'
          n
      → Broadcasts os except_fd len frame (p ∷ ps) (record p { active = false } ∷ qs) h h' n
  no_frame :
      (p : Peer) {ps qs : List Peer} {h h' : History} {n : ℕ}
      → is_target except_fd p ≡ true
      → is_size (os.write h p.fd (frame_header len)) 2 ≡ true
      → is_size (os.write (wrote p.fd (frame_header len) ∷ h) p.fd frame) len ≡ false
      → Broadcasts os except_fd len frame ps qs
          (closed p.fd ∷ wrote p.fd frame ∷ wrote p.fd (frame_header len) ∷ h)
          h'
          n
      → Broadcasts os except_fd len frame (p ∷ ps) (record p { active = false } ∷ qs) h h' n

module _ (os : Os) (bytes : List ℕ) (len : ℕ) (inside : len ≤ length bytes) (except_fd : ℤ) where
  -- One peer, and then the others.
  loop_step :
      (p q : Peer) (ps qs : List Peer) (b : Bool) (sent count : ℕ) (h h₁ h' : History)
      → (if p.active && not (int_eq p.fd except_fd)
            then send_to_peer os p bytes len
            else return (false, p))
          h
        ≡ some ((b, q), h₁)
      → send_loop os ps bytes len except_fd (if b then sent + 1 else sent) h₁
        ≡ some ((count, qs), h')
      → send_loop os (p ∷ ps) bytes len except_fd sent h ≡ some ((count, q ∷ qs), h')
  unfolding send_loop
  loop_step p q ps qs b sent count h h₁ h' one rest = simp (one, rest, ◌>>=◌) refl

  -- What a send does to a target.
  one_of :
      (p : Peer) (h : History) (r : Option ((Bool × Peer) × History))
      → is_target except_fd p ≡ true
      → send_to_peer os p bytes len h ≡ r
      → (if p.active && not (int_eq p.fd except_fd)
            then send_to_peer os p bytes len
            else return (false, p))
          h
        ≡ r
  one_of p h r on e =
      let chosen : (p.active && not (int_eq p.fd except_fd)) ≡ true = ground arith in rw chosen e

  passed_over :
      (p : Peer) (h : History)
      → is_target except_fd p ≡ false
      → (if p.active && not (int_eq p.fd except_fd)
            then send_to_peer os p bytes len
            else return (false, p))
          h
        ≡ some ((false, p), h)
  unfolding send_to_peer
  passed_over p h off = elim (Bool-cases (p.active && not (int_eq p.fd except_fd))) [
    | inr other ↦ rw other refl
    | inl chosen ↦
        let bad : (not p.active || is_negative p.fd) ≡ true = ground arith in rw (chosen, bad) refl
  ]

  -- What the loop of a broadcast does, from a slot on.
  abbrev pub Loops : List Peer → ℕ → History → Type 0
  Loops ps sent h =
      (count n : ℕ) × (qs : List Peer) × (h' : History) × (send_loop os ps bytes len except_fd sent
          h
        ≡ some ((count, qs), h'))
      × (count ≡ sent + n)
      × Broadcasts os except_fd len (take len bytes) ps qs h h' n

  target-Loops :
      (p : Peer) (ps : List Peer) (sent : ℕ) (h : History)
      → is_target except_fd p ≡ true
      → ((sent : ℕ) (h : History) → Loops ps sent h)
      → Loops (p ∷ ps) sent h
  unfolding send_to_peer
  target-Loops p ps sent h on next =
      elim (Bool-cases (is_size (os.write h p.fd (frame_header len)) 2)) [
        | inr cut ↦
            let (count, n, qs, h', run, sum, rest) =
              next sent (closed p.fd ∷ wrote p.fd (frame_header len) ∷ h) in
            (
              count,
              n,
              record p { active = false } ∷ qs,
              h',
              loop_step p (record p { active = false }) ps qs false sent count h _ h'
                  (one_of p h _ on (rw (open_it, cut) refl)) run,
              sum,
              no_length p on cut rest,
            )
        | inl headed ↦ elim (Bool-cases (is_size (os.write h₁ p.fd (take len bytes)) len)) [
          | inr cut ↦
              let (count, n, qs, h', run, sum, rest) =
                next sent (closed p.fd ∷ wrote p.fd (take len bytes) ∷ h₁) in
              (
                count,
                n,
                record p { active = false } ∷ qs,
                h',
                loop_step p (record p { active = false }) ps qs false sent count h _ h'
                    (one_of p h _ on
                      (rw (open_it, headed, slice_lem bytes 0 len (omega arith), cut) refl))
                    run,
                sum,
                no_frame p on headed cut rest,
              )
          | inl whole ↦
              let (count, n, qs, h', run, sum, rest) =
                next (sent + 1) (wrote p.fd (take len bytes) ∷ h₁) in
              (
                count,
                suc n,
                p ∷ qs,
                h',
                loop_step p p ps qs true sent count h _ h'
                    (one_of p h _ on
                      (rw (open_it, headed, slice_lem bytes 0 len (omega arith), whole) refl))
                    run,
                omega (arith, sum),
                given p on headed whole rest,
              )
        ]
      ]
    where
      h₁ : History
      h₁ = wrote p.fd (frame_header len) ∷ h

      open_it : (not p.active || is_negative p.fd) ≡ false
      open_it = ground arith

  send_loop-Broadcasts : (ps : List Peer) (sent : ℕ) (h : History) → Loops ps sent h
  unfolding send_loop
  send_loop-Broadcasts [] sent h = (sent, 0, [], h, refl, omega arith, finished h)
  send_loop-Broadcasts (p ∷ ps) sent h = elim (Bool-cases (is_target except_fd p)) [
    | inl on ↦ target-Loops p ps sent h on (send_loop-Broadcasts ps)
    | inr off ↦
        let (count, n, qs, h', run, sum, rest) = send_loop-Broadcasts ps sent h in
        (
          count,
          n,
          p ∷ qs,
          h',
          loop_step p p ps qs false sent count h h h' (passed_over p h off) run,
          sum,
          skipped p off rest,
        )
  ]

  -- A broadcast of a frame that lies inside its array, on any kernel.
  pub send_to_all-Broadcasts :
      (node : Node) (h : History)
      → (n : ℕ) × (qs : List Peer) × (h' : History) × (send_to_all os node bytes len except_fd h
          ≡ some ((n, record node { peers = qs }), h'))
        × Broadcasts os except_fd len (take len bytes) node.peers qs h h' n
  unfolding send_to_all
  send_to_all-Broadcasts node h =
      let (count, n, qs, h', run, sum, rest) = send_loop-Broadcasts node.peers 0 h in
      let same : count ≡ n = omega (arith, sum) in
      (
        n,
        qs,
        h',
        simp (run, ◌>>=◌) (ap (λ c. some ((c, record node { peers = qs }), h')) same),
        rest,
      )
