-- ===== src/Transport/Deliver.antt =====
-- `vex_transport_send_to_all` where the kernel takes every write, and where it takes none.
use vexconnect.Prelude.{
  ℕ, ◌+◌, ◌≤◌, ◌≡◌, refl, ap, List, [], ◌∷◌, some, Bool, true, false, not, ◌&&◌, if◌then◌else◌,
  arith, length, take, All, Bool-cases, length-take, ==_refl, inl, inr,
}
use vexconnect.Prelude.Int.{minus_one, ℤ, pos, is_negative, int_eq}
use vexconnect.Prelude.Memory.{slice_lem}
use vexconnect.Node.{Peer, Node}
use vexconnect.System.{return, ◌>>=◌, Os, Io, History, wrote, closed}
use vexconnect.Transport.Send.{is_target, targets, deliveries}
use vexconnect.Transport.{frame_header, send_to_peer, send_loop, send_to_all}

-- The kernel takes every write whole.
abbrev pub WritesWhole : Os → Type 0
WritesWhole os = (h : History) (fd : ℤ) (bytes : List ℕ) → os.write h fd bytes ≡ pos (length bytes)

module _ (os : Os) (bytes : List ℕ) (len : ℕ) (inside : len ≤ length bytes)
    (whole : WritesWhole os) where
  frame : List ℕ
  frame = take len bytes

  length-frame : length frame ≡ len
  unfolding frame
  length-frame = omega (arith, length-take len bytes)

  send_to_peer_whole :
      (p : Peer) (h : History)
      → p.active ≡ true
      → is_negative p.fd ≡ false
      → send_to_peer os p bytes len h
        ≡ some ((true, p), wrote p.fd frame ∷ wrote p.fd (frame_header len) ∷ h)
  unfolding send_to_peer frame
  send_to_peer_whole p h up good = rw (
    up,
    good,
    whole h p.fd (frame_header len),
    slice_lem bytes 0 len (omega arith),
    whole _ p.fd (take len bytes),
    length-frame,
    ==_refl len,
  )

  one_send : Peer → ℤ → Io (Bool × Peer)
  one_send p fd =
      if p.active && not (int_eq p.fd fd) then send_to_peer os p bytes len else return (false, p)

  after_send : Peer → ℤ → History → History
  after_send p fd h =
      if is_target fd p then wrote p.fd frame ∷ wrote p.fd (frame_header (length frame)) ∷ h else h

  one_send_chosen :
      (p : Peer) (fd : ℤ) (h : History)
      → p.active ≡ true
      → int_eq p.fd fd ≡ false
      → one_send p fd h ≡ some ((is_target fd p, p), after_send p fd h)
  unfolding one_send after_send
  one_send_chosen p fd h up other = elim (Bool-cases (is_negative p.fd)) [
    | inl bad ↦ simp (up, other, bad) (skipped p h up bad)
    | inr good ↦ simp (up, other, good, length-frame) (send_to_peer_whole p h up good)
  ]
    where
      skipped :
          (p : Peer) (h : History)
          → p.active ≡ true
          → is_negative p.fd ≡ true
          → send_to_peer os p bytes len h ≡ some ((false, p), h)
      skipped p h up bad = unfold send_to_peer in simp (up, bad)

  one_send_lem :
      (p : Peer) (fd : ℤ) (h : History)
      → one_send p fd h ≡ some ((is_target fd p, p), after_send p fd h)
  one_send_lem p fd h = elim (Bool-cases p.active) [
    | inr down ↦ unfold one_send after_send in simp down
    | inl up ↦ elim (Bool-cases (int_eq p.fd fd)) [
      | inr other ↦ one_send_chosen p fd h up other
      | inl same ↦ unfold one_send after_send in ground arith
    ]
  ]

  send_loop_whole :
      (ps : List Peer) (h : History) (fd : ℤ) (sent : ℕ)
      → send_loop os ps bytes len fd sent h
        ≡ some ((sent + targets fd ps, ps), deliveries fd frame ps h)
  unfolding send_loop one_send after_send
  send_loop_whole [] h fd sent = ap (λ n. some ((n, []), h)) (omega arith)
  send_loop_whole (p ∷ ps) h fd sent =
      rw (one_send_lem p fd h, ◌>>=◌)
        (rw
          (
            send_loop_whole ps (after_send p fd h) fd (if is_target fd p then sent + 1 else sent),
            ◌>>=◌,
          )
          (ap (λ n. some ((n, p ∷ ps), deliveries fd frame ps (after_send p fd h))) (ground arith)))

-- Where the kernel takes every write whole, the frame goes, behind the two bytes of its length, once to
-- each open peer but the excepted one, in the order of the slots; the node stays as it is, and the
-- number of those peers is returned.
pub send_to_all-delivers :
    (os : Os) (node : Node) (bytes : List ℕ) (len : ℕ) (except_fd : ℤ) (h : History)
    → len ≤ length bytes
    → WritesWhole os
    → send_to_all os node bytes len except_fd h
      ≡ some
          ((targets except_fd node.peers, node), deliveries except_fd (take len bytes) node.peers h)
unfolding send_to_all frame
send_to_all-delivers os node bytes len except_fd h inside whole =
    rw (send_loop_whole os bytes len inside whole node.peers h except_fd 0, ◌>>=◌)
      (ap (λ n. some ((n, node), deliveries except_fd (take len bytes) node.peers h)) (omega arith))

-- The kernel refuses every write.
abbrev pub WritesFail : Os → Type 0
WritesFail os = (h : History) (fd : ℤ) (bytes : List ℕ) → os.write h fd bytes ≡ minus_one

-- The slots in use.
abbrev pub active_count : List Peer → ℕ
active_count [] = 0
active_count (p ∷ ps) = (if p.active then 1 else 0) + active_count ps

send_loop_fails :
    (os : Os) (bytes : List ℕ) (len : ℕ) (fails : WritesFail os) (ps : List Peer) (h : History)
    (sent : ℕ)
    → All (λ p. is_negative p.fd ≡ false) ps
    → (qs : List Peer) × (h' : History) × (send_loop os ps bytes len minus_one sent h
        ≡ some ((sent, qs), h'))
      × (active_count qs ≡ 0)
unfolding send_loop
send_loop_fails os bytes len fails [] h sent good = ([], h, refl, refl)
send_loop_fails os bytes len fails (p ∷ ps) h sent good = elim (Bool-cases p.active) [
  | inr down ↦
      let (qs, h', run, none_left) = send_loop_fails os bytes len fails ps h sent good.1 in
      (p ∷ qs, h', simp (down, run, ◌>>=◌), ground (arith, none_left))
  | inl up ↦
      let h₁ = closed p.fd ∷ wrote p.fd (frame_header len) ∷ h in
      let (qs, h', run, none_left) = send_loop_fails os bytes len fails ps h₁ sent good.1 in
      (
        record p { active = false } ∷ qs,
        h',
        simp (up, negative_ne p.fd good.0, refused p h up good.0, run, ◌>>=◌),
        ground (arith, none_left),
      )
]
  where
    negative_ne : (fd : ℤ) → is_negative fd ≡ false → int_eq fd minus_one ≡ false
    negative_ne fd e = ground arith

    refused :
        (p : Peer) (h : History)
        → p.active ≡ true
        → is_negative p.fd ≡ false
        → send_to_peer os p bytes len h
          ≡ some (
            (false, record p { active = false }),
            closed p.fd ∷ wrote p.fd (frame_header len) ∷ h,
          )
    refused p h up good = unfold send_to_peer in simp (up, good, fails h p.fd (frame_header len))

-- A failing send closes a peer and does not lower `peer_count`: where the kernel refuses every write,
-- no slot is in use after a broadcast, and the count is what it was.
pub send_to_all-miscounts :
    (os : Os) (node : Node) (bytes : List ℕ) (len : ℕ) (h : History)
    → WritesFail os
    → All (λ p. is_negative p.fd ≡ false) node.peers
    → (node' : Node) × (h' : History) × (send_to_all os node bytes len minus_one h
        ≡ some ((0, node'), h'))
      × (active_count node'.peers ≡ 0)
      × (node'.peer_count ≡ node.peer_count)
unfolding send_to_all
send_to_all-miscounts os node bytes len h fails good =
    let (qs, h', run, none_left) = send_loop_fails os bytes len fails node.peers h 0 good in
    (record node { peers = qs }, h', rw (run, ◌>>=◌), none_left, refl)
