-- ===== src/Program/Drift.antt =====
-- The count of peers in the main loop, when a read fails.
use vexconnect.Prelude.{
  ◌≢◌, ℕ, zero, suc, ◌+◌, ◌<◌, ◌≡◌, ◌⊎◌, inl, refl, ap, sym, ◌∙◌, List, [], ◌∷◌, some, true, false,
  arith, err, get_elem?, set,
}
use vexconnect.Prelude.Int.{pos, decrement}
use vexconnect.Node.{Peer, Node}
use vexconnect.Nacl.{Nacl}
use vexconnect.Packet.{max_packet}
use vexconnect.Transport.{unix_read}
use vexconnect.Transport.Deliver.{active_count}
use vexconnect.Transport.Accept.{CountIsRight}
use vexconnect.Transport.Rounds.{head_failed, head_bad, head_read, frame_bad, frame_size}
use vexconnect.System.{Os, History, ReadReply, got, has_read, closed, ◌>>=◌}
use vexconnect.Program.{serve_peer}

set_same : {A : Type 0} (xs : List A) (i : ℕ) (x : A) → get_elem? xs i ≡ some x → set xs i x ≡ xs
set_same [] i x e = refl
set_same (y ∷ xs) zero x e = ap (λ z. z ∷ xs) (sym (cc e))
set_same (y ∷ xs) (suc i) x e = ap (◌∷◌ y) (set_same xs i x e)

-- Closing an open slot takes one off the count of the slots in use.
active_count-set :
    (ps : List Peer) (i : ℕ) (p : Peer)
    → get_elem? ps i ≡ some p
    → p.active ≡ true
    → active_count ps ≡ active_count (set ps i (record p { active = false })) + 1
active_count-set [] i p e up = absurd (cc e)
active_count-set (q ∷ ps) zero p e up =
    let same : q ≡ p = cc e in
    let open_slot : q.active ≡ true = ap (λ (x : Peer). x.active) same ∙ up in
    rw open_slot (omega arith)
active_count-set (q ∷ ps) (suc i) p e up = omega (arith, active_count-set ps i p e up)

decrement_changes : (n : ℕ) → decrement (pos n) ≢ pos n
decrement_changes n e = ground arith

decrement_next : (n : ℕ) → decrement (pos (n + 1)) ≡ pos n
decrement_next n = ground arith

-- The start of a read that is refused, and that leaves the peer in use: a header of one byte, or one
-- with a length above the limit.
abbrev pub IsBadHead : List ℕ → Type 0
IsBadHead [] = ⊥
IsBadHead (a ∷ []) = Unit {0}
IsBadHead (a ∷ b ∷ []) = max_packet < frame_size a b
IsBadHead (a ∷ b ∷ c ∷ bs) = ⊥

module _ (os : Os) (nacl : Nacl) (node : Node) (i : ℕ) (p : Peer) (h : History)
    (found : get_elem? node.peers i ≡ some p) (up : p.active ≡ true) where
  refused :
      (bs : List ℕ)
      → os.read h p.fd 2 ≡ got bs
      → IsBadHead bs
      → unix_read os p (os.uninit h max_packet) max_packet h
        ≡ some ((err, p, os.uninit h max_packet), has_read p.fd 2 ∷ h)
  refused [] e bad = absurd bad
  refused (a ∷ []) e bad =
      head_bad os p (os.uninit h max_packet) max_packet h up a [] e (λ two. omega arith)
  refused (a ∷ b ∷ []) e bad =
      head_read os p (os.uninit h max_packet) max_packet h up a b e
      ∙ frame_bad os p (os.uninit h max_packet) max_packet a b (has_read p.fd 2 ∷ h) (inl bad)
  refused (a ∷ b ∷ c ∷ bs) e bad = absurd bad

  -- A peer that is open and from which a header of one byte comes, or a length above 512, stays open in its
  -- slot, but the count of peers falls by one: if it was right before, it is wrong after.
  pub serve_peer_drifts :
      (bs : List ℕ)
      → os.read h p.fd 2 ≡ got bs
      → IsBadHead bs
      → CountIsRight node
      → (serve_peer os nacl node i p h
          ≡ some (record node { peer_count = decrement node.peer_count }, has_read p.fd 2 ∷ h))
        × (¬ CountIsRight (record node { peer_count = decrement node.peer_count }))
  unfolding serve_peer
  serve_peer_drifts bs e bad right = (
    rw (refused bs e bad, ◌>>=◌)
        (ap
          (λ ps. some (
            record node { peers = ps; peer_count = decrement node.peer_count },
            has_read p.fd 2 ∷ h,
          ))
          (set_same node.peers i p found)),
    (λ wrong. decrement_changes (active_count node.peers) (ap decrement (sym right) ∙ wrong)),
  )

  -- Where the connection of an open peer is at its end or its read fails, its descriptor is closed, its
  -- slot is free, and the count of peers stays right.
  pub serve_peer_closes :
      (r : ReadReply)
      → os.read h p.fd 2 ≡ r
      → (r ≡ got []) ⊎ (r ≡ ReadReply.failed)
      → CountIsRight node
      → (node' : Node) × (serve_peer os nacl node i p h
          ≡ some (node', closed p.fd ∷ has_read p.fd 2 ∷ h))
        × (node'.peers ≡ set node.peers i (record p { active = false }))
        × CountIsRight node'
  unfolding serve_peer
  serve_peer_closes r e ended right = (
    record node {
      peers = set node.peers i (record p { active = false });
      peer_count = decrement node.peer_count;
    },
    rw (head_failed os p (os.uninit h max_packet) max_packet h up r e ended, ◌>>=◌) refl,
    refl,
    ap decrement right
        ∙ ap (λ n. decrement (pos n)) (active_count-set node.peers i p found up)
        ∙ decrement_next (active_count (set node.peers i (record p { active = false }))),
  )
