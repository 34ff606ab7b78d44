-- ===== src/Transport/Accept.antt =====
-- The peer slots: who gets one, and the count of them.
use vexconnect.Prelude.{
  ℕ, suc, ◌+◌, ◌-◌, ◌≤◌, ◌<◌, ◌≡◌, refl, ap, ◌∙◌, List, [], ◌∷◌, ◌++◌, Option, none, some, Bool,
  true, false, lt→ltb, Ret, ok, err, arith, length, take, Bool-cases, ◌⊎◌, inl, inr,
}
use vexconnect.Prelude.Int.{ℤ, pos, increment, is_negative}
use vexconnect.Prelude.Text.{codes}
use vexconnect.Packet.{max_packet}
use vexconnect.Node.{Peer, Node}
use vexconnect.System.{
  Os, History, AcceptReply, peer_at, ReadReply, got, has_read, closed, set_nonblocking, clocked,
  made_socket, connected, accepted, ◌>>=◌,
}
use vexconnect.Transport.{
  name_size, unix_connect, sun_path_size, take_slot, unix_accept, keep_connection, unix_read,
  decimal,
}
use vexconnect.Transport.Deliver.{active_count}
use vexconnect.Transport.Rounds.{head_read, frame_good, frame_size, round_stuck}

-- `peer_count` is the number of slots in use.
abbrev pub CountIsRight : Node → Type 0
CountIsRight node = node.peer_count ≡ pos (active_count node.peers)

-- What looking for a free slot does: it takes the first one, or all are in use and it does nothing.
abbrev pub Taken : List Peer → History → Option (Option (List Peer) × History) → Type 0
Taken ps h r =
    ((qs : List Peer) × (h' : History) × (r ≡ some (some qs, h'))
      × (active_count qs ≡ active_count ps + 1)
      × (length qs ≡ length ps))
    ⊎ ((r ≡ some (none, h)) × (active_count ps ≡ length ps))

module _ (os : Os) (fd : ℤ) (name : List ℕ) where
  pub take_slot-Taken : (ps : List Peer) (h : History) → Taken ps h (take_slot os fd name ps h)
  unfolding take_slot
  take_slot-Taken [] h = inr (refl, refl)
  take_slot-Taken (p ∷ ps) h = go p.active refl (take_slot-Taken ps h)
    where
      go :
          (b : Bool)
          → p.active ≡ b
          → Taken ps h (take_slot os fd name ps h)
          → Taken (p ∷ ps) h (take_slot os fd name (p ∷ ps) h)
      go false e r = inl (
        record p { fd = fd; active = true; last_seen = os.time h; name = take (name_size - 1) name }
            ∷ ps,
        set_nonblocking fd ∷ clocked ∷ h,
        rw (e, take_slot),
        ground arith,
        refl,
      )
      go true e (inl (qs, h', run, up, size)) =
          inl (p ∷ qs, h', simp (e, take_slot) (simp (run, ◌>>=◌)), ground (arith, up), ap suc size)
      go true e (inr (run, full)) =
          inr (simp (e, take_slot) (simp (run, ◌>>=◌)), ground (arith, full))

-- A call changes only the slots and their count: both stay, or a slot more is in use and counted.
abbrev pub Counted : Node → Option ((Ret ℕ × Node) × History) → Type 0
Counted node r =
    (reply : Ret ℕ) × (qs : List Peer) × (n : ℤ) × (h' : History) × (r
      ≡ some ((reply, record node { peers = qs; peer_count = n }), h'))
    × (length qs ≡ length node.peers)
    × (((n ≡ node.peer_count) × (active_count qs ≡ active_count node.peers))
        ⊎ ((n ≡ increment node.peer_count) × (active_count qs ≡ active_count node.peers + 1)))

module _ (os : Os) (node : Node) where
  taken :
      (reply : Ret ℕ) (qs : List Peer) (h' : History) (r : Option ((Ret ℕ × Node) × History))
      → active_count qs ≡ active_count node.peers + 1
      → length qs ≡ length node.peers
      → r ≡ some ((reply, record node { peers = qs; peer_count = increment node.peer_count }), h')
      → Counted node r
  taken reply qs h' r up size e =
      (reply, qs, increment node.peer_count, h', e, size, inr (refl, up))

  unchanged :
      (reply : Ret ℕ) (h' : History) (r : Option ((Ret ℕ × Node) × History))
      → r ≡ some ((reply, node), h')
      → Counted node r
  unchanged reply h' r e = (reply, node.peers, node.peer_count, h', e, refl, inl (refl, refl))

  pub unix_accept-Counted : (h : History) → Counted node (unix_accept os node h)
  unfolding unix_accept
  unix_accept-Counted h = go (os.accept h node.listen_fd) refl
    where
      placed :
          (fd : ℤ)
          → os.accept h node.listen_fd ≡ peer_at fd
          → Taken node.peers (accepted node.listen_fd ∷ h) (
              take_slot os fd
                (codes "peer-" ++ decimal fd)
                node.peers
                (accepted node.listen_fd ∷ h))
          → Counted node (unix_accept os node h)
      placed fd e (inl (qs, h', run, up, size)) =
          taken (ok 1) qs h' _ up size (rw (e, unix_accept) (rw (run, ◌>>=◌)))
      placed fd e (inr (run, full)) =
          unchanged (ok 0) (closed fd ∷ accepted node.listen_fd ∷ h) _
            (rw (e, unix_accept) (rw (run, ◌>>=◌)))

      go : (r : AcceptReply) → os.accept h node.listen_fd ≡ r → Counted node (unix_accept os node h)
      go AcceptReply.again e =
          unchanged (ok 0) (accepted node.listen_fd ∷ h) _ (rw (e, unix_accept))
      go AcceptReply.failed e = unchanged err (accepted node.listen_fd ∷ h) _ (rw (e, unix_accept))
      go (peer_at fd) e = placed fd e (
          take_slot-Taken os fd (codes "peer-" ++ decimal fd) node.peers
            (accepted node.listen_fd ∷ h))

  keep_connection-Counted :
      (path : List ℕ) (fd : ℤ) (h : History) → Counted node (keep_connection os node path fd h)
  unfolding keep_connection
  keep_connection-Counted path fd h =
      go (take_slot-Taken os fd (codes "peer@" ++ path) node.peers h)
    where
      go :
          Taken node.peers h (take_slot os fd (codes "peer@" ++ path) node.peers h)
          → Counted node (keep_connection os node path fd h)
      go (inl (qs, h', run, up, size)) =
          taken (ok 0) qs h' _ up size (rw (run, keep_connection, ◌>>=◌))
      go (inr (run, full)) = unchanged err (closed fd ∷ h) _ (rw (run, keep_connection, ◌>>=◌))

  pub unix_connect-Counted :
      (path : List ℕ) (h : History) → Counted node (unix_connect os node path h)
  unfolding unix_connect
  unix_connect-Counted path h = elim (Bool-cases (is_negative fd)) [
    | inl bad ↦ unchanged err (h₁) _ (rw (bad, unix_connect))
    | inr good ↦
        elim (Bool-cases (is_negative (os.connect h₁ fd (take (sun_path_size - 1) path)))) [
          | inl refused ↦ unchanged err (closed fd ∷ h₂) _ (rw (good, refused, unix_connect))
          | inr open_fd ↦ rw (good, open_fd, unix_connect) (keep_connection-Counted path fd h₂)
        ]
  ]
    where
      fd : ℤ
      fd = os.socket h

      h₁ : History
      h₁ = made_socket ∷ h

      h₂ : History
      h₂ = connected fd (take (sun_path_size - 1) path) ∷ h₁

-- A call on a node ends in a node whose count is right and that has as many slots.
abbrev pub EndsCounted : Node → Option ((Ret ℕ × Node) × History) → Type 0
EndsCounted node r =
    (reply : Ret ℕ) × (node' : Node) × (h' : History) × (r ≡ some ((reply, node'), h'))
    × CountIsRight node'
    × (length node'.peers ≡ length node.peers)

Counted-EndsCounted :
    (node : Node) (r : Option ((Ret ℕ × Node) × History))
    → CountIsRight node
    → Counted node r
    → EndsCounted node r
Counted-EndsCounted node r right (reply, qs, n, h', run, size, inl (same, up)) =
    (reply, record node { peers = qs; peer_count = n }, h', run, rw (same, right, up), size)
Counted-EndsCounted node r right (reply, qs, n, h', run, size, inr (more, up)) =
    (reply, record node { peers = qs; peer_count = n }, h', run, rw (more, right, up), size)

module _ (os : Os) (node : Node) (right : CountIsRight node) where
  -- Accepting a connection keeps a count of peers right that was, on every answer of the kernel.
  pub unix_accept-CountIsRight : (h : History) → EndsCounted node (unix_accept os node h)
  unix_accept-CountIsRight h =
      Counted-EndsCounted node (unix_accept os node h) right (unix_accept-Counted os node h)

  -- Connecting to a node keeps a count of peers right that was, on every answer of the kernel.
  pub unix_connect-CountIsRight :
      (path : List ℕ) (h : History) → EndsCounted node (unix_connect os node path h)
  unix_connect-CountIsRight path h =
      Counted-EndsCounted node (unix_connect os node path h) right
        (unix_connect-Counted os node path h)

-- A frame that would fit and of which nothing but the length has come closes the peer and is reported as a disconnect.
pub unix_read_partial :
    (os : Os) (p : Peer) (buf : List ℕ) (buf_len a b : ℕ) (h : History)
    → p.active ≡ true
    → os.read h p.fd 2 ≡ got (a ∷ b ∷ [])
    → 0 < frame_size a b
    → frame_size a b ≤ buf_len
    → frame_size a b ≤ max_packet
    → os.read (has_read p.fd 2 ∷ h) p.fd (frame_size a b) ≡ ReadReply.again
    → unix_read os p buf buf_len h
      ≡ some (
        (err, record p { active = false }, buf),
        closed p.fd ∷ has_read p.fd (frame_size a b) ∷ has_read p.fd 2 ∷ h,
      )
unix_read_partial os p buf buf_len a b h up e some_bytes fits small late =
    head_read os p buf buf_len h up a b e
    ∙ (frame_good os p buf buf_len a b h₁ fits small
        ∙ (round_stuck os (frame_size a b) p buf 0 (frame_size a b) h₁ ReadReply.again
              (lt→ltb 0 (frame_size a b) some_bytes) (ap (os.read h₁ p.fd) whole ∙ late) tt
            ∙ ap
                (λ n.
                  some
                    ((err, record p { active = false }, buf), closed p.fd ∷ has_read p.fd n ∷ h₁))
                whole))
  where
    h₁ : History
    h₁ = has_read p.fd 2 ∷ h

    whole : frame_size a b - 0 ≡ frame_size a b
    whole = omega arith
