-- ===== src/Transport/Wire.antt =====
-- What the transport writes to the sockets: a frame behind its length, or nothing.
use vexconnect.Prelude.{
  ℕ, zero, suc, ◌+◌, List, [], ◌∷◌, ◌++◌, ◌≡◌, ◌≤◌, not, ◌||◌, ◌==◌, true, false, ltb, take, length,
  length-take, Ret, ok, err, if◌then◌else◌, arith, ap, Bool-cases, inl, inr, Option, none, some,
}
use vexconnect.Prelude.Int.{ℤ, is_negative, increment}
use vexconnect.Prelude.Memory.{slice_lem, write_at}
use vexconnect.Prelude.Text.{codes}
use vexconnect.Node.{Peer, Node}
use vexconnect.System.{
  Os, Io, History, ReadReply, got, AcceptReply, peer_at, wrote, closed, write, ◌>>=◌, ◌>>◌, return,
  lift, call,
}
use vexconnect.Transport.{
  ReadResult, drop_reader, drop_peer, send_body, send_to_peer, send_loop, send_to_all, read_loop,
  read_frame, unix_read, take_slot, unix_accept, keep_connection, unix_connect, unix_init, is_size,
  decimal, frame_header,
}
use vexconnect.Transport.Speaks.{
  Makes, makes_rules, Makes-return, Makes-if, Finds-from, Finds, Speaks, silent, framed, cut,
}

module _ {Q : List ℕ → Type 0} (os : Os) where
  read_loop-Makes :
      (n : ℕ) (p : Peer) (buf : List ℕ) (total len : ℕ) → Makes Q (read_loop os n p buf total len)
  unfolding read_loop
  read_loop-Makes zero p buf total len = record { at = λ h. tt }
  read_loop-Makes (suc n) p buf total len = elim (Bool-cases (ltb total len)) [
    | inl more ↦ rw (more, read_loop) (search (makes_rules, chunk (read_loop-Makes n)))
    | inr full ↦ rw (full, read_loop) (search makes_rules)
  ]
    where
      chunk :
          ((p : Peer) (buf : List ℕ) (total len : ℕ) → Makes Q (read_loop os n p buf total len))
          → (reply : ReadReply)
          → Makes Q (elim reply as (λ u. Io ReadResult) [
            | got [] ↦ drop_reader p buf
            | got (b ∷ bs) ↦ do
              buf' ← lift (write_at buf total (b ∷ bs))
              read_loop os n p buf' (total + length (b ∷ bs)) len
            | ReadReply.again ↦ drop_reader p buf
            | ReadReply.failed ↦ drop_reader p buf
          ])
      chunk next (got []) = search makes_rules
      chunk next (got (b ∷ bs)) = search (makes_rules, next)
      chunk next ReadReply.again = search makes_rules
      chunk next ReadReply.failed = search makes_rules

  pub unix_read-Makes : (p : Peer) (buf : List ℕ) (len : ℕ) → Makes Q (unix_read os p buf len)
  unfolding unix_read read_frame
  unix_read-Makes p buf len = search (makes_rules, head)
    where
      head :
          (reply : ReadReply)
          → Makes Q (elim reply as (λ u. Io ReadResult) [
            | got [] ↦ drop_reader p buf
            | got (b ∷ bs) ↦
                if not (length (b ∷ bs) == 2)
                then return (err, p, buf)
                else read_frame os p buf len (b ∷ bs)
            | ReadReply.again ↦ return (ok 0, p, buf)
            | ReadReply.failed ↦ drop_reader p buf
          ])
      head (got []) = search makes_rules
      head (got (b ∷ bs)) = search (makes_rules, read_loop-Makes)
      head ReadReply.again = search makes_rules
      head ReadReply.failed = search makes_rules

  take_slot-Makes : (fd : ℤ) (name : List ℕ) (ps : List Peer) → Makes Q (take_slot os fd name ps)
  unfolding take_slot
  take_slot-Makes fd name [] = search makes_rules
  take_slot-Makes fd name (p ∷ ps) = elim (Bool-cases p.active) [
    | inl up ↦ rw (up, take_slot) (search (makes_rules, take_slot-Makes fd name ps))
    | inr down ↦ rw (down, take_slot) (search makes_rules)
  ]

  -- The end of an accept or a connect.
  placed :
      (node : Node) (r r' : Ret ℕ) (fd : ℤ) (slots : Option (List Peer))
      → Makes Q (elim slots as (λ u. Io (Ret ℕ × Node)) [
        | some ps ↦ return (r, record node { peers = ps; peer_count = increment node.peer_count })
        | none ↦ do call (closed fd); return (r', node)
      ])
  placed node r r' fd none = search makes_rules
  placed node r r' fd (some ps) = search makes_rules

  pub unix_accept-Makes : (node : Node) → Makes Q (unix_accept os node)
  unfolding unix_accept
  unix_accept-Makes node = search (makes_rules, answered)
    where
      answered :
          (reply : AcceptReply)
          → Makes Q (elim reply as (λ u. Io (Ret ℕ × Node)) [
            | AcceptReply.again ↦ return (ok 0, node)
            | AcceptReply.failed ↦ return (err, node)
            | peer_at fd ↦ do
              slots ← take_slot os fd (codes "peer-" ++ decimal fd) node.peers
              elim slots as (λ u. Io (Ret ℕ × Node)) [
                | some ps ↦
                    return
                      (ok 1, record node { peers = ps; peer_count = increment node.peer_count })
                | none ↦ do call (closed fd); return (ok 0, node)
              ]
          ])
      answered AcceptReply.again = search makes_rules
      answered AcceptReply.failed = search makes_rules
      answered (peer_at fd) = search (makes_rules, take_slot-Makes, placed node (ok 1) (ok 0) fd)

  keep_connection-Makes :
      (node : Node) (path : List ℕ) (fd : ℤ) → Makes Q (keep_connection os node path fd)
  unfolding keep_connection
  keep_connection-Makes node path fd =
      search (makes_rules, take_slot-Makes, placed node (ok 0) err fd)

  pub unix_connect-Makes : (node : Node) (path : List ℕ) → Makes Q (unix_connect os node path)
  unfolding unix_connect
  unix_connect-Makes node path = search (makes_rules, keep_connection-Makes) depth 10

  pub unix_init-Makes : (node : Node) (path : List ℕ) → Makes Q (unix_init os node path)
  unfolding unix_init
  unix_init-Makes node path = search makes_rules depth 12

module _ (Q : List ℕ → Type 0) (os : Os) (bytes : List ℕ) (len : ℕ) (room : len ≤ length bytes)
    (good : Q (take len bytes)) where
  header_eq : frame_header len ≡ frame_header (length (take len bytes))
  header_eq = ap frame_header (omega (arith, room, length-take len bytes))

  -- Behind the write of the length.
  body_sent :
      (p : Peer) (h : History)
      → Finds Q h (send_body os p bytes len (wrote p.fd (frame_header len) ∷ h))
  unfolding send_body
  body_sent p h = rw (slice_lem bytes 0 len (omega (arith, room))) (Finds-from _ spoken (rest.at _))
    where
      spoken : Speaks Q h (wrote p.fd (take len bytes) ∷ wrote p.fd (frame_header len) ∷ h)
      spoken = rw header_eq (framed p.fd (take len bytes) good silent)

      rest : Makes Q (
          if not (is_size (os.write (wrote p.fd (frame_header len) ∷ h) p.fd (take len bytes)) len)
          then drop_peer p
          else return (true, p))
      rest = search makes_rules

  send_to_peer-Makes : (p : Peer) → Makes Q (send_to_peer os p bytes len)
  unfolding send_to_peer
  send_to_peer-Makes p =
      Makes-if (not p.active || is_negative p.fd) _ _ (λ shut. Makes-return (false, p))
        (λ up. record { at = sent })
    where
      sent :
          (h : History)
          → Finds Q h (
              (do
                n ← write os p.fd (frame_header len)
                if not (is_size n 2) then drop_peer p else send_body os p bytes len)
                h)
      sent h = elim (Bool-cases (is_size (os.write h p.fd (frame_header len)) 2)) [
        | inl whole ↦ rw whole (body_sent p h)
        | inr short ↦ rw short (rw header_eq (cut p.fd (take len bytes) good silent))
      ]

  send_loop-Makes : (ps : List Peer) (fd : ℤ) (n : ℕ) → Makes Q (send_loop os ps bytes len fd n)
  unfolding send_loop
  send_loop-Makes [] fd n = search makes_rules
  send_loop-Makes (p ∷ ps) fd n = search (makes_rules, send_to_peer-Makes, send_loop-Makes ps)

  -- A broadcast writes the frame behind its length, to each peer, and nothing else.
  pub send_to_all-Makes : (node : Node) (fd : ℤ) → Makes Q (send_to_all os node bytes len fd)
  unfolding send_to_all
  send_to_all-Makes node fd = search (makes_rules, send_loop-Makes)
