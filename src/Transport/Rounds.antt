-- ===== src/Transport/Rounds.antt =====
-- `vex_transport_unix_read`, round by round.
use vexconnect.Prelude.{
  ℕ, suc, ◌+◌, ◌-◌, ◌*◌, ◌^◌, ◌≤◌, ◌<◌, ◌≡◌, ◌≢◌, ◌∙◌, ◌⊎◌, le→ltb, refl, ◌∙◌, List, [], ◌∷◌, some,
  true, false, ◌||◌, ◌==◌, ltb, ok, err, arith, length, inl, inr,
}
use vexconnect.Prelude.Memory.{write_at}
use vexconnect.Packet.{max_packet}
use vexconnect.Node.{Peer}
use vexconnect.System.{Os, History, ReadReply, got, has_read, closed, clocked, ◌>>=◌}
use vexconnect.Transport.{read_loop, read_frame, unix_read}

-- A reply that brings no byte, on which the loop gives up.
abbrev pub IsEmpty : ReadReply → Type 0
IsEmpty (got []) = Unit {0}
IsEmpty (got (b ∷ bs)) = ⊥
IsEmpty ReadReply.again = Unit {0}
IsEmpty ReadReply.failed = Unit {0}

-- The rounds of the loop.
module _ (os : Os) (fuel : ℕ) (p : Peer) (buf : List ℕ) (total pkt_len : ℕ) (h : History) where
  pub round_done :
      ltb total pkt_len ≡ false
      → read_loop os (suc fuel) p buf total pkt_len h
        ≡ some ((ok pkt_len, record p { last_seen = os.time h }, buf), clocked ∷ h)
  unfolding read_loop
  round_done e = rw (e, read_loop)

  pub round_stuck :
      (r : ReadReply)
      → ltb total pkt_len ≡ true
      → os.read h p.fd (pkt_len - total) ≡ r
      → IsEmpty r
      → read_loop os (suc fuel) p buf total pkt_len h
        ≡ some (
          (err, record p { active = false }, buf),
          closed p.fd ∷ has_read p.fd (pkt_len - total) ∷ h,
        )
  unfolding read_loop
  round_stuck (got []) more e i = rw (more, e, read_loop)
  round_stuck (got (b ∷ bs)) more e i = elim i [ ]
  round_stuck ReadReply.again more e i = rw (more, e, read_loop)
  round_stuck ReadReply.failed more e i = rw (more, e, read_loop)

  pub round_filled :
      (b : ℕ) (bs buf' : List ℕ)
      → ltb total pkt_len ≡ true
      → os.read h p.fd (pkt_len - total) ≡ got (b ∷ bs)
      → write_at buf total (b ∷ bs) ≡ some buf'
      → read_loop os (suc fuel) p buf total pkt_len h
        ≡ read_loop os fuel p buf'
            (total + length (b ∷ bs))
            pkt_len
            (has_read p.fd (pkt_len - total) ∷ h)
  unfolding read_loop
  round_filled b bs buf' more e w = rw (more, read_loop) (rw (e, ◌>>=◌) (rw (w, ◌>>=◌)))

-- The first read.
module _ (os : Os) (p : Peer) (buf : List ℕ) (buf_len : ℕ) (h : History)
    (up : p.active ≡ true) where
  pub head_read :
      (a b : ℕ)
      → os.read h p.fd 2 ≡ got (a ∷ b ∷ [])
      → unix_read os p buf buf_len h
        ≡ read_frame os p buf buf_len (a ∷ b ∷ []) (has_read p.fd 2 ∷ h)
  unfolding unix_read
  head_read a b e = simp (up) (rw (e, ◌>>=◌))

  pub head_waiting :
      os.read h p.fd 2 ≡ ReadReply.again
      → unix_read os p buf buf_len h ≡ some ((ok 0, p, buf), has_read p.fd 2 ∷ h)
  unfolding unix_read
  head_waiting e = simp (up) (rw (e, ◌>>=◌))

  pub head_failed :
      (r : ReadReply)
      → os.read h p.fd 2 ≡ r
      → (r ≡ got []) ⊎ (r ≡ ReadReply.failed)
      → unix_read os p buf buf_len h
        ≡ some ((err, record p { active = false }, buf), closed p.fd ∷ has_read p.fd 2 ∷ h)
  unfolding unix_read
  head_failed r e (inl i) = simp (up) (rw (e ∙ i, ◌>>=◌))
  head_failed r e (inr i) = simp (up) (rw (e ∙ i, ◌>>=◌))

  -- A header of another size than 2 is an error that leaves the peer in use.
  pub head_bad :
      (b : ℕ) (bs : List ℕ)
      → os.read h p.fd 2 ≡ got (b ∷ bs)
      → length (b ∷ bs) ≢ 2
      → unix_read os p buf buf_len h ≡ some ((err, p, buf), has_read p.fd 2 ∷ h)
  unfolding unix_read
  head_bad b bs e ne = simp (up) (rw (e, ◌>>=◌) (simp (test) refl))
    where
      test : (length (b ∷ bs) == 2) ≡ false
      test = ground arith

-- The length that a header stands for.
abbrev pub frame_size : ℕ → ℕ → ℕ
frame_size a b = a * 2 ^ 8 + b

module _ (os : Os) (p : Peer) (buf : List ℕ) (buf_len a b : ℕ) (h : History) where
  pub frame_good :
      frame_size a b ≤ buf_len
      → frame_size a b ≤ max_packet
      → read_frame os p buf buf_len (a ∷ b ∷ []) h
        ≡ read_loop os (suc (frame_size a b)) p buf 0 (frame_size a b) h
  unfolding read_frame
  frame_good fits small =
      rw (le→ltb buf_len (frame_size a b) fits, le→ltb max_packet (frame_size a b) small)

  -- A frame that is too long is an error that leaves the peer in use.
  pub frame_bad :
      (buf_len < frame_size a b) ⊎ (max_packet < frame_size a b)
      → read_frame os p buf buf_len (a ∷ b ∷ []) h ≡ some ((err, p, buf), h)
  unfolding read_frame
  frame_bad long = simp (test) refl
    where
      test : (ltb buf_len (frame_size a b) || ltb max_packet (frame_size a b)) ≡ true
      test = ground arith
