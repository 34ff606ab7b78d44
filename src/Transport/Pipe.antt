-- ===== src/Transport/Pipe.antt =====
-- A frame that has come from a peer is the frame that `vex_transport_unix_read` returns.
use vexconnect.Prelude.{
  ℕ, zero, suc, ◌+◌, ◌-◌, ◌/◌, ◌%◌, ◌^◌, ◌≤◌, ◌<◌, ◌≡◌, refl, sym, ap, ◌∙◌, List, [], ◌∷◌, ◌++◌,
  Option, some, true, lt→ltb, le→ltb, Ret, ok, arith, length, drop, length-append, length-drop,
  append_assoc, append-nil, drop-drop,
}
use vexconnect.Prelude.Int.{ℤ}
use vexconnect.Prelude.Memory.{write_at-append}
use vexconnect.Packet.{max_packet}
use vexconnect.Node.{Peer}
use vexconnect.System.{Os, IsOs, History, got, has_read, clocked}
use vexconnect.Transport.{read_loop, unix_read, frame_header}
use vexconnect.Transport.Rounds.{round_done, round_filled, head_read, frame_good, frame_size}

-- A stream socket as recv(2) describes it: at each time some bytes of a descriptor have arrived and are not read
-- yet. A read takes what has arrived, up to the size that is asked for, and more bytes may arrive meanwhile. A
-- read that finds none may be answered in any way. All the bytes of a length are taken at once if they have
-- arrived; a longer read may take fewer bytes than have arrived, at least one.
pub record IsPipe (os : Os) (fd : ℤ) (content : History → List ℕ) : Type 0 where
  pub takes :
      (h : History) (n : ℕ)
      → 0 < n
      → 0 < length (content h)
      → (b : ℕ) × (bs rest more : List ℕ) × (os.read h fd n ≡ got (b ∷ bs))
        × (content h ≡ (b ∷ bs) ++ rest)
        × (content (has_read fd n ∷ h) ≡ rest ++ more)
  pub whole_header :
      (h : History) (a b : ℕ) (rest : List ℕ)
      → content h ≡ a ∷ b ∷ rest
      → (more : List ℕ) × (os.read h fd 2 ≡ got (a ∷ b ∷ []))
        × (content (has_read fd 2 ∷ h) ≡ rest ++ more)

-- Two ways to cut a list.
append_split :
    (c t r s : List ℕ)
    → c ++ t ≡ r ++ s
    → length c ≤ length r
    → (r ≡ c ++ drop (length c) r) × (t ≡ drop (length c) r ++ s)
append_split [] t r s e h = (refl, e)
append_split (x ∷ c) t [] s e h = absurd (omega arith)
append_split (x ∷ c) t (y ∷ r) s e h =
    let (front, back) = append_split c t r s (ground arith) (omega arith) in
    (ground (arith, front), back)

joined :
    (pre c r rest whole : List ℕ)
    → whole ≡ c ++ r
    → ((pre ++ c) ++ r) ++ drop (length r) (drop (length c) rest)
      ≡ (pre ++ whole) ++ drop (length whole) rest
joined pre c r rest whole e =
    rw (e, append_assoc pre c r, drop-drop (length r) (length c) rest)
      (ap (λ n. (pre ++ (c ++ r)) ++ drop n rest) (sym (length-append c r)))

-- The array after the rounds: the payload behind what was there.
abbrev pub Loaded :
    Os
    → (History → List ℕ)
    → Peer
    → ℕ
    → List ℕ
    → List ℕ
    → Option ((Ret ℕ × Peer × List ℕ) × History)
    → Type 0
Loaded os content p len buf tail r =
    (h : History) × (r ≡ some ((ok len, record p { last_seen = os.time h }, buf), clocked ∷ h))
    × (more : List ℕ) × (content h ≡ tail ++ more)

module _ (os : Os) (v : IsOs os) (p : Peer) (content : History → List ℕ)
    (pipe : IsPipe os p.fd content) where
  read_loop-Loaded :
      (fuel : ℕ) (pre rest rem tail : List ℕ) (len : ℕ) (h : History)
      → content h ≡ rem ++ tail
      → length pre + length rem ≡ len
      → length rem ≤ length rest
      → length rem < fuel
      → Loaded os content p len
          ((pre ++ rem) ++ drop (length rem) rest)
          tail
          (read_loop os fuel p (pre ++ rest) (length pre) len h)
  read_loop-Loaded zero pre rest rem tail len h e total room enough = absurd (omega arith)
  read_loop-Loaded (suc fuel) pre rest [] tail len h e total room enough = (
    h,
    round_done os fuel p (pre ++ rest) (length pre) len h (le→ltb _ _ (omega arith))
        ∙ rw (append-nil pre),
    [],
    e ∙ sym (append-nil tail),
  )
  read_loop-Loaded (suc fuel) pre rest (x ∷ rem) tail len h e total room enough =
      let n = len - length pre in
      let (b, bs, unread, more₁, read_it, found, left_over) =
        pipe.takes h n (omega arith) (more x (rem ++ tail) e) in
      let c = b ∷ bs in
      let h₁ = has_read p.fd n ∷ h in
      let short : length c ≤ n = v.read_bound h p.fd n c read_it in
      let r = drop (length c) (x ∷ rem) in
      let (front, back) = append_split c unread (x ∷ rem) tail (sym found ∙ e) (omega arith) in
      let left : length r ≡ length (x ∷ rem) - length c = length-drop (length c) (x ∷ rem) in
      let at : length (pre ++ c) ≡ length pre + length c = length-append pre c in
      let still : content h₁ ≡ r ++ (tail ++ more₁) =
        left_over ∙ ap (λ t. t ++ more₁) back ∙ append_assoc r tail more₁ in
      let (h₂, run, more₂, rest_of_stream) =
        read_loop-Loaded fuel (pre ++ c) (drop (length c) rest) r (tail ++ more₁) len h₁ still
          (omega arith) (omega (arith, length-drop (length c) rest)) (omega arith) in
      (
        h₂,
        round_filled os fuel p (pre ++ rest) (length pre) len h b bs _
              (lt→ltb (length pre) len (omega arith)) read_it
              (write_at-append pre rest c (length pre) refl (omega arith))
            ∙ (ap (λ t. read_loop os fuel p ((pre ++ c) ++ drop (length c) rest) t len h₁) (sym at)
                ∙ (run
                    ∙ ap
                        (λ z. some ((ok len, record p { last_seen = os.time h₂ }, z), clocked ∷ h₂))
                        (joined pre c r rest (x ∷ rem) front))),
        more₁ ++ more₂,
        rest_of_stream ∙ append_assoc tail more₁ more₂,
      )
    where
      more : (x : ℕ) (xs : List ℕ) → content h ≡ x ∷ xs → 0 < length (content h)
      more x xs q = rw q (omega arith)

  -- Over a stream socket: if a frame of at most 512 bytes that fits the buffer is next in the stream, and all
  -- of it has arrived when the read begins, a read returns its length, with its bytes at the front of the
  -- buffer and the time in the peer, whether the payload is taken in one read or in several; and it leaves
  -- what follows the frame in the stream, with what has arrived meanwhile behind.
  pub unix_read-Loaded :
      (buf bytes tail : List ℕ) (buf_len : ℕ) (h : History)
      → p.active ≡ true
      → buf_len ≤ length buf
      → length bytes ≤ buf_len
      → length bytes ≤ max_packet
      → content h ≡ frame_header (length bytes) ++ (bytes ++ tail)
      → Loaded os content p
          (length bytes)
          (bytes ++ drop (length bytes) buf)
          tail
          (unix_read os p buf buf_len h)
  unix_read-Loaded buf bytes tail buf_len h up room fits small e =
      let len = length bytes in
      let high = len / 2 ^ 8 % 2 ^ 8 in
      let low = len % 2 ^ 8 in
      let (more₁, read_it, back) = pipe.whole_header h high low (bytes ++ tail) e in
      let size : frame_size high low ≡ len = omega arith in
      let h₁ = has_read p.fd 2 ∷ h in
      let (h₂, run, more₂, rest_of_stream) =
        read_loop-Loaded (suc len) [] buf bytes (tail ++ more₁) len h₁
          (back ∙ append_assoc bytes tail more₁) (omega arith) (omega arith) (omega arith) in
      (
        h₂,
        head_read os p buf buf_len h up high low read_it
            ∙ (frame_good os p buf buf_len high low h₁ (omega arith) (omega arith)
                ∙ (ap (λ n. read_loop os (suc n) p buf 0 n h₁) size ∙ run)),
        more₁ ++ more₂,
        rest_of_stream ∙ append_assoc tail more₁ more₂,
      )
