-- ===== src/Transport/ReadLoop.antt =====
-- The loop of `vex_transport_unix_read`, and what a read leaves.
use vexconnect.Prelude.{
  ℕ, zero, suc, ◌+◌, ◌-◌, ◌≤◌, ◌<◌, ◌≡◌, refl, ◌∙◌, List, [], ◌∷◌, some, true, false, ◌||◌, ltb,
  ltb→lt, Ret, ok, err, arith, length, Bool-cases, inl, inr, Bytes,
}
use vexconnect.Prelude.Memory.{write_at-some, write_at-Bytes}
use vexconnect.Packet.{max_packet}
use vexconnect.Node.{Peer}
use vexconnect.System.{Os, IsOs, Io, History, ReadReply, got, has_read, closed, clocked}
use vexconnect.Transport.Rounds.{
  IsEmpty, round_done, round_stuck, round_filled, frame_good, frame_bad, frame_size,
}
use vexconnect.Transport.{ReadResult, read_loop, read_frame, drop_reader}

-- The bound of a frame that a read reports.
abbrev pub Within : ℕ → Ret ℕ → Type 0
Within buf_len (ok n) = (n ≤ buf_len) × (n ≤ max_packet)
Within buf_len err = Unit {0}

-- A read runs to a result that fits the buffer, keeps the buffer's size and the peer's descriptor.
pub record Reads (m : Io ReadResult) (h : History) (p : Peer) (buf : List ℕ) (buf_len : ℕ)
    : Type 0 where
  pub reply : Ret ℕ
  pub peer : Peer
  pub buf' : List ℕ
  pub h' : History
  pub runs : m h ≡ some ((reply, peer, buf'), h')
  pub within : Within buf_len reply
  pub same_fd : peer.fd ≡ p.fd
  pub same_size : length buf' ≡ length buf
  pub clean : Bytes buf'

Reads-drop :
    (p : Peer) (buf : List ℕ) (h : History) (n : ℕ)
    → Bytes buf
    → Reads (drop_reader p buf) h p buf n
Reads-drop p buf h n clean = record {
  reply = err;
  peer = record p { active = false };
  buf' = buf;
  h' = closed p.fd ∷ h;
  runs = refl;
  within = tt;
  same_fd = refl;
  same_size = refl;
  clean = clean;
}

module _ (os : Os) (v : IsOs os) where
  read_loop-Reads :
      (fuel : ℕ) (p : Peer) (buf : List ℕ) (total pkt_len n : ℕ) (h : History)
      → pkt_len ≤ length buf
      → pkt_len ≤ n
      → pkt_len ≤ max_packet
      → pkt_len < fuel + total
      → total ≤ pkt_len
      → Bytes buf
      → Reads (read_loop os fuel p buf total pkt_len) h p buf n
  read_loop-Reads zero p buf total pkt_len n h room fits small enough part clean =
      absurd (omega arith)
  read_loop-Reads (suc fuel) p buf total pkt_len n h room fits small enough part clean =
      elim (Bool-cases (ltb total pkt_len)) [
        | inr full ↦ record {
          reply = ok pkt_len;
          peer = record p { last_seen = os.time h };
          buf' = buf;
          h' = clocked ∷ h;
          runs = round_done os fuel p buf total pkt_len h full;
          within = (fits, small);
          same_fd = refl;
          same_size = refl;
          clean = clean;
        }
        | inl more ↦ go more (os.read h p.fd (pkt_len - total)) refl (λ buf' sz t a b c.
            read_loop-Reads fuel p buf' t pkt_len n (has_read p.fd (pkt_len - total) ∷ h)
              (omega arith) fits small a b c)
      ]
    where
      stuck :
          (r : ReadReply)
          → ltb total pkt_len ≡ true
          → os.read h p.fd (pkt_len - total) ≡ r
          → IsEmpty r
          → Reads (read_loop os (suc fuel) p buf total pkt_len) h p buf n
      stuck r more e i = record {
        reply = err;
        peer = record p { active = false };
        buf' = buf;
        h' = closed p.fd ∷ has_read p.fd (pkt_len - total) ∷ h;
        runs = round_stuck os fuel p buf total pkt_len h r more e i;
        within = tt;
        same_fd = refl;
        same_size = refl;
        clean = clean;
      }

      go :
          ltb total pkt_len ≡ true
          → (r : ReadReply) → os.read h p.fd (pkt_len - total) ≡ r
          → ((buf' : List ℕ)
              → length buf' ≡ length buf
              → (t : ℕ) → pkt_len < fuel + t
              → t ≤ pkt_len
              → Bytes buf'
              → Reads
                  (read_loop os fuel p buf' t pkt_len)
                  (has_read p.fd (pkt_len - total) ∷ h)
                  p
                  buf'
                  n)
          → Reads (read_loop os (suc fuel) p buf total pkt_len) h p buf n
      go more (got []) e rec = stuck (got []) more e tt
      go more (got (b ∷ bs)) e rec =
          let short : length (b ∷ bs) ≤ pkt_len - total =
            v.read_bound h p.fd (pkt_len - total) (b ∷ bs) e in
          let below : total < pkt_len = ltb→lt total pkt_len more in
          let (buf', w, size) = write_at-some buf (b ∷ bs) total (omega arith) in
          let r = rec buf' size (total + length (b ∷ bs)) (omega arith) (omega arith) (
            write_at-Bytes buf (b ∷ bs) buf' total w clean
              (v.read_bytes h p.fd (pkt_len - total) (b ∷ bs) e)) in
          record {
            reply = r.reply;
            peer = r.peer;
            buf' = r.buf';
            h' = r.h';
            runs = round_filled os fuel p buf total pkt_len h b bs buf' more e w ∙ r.runs;
            within = r.within;
            same_fd = r.same_fd;
            same_size = r.same_size ∙ size;
            clean = r.clean;
          }
      go more ReadReply.again e rec = stuck ReadReply.again more e tt
      go more ReadReply.failed e rec = stuck ReadReply.failed more e tt

  pub framed :
      (a b : ℕ) (p : Peer) (buf : List ℕ) (buf_len : ℕ) (h : History)
      → buf_len ≤ length buf
      → Bytes buf
      → Reads (read_frame os p buf buf_len (a ∷ b ∷ [])) h p buf buf_len
  framed a b p buf buf_len h room clean =
      elim (Bool-cases (ltb buf_len (frame_size a b) || ltb max_packet (frame_size a b))) [
        | inl long ↦ record {
          reply = err;
          peer = p;
          buf' = buf;
          h' = h;
          runs = frame_bad os p buf buf_len a b h (ground arith);
          within = tt;
          same_fd = refl;
          same_size = refl;
          clean = clean;
        }
        | inr fits ↦
            let r =
              read_loop-Reads (suc (frame_size a b)) p buf 0 (frame_size a b) buf_len h
                (ground arith) (ground arith) (ground arith) (omega arith) (omega arith) clean in
            record {
              reply = r.reply;
              peer = r.peer;
              buf' = r.buf';
              h' = r.h';
              runs = frame_good os p buf buf_len a b h (ground arith) (ground arith) ∙ r.runs;
              within = r.within;
              same_fd = r.same_fd;
              same_size = r.same_size;
              clean = r.clean;
            }
      ]
