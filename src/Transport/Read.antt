-- ===== src/Transport/Read.antt =====
-- `vex_transport_unix_read` stays inside its buffer and always returns.
use vexconnect.Prelude.{
  ◌≢◌, ◌⊎◌, ℕ, ◌≤◌, ◌≡◌, refl, ◌∙◌, List, [], ◌∷◌, true, false, ok, err, arith, length, inl, inr,
  Bytes,
}
use vexconnect.Node.{Peer}
use vexconnect.System.{Os, IsOs, History, ReadReply, got, has_read, closed}
use vexconnect.Transport.Rounds.{head_read, head_failed, head_waiting, head_bad}
use vexconnect.Transport.{unix_read}
use vexconnect.Transport.ReadLoop.{Reads, framed}

module _ (os : Os) (v : IsOs os) where
  -- Whatever the kernel answers, a read of a peer in use ends within its fuel and with no access outside
  -- the buffer; a frame that it reports fits the buffer and the limit of 512 bytes; the buffer keeps its
  -- size, holds bytes, and the peer keeps its descriptor.
  pub unix_read-Reads :
      (p : Peer) (buf : List ℕ) (buf_len : ℕ) (h : History)
      → buf_len ≤ length buf
      → p.active ≡ true
      → Bytes buf
      → Reads (unix_read os p buf buf_len) h p buf buf_len
  unix_read-Reads p buf buf_len h room up clean = go (os.read h p.fd 2) refl
    where
      head_dropped :
          (r : ReadReply)
          → os.read h p.fd 2 ≡ r
          → (r ≡ got []) ⊎ (r ≡ ReadReply.failed)
          → Reads (unix_read os p buf buf_len) h p buf buf_len
      head_dropped r e i = record {
        reply = err;
        peer = record p { active = false };
        buf' = buf;
        h' = closed p.fd ∷ has_read p.fd 2 ∷ h;
        runs = head_failed os p buf buf_len h up r e i;
        within = tt;
        same_fd = refl;
        same_size = refl;
        clean = clean;
      }

      kept :
          (b : ℕ) (bs : List ℕ)
          → os.read h p.fd 2 ≡ got (b ∷ bs)
          → length (b ∷ bs) ≢ 2
          → Reads (unix_read os p buf buf_len) h p buf buf_len
      kept b bs e ne = record {
        reply = err;
        peer = p;
        buf' = buf;
        h' = has_read p.fd 2 ∷ h;
        runs = head_bad os p buf buf_len h up b bs e ne;
        within = tt;
        same_fd = refl;
        same_size = refl;
        clean = clean;
      }

      go :
          (r : ReadReply)
          → os.read h p.fd 2 ≡ r
          → Reads (unix_read os p buf buf_len) h p buf buf_len
      go (got []) e = head_dropped (got []) e (inl refl)
      go (got (a ∷ [])) e = kept a [] e (λ two. omega arith)
      go (got (a ∷ b ∷ [])) e =
          let r = framed os v a b p buf buf_len (has_read p.fd 2 ∷ h) room clean in
          record {
            reply = r.reply;
            peer = r.peer;
            buf' = r.buf';
            h' = r.h';
            runs = head_read os p buf buf_len h up a b e ∙ r.runs;
            within = r.within;
            same_fd = r.same_fd;
            same_size = r.same_size;
            clean = r.clean;
          }
      go (got (a ∷ b ∷ c ∷ bs)) e = kept a (b ∷ c ∷ bs) e (λ two. omega arith)
      go ReadReply.again e = record {
        reply = ok 0;
        peer = p;
        buf' = buf;
        h' = has_read p.fd 2 ∷ h;
        runs = head_waiting os p buf buf_len h up e;
        within = omega arith;
        same_fd = refl;
        same_size = refl;
        clean = clean;
      }
      go ReadReply.failed e = head_dropped ReadReply.failed e (inr refl)
