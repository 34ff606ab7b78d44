-- ===== src/Program/Serve.antt =====
-- The open peers of a round, on every answer of the kernel.
use vexconnect.Prelude.{
  ℕ, zero, suc, ◌+◌, ◌≡◌, ◌≤◌, ◌<◌, refl, ap, subst, ◌∙◌, List, [], ◌∷◌, some, true, Bytes, ◌==◌,
  inl, Ret, ok, err, arith, length, get_elem?, set, length-set, if◌then◌else◌,
}
use vexconnect.Node.{Peer, Node, max_peers}
use vexconnect.Nacl.{Nacl, IsNacl}
use vexconnect.Packet.{max_packet}
use vexconnect.Transport.{unix_read}
use vexconnect.Transport.ReadLoop.{Reads, Within}
use vexconnect.Transport.Read.{unix_read-Reads}
use vexconnect.Transport.Send.{length-AllKept}
use vexconnect.Mesh.{receive}
use vexconnect.Mesh.Once.{receive-IsCache}
use vexconnect.Console.Commands.{IsNode, Returns, Goes, Goes-trans, Returns-seq, Returns-if}
use vexconnect.System.{Os, IsOs, History, ◌>>=◌, return}
use vexconnect.Program.{serve_peer, serve_loop}

pub get_elem?-some :
    {A : Type 0} (xs : List A) (i : ℕ) → i < length xs → (x : A) × (get_elem? xs i ≡ some x)
get_elem?-some [] i h = absurd (omega arith)
get_elem?-some (x ∷ xs) zero h = (x, refl)
get_elem?-some (x ∷ xs) (suc i) h = get_elem?-some xs i (omega arith)

module _ (os : Os) (nacl : Nacl) (v : IsOs os) (w : IsNacl nacl) where
  -- A frame of at most 512 bytes is handled.
  received :
      (node : Node) (i : ℕ) (q : Peer) (buf : List ℕ) (n : ℕ) (h : History)
      → IsNode node
      → n ≤ length buf
      → n ≤ max_packet
      → Bytes buf
      → Returns (Goes node) (
          (do
            answer ← receive os nacl (record node { peers = set node.peers i q }) buf n q.fd
            return answer.1)
            h)
  received node i q buf n h is room small clean =
      let node₀ = record node { peers = set node.peers i q } in
      let (answer, node', h', run, cache, settled) =
        receive-IsCache os nacl v w node₀ buf n q.fd h is.cache room small clean in
      let size =
        length-AllKept node₀.peers node'.peers settled.kept
        ∙ length-set node.peers i q
        ∙ is.slots in
      (
        node',
        h',
        rw (run, ◌>>=◌),
        (record { slots = size; cache = cache }, inl (ap (λ m. m.running) settled.rest)),
      )

  -- An open peer is served: a frame that is read, of whatever bytes, is handled.
  pub serve_peer_runs :
      (node : Node) (i : ℕ) (p : Peer) (h : History)
      → IsNode node
      → p.active ≡ true
      → Returns (Goes node) (serve_peer os nacl node i p h)
  unfolding serve_peer
  serve_peer_runs node i p h is up =
      let buf = os.uninit h max_packet in
      let r =
        unix_read-Reads os v p buf max_packet h (omega (arith, v.uninit_size h max_packet)) up
          (v.uninit_bytes h max_packet) in
      served r r.reply refl
    where
      buffer : List ℕ
      buffer = os.uninit h max_packet

      still : (q : Peer) → IsNode (record node { peers = set node.peers i q })
      still q = record { slots = length-set node.peers i q ∙ is.slots; cache = is.cache }

      served :
          (r : Reads (unix_read os p buffer max_packet) h p buffer max_packet) (reply : Ret ℕ)
          → r.reply ≡ reply
          → Returns (Goes node) (serve_peer os nacl node i p h)
      served r err e =
          rw (r.runs, ◌>>=◌)
            (rw e (
              _,
              r.h',
              refl,
              (record { slots = (still r.peer).slots; cache = is.cache }, inl refl),
            ))
      served r (ok n) e =
          let room = subst (Within max_packet) e r.within in
          rw (r.runs, ◌>>=◌)
            (rw e (
              Returns-if (Goes node) (n == 0)
                (return (record node { peers = set node.peers i r.peer })) _ r.h'
                (λ nothing. (_, r.h', refl, (still r.peer, inl refl)))
                (λ frame.
                  received node i r.peer r.buf' n r.h' is
                    (omega (arith, r.same_size, v.uninit_size h max_packet, room.0)) room.1
                    r.clean)))

  slot_runs :
      (node : Node) (i : ℕ) (p : Peer) (h : History)
      → IsNode node
      → Returns (Goes node) ((if p.active then serve_peer os nacl node i p else return node) h)
  slot_runs node i p h is =
      Returns-if (Goes node) p.active (serve_peer os nacl node i p) (return node) h
        (λ up. serve_peer_runs node i p h is up) (λ down. (node, h, refl, (is, inl refl)))

  pub serve_loop_runs :
      (n i : ℕ) (node : Node) (h : History)
      → IsNode node
      → i + n ≤ max_peers
      → Returns (Goes node) (serve_loop os nacl n i node h)
  unfolding serve_loop
  serve_loop_runs zero i node h is room = (node, h, refl, (is, inl refl))
  serve_loop_runs (suc n) i node h is room =
      let (p, found) = get_elem?-some node.peers i (omega (arith, is.slots)) in
      rw (found, ◌>>=◌)
        (Returns-seq (Goes node) (Goes node) _ (slot_runs node i p h is) (λ node₁ h₁ goes₁.
          let (node₂, h₂, rest, goes₂) = serve_loop_runs n (i + 1) node₁ h₁ goes₁.0 (omega arith) in
          (node₂, h₂, rest, Goes-trans node node₁ node₂ goes₁ goes₂)))
