-- ===== src/Program/Watched.antt =====
-- The array that a round polls: it has room for the console, the listening socket and all peers.
use vexconnect.Prelude.{
  ◌+◌, ◌≤◌, ◌≡◌, sym, ap, ◌∙◌, inl, inr, List, [], ◌∷◌, ◌++◌, some, Bool-cases, arith, lt→ltb,
  length, length-append, append_assoc, append-nil,
}
use vexconnect.Prelude.Int.{ℤ, pos, is_negative}
use vexconnect.Node.{Peer, Node, max_peers}
use vexconnect.Program.{open_fds, sockets, watch_peers, watched}

-- The console and the sockets.
abbrev pub listed : Node → List ℤ
listed node = pos 0 ∷ sockets node

watch_peers_lem :
    (ps : List Peer) (fds : List ℤ)
    → length fds + length ps ≤ max_peers + 2
    → watch_peers ps fds ≡ some (fds ++ open_fds ps)
watch_peers_lem [] fds room = ap some (sym (append-nil fds))
watch_peers_lem (p ∷ ps) fds room = elim (Bool-cases p.active) [
  | inl up ↦
      rw (up, lt→ltb (length fds) (max_peers + 2) (omega (arith, room)))
        (watch_peers_lem ps (fds ++ (p.fd ∷ []))
            (omega (arith, room, length-append fds (p.fd ∷ [])))
          ∙ ap some (append_assoc fds (p.fd ∷ []) (open_fds ps)))
  | inr down ↦ rw down (watch_peers_lem ps fds (omega (arith, room)))
]

-- No descriptor is written behind the end of the array.
pub watched_lem : (node : Node) → length node.peers ≡ max_peers → watched node ≡ some (listed node)
watched_lem node slots = elim (Bool-cases (is_negative node.listen_fd)) [
  | inl shut ↦ rw shut (watch_peers_lem node.peers (pos 0 ∷ []) (omega (arith, slots)))
  | inr listens ↦
      rw listens (watch_peers_lem node.peers (pos 0 ∷ node.listen_fd ∷ []) (omega (arith, slots)))
]
