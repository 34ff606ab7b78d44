-- ===== src/Program/Upkeep.antt =====
-- New connections and the periodic part of a round, on every answer of the kernel.
use vexconnect.Prelude.{ℕ, ◌-◌, ◌≡◌, refl, ◌∙◌, List, [], ◌∷◌, Bool, ◌&&◌, ltb, inl, if◌then◌else◌}
use vexconnect.Prelude.Int.{ℤ, int_eq}
use vexconnect.Node.{Node}
use vexconnect.Seen
use vexconnect.Seen.Check.{prune-IsCache}
use vexconnect.Transport.{unix_accept}
use vexconnect.Transport.Accept.{unix_accept-Counted, unix_connect-Counted}
use vexconnect.Console.Commands.{
  IsNode, Returns, Goes, Goes-trans, Returns-seq, Returns-if, print_stats_runs,
}
use vexconnect.System.{Os, History, clocked, ◌>>=◌, ◌>>◌, return, time}
use vexconnect.Program.{Loop, accept_loop, connect_all, maintain}
use vexconnect.Console.{print_stats}

module _ (os : Os) where
  accept_once :
      (fd : ℤ) (bit : Bool) (node : Node) (h : History)
      → IsNode node
      → Returns (Goes node) (
          (if int_eq fd node.listen_fd && bit
              then (do r ← unix_accept os node; return r.1)
              else return node)
            h)
  accept_once fd bit node h is =
      Returns-if (Goes node) (int_eq fd node.listen_fd && bit)
        (do r ← unix_accept os node; return r.1) (return node) h
        (λ hit.
          let (reply, qs, n, h', run, size, counts) = unix_accept-Counted os node h in
          (
            record node { peers = qs; peer_count = n },
            h',
            rw (run, ◌>>=◌),
            (record { slots = size ∙ is.slots; cache = is.cache }, inl refl),
          ))
        (λ miss. (node, h, refl, (is, inl refl)))

  pub accept_loop_runs :
      (fds : List (ℤ × Bool)) (node : Node) (h : History)
      → IsNode node
      → Returns (Goes node) (accept_loop os fds node h)
  unfolding accept_loop
  accept_loop_runs [] node h is = (node, h, refl, (is, inl refl))
  accept_loop_runs ((fd, bit) ∷ fds) node h is =
      let (node₁, h₁, one, goes₁) = accept_once fd bit node h is in
      let (node₂, h₂, rest, goes₂) = accept_loop_runs fds node₁ h₁ goes₁.0 in
      (node₂, h₂, rw (one, ◌>>=◌) rest, Goes-trans node node₁ node₂ goes₁ goes₂)

  pub connect_all_runs :
      (paths : List (List ℕ)) (node : Node) (h : History)
      → IsNode node
      → Returns
          (λ n. IsNode n × (n.running ≡ node.running) × (n.sign_pk ≡ node.sign_pk))
          (connect_all os paths node h)
  unfolding connect_all
  connect_all_runs [] node h is = (node, h, refl, (is, refl, refl))
  connect_all_runs (path ∷ paths) node h is =
      let (reply, qs, n, h₁, one, size, counts) = unix_connect-Counted os node path h in
      let node₁ = record node { peers = qs; peer_count = n } in
      let (node₂, h₂, rest, same) =
        connect_all_runs paths node₁ h₁ (record { slots = size ∙ is.slots; cache = is.cache }) in
      (node₂, h₂, rw (one, ◌>>=◌) rest, same)

  pruned :
      (l : Loop) (now : ℕ) (h : History)
      → IsNode l.node
      → Returns
          (λ l'. Goes l.node l'.node)
          ((if ltb 10 (now - l.last_prune)
              then (do
                later ← time os
                return (record l {
                  node = record l.node { seen = Seen.prune l.node.seen later };
                  last_prune = now;
                }))
              else return l)
            h)
  pruned l now h is =
      Returns-if (λ l'. Goes l.node l'.node) (ltb 10 (now - l.last_prune)) _ _ h
        (λ due. (
          record l {
            node = record l.node { seen = Seen.prune l.node.seen (os.time h) };
            last_prune = now;
          },
          clocked ∷ h,
          refl,
          (
            record { slots = is.slots; cache = prune-IsCache l.node.seen (os.time h) is.cache },
            inl refl,
          ),
        ))
        (λ fresh. (l, h, refl, (is, inl refl)))

  stats_shown :
      (show_stats : Bool) (l l' : Loop) (now : ℕ) (h : History)
      → Goes l.node l'.node
      → Returns
          (λ l'. Goes l.node l'.node)
          ((if show_stats && ltb 30 (now - l.last_stats)
              then (do print_stats os l'.node; return (record l' { last_stats = now }))
              else return l')
            h)
  stats_shown show_stats l l' now h goes =
      Returns-if (λ l'. Goes l.node l'.node) (show_stats && ltb 30 (now - l.last_stats))
        (do print_stats os l'.node; return (record l' { last_stats = now })) (return l') h
        (λ due.
          let (u, h₂, printed, t) = print_stats_runs os l'.node h in
          (record l' { last_stats = now }, h₂, rw (printed, ◌>>◌), goes))
        (λ quiet. (l', h, refl, goes))

  pub maintain_runs :
      (show_stats : Bool) (l : Loop) (h : History)
      → IsNode l.node
      → Returns (λ l'. Goes l.node l'.node) (maintain os show_stats l h)
  unfolding maintain
  maintain_runs show_stats l h is =
      Returns-seq (λ l'. Goes l.node l'.node) (λ l'. Goes l.node l'.node) _
        (pruned l (os.time h) (clocked ∷ h) is)
        (λ l' h' goes. stats_shown show_stats l l' (os.time h) h' goes)
