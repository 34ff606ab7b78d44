-- ===== src/Program/Round.antt =====
-- The rounds of the main loop: no answer of the kernel leads to a fault.
use vexconnect.Prelude.{
  ℕ, zero, suc, ◌≡◌, inl, inr, refl, ◌∙◌, List, ◌∷◌, Bool, true, false, arith, get_or,
  if◌then◌else◌,
}
use vexconnect.Prelude.Int.{ℤ, is_negative}
use vexconnect.Node.{Node, max_peers}
use vexconnect.Nacl.{Nacl, IsNacl}
use vexconnect.Console.{read_command}
use vexconnect.Console.Commands.{
  IsNode, Returns, Goes, Goes-trans, Returns-seq, Returns-if, read_command_runs,
}
use vexconnect.System.{Os, IsOs, Io, History, PollReply, ready, waited, return, ◌>>=◌}
use vexconnect.Program.{
  handle_signal, Loop, polled, accept_loop, serve_loop, maintain, respond, round, rounds,
}
use vexconnect.Program.Watched.{listed, watched_lem}
use vexconnect.Program.Upkeep.{accept_loop_runs, maintain_runs}
use vexconnect.Program.Serve.{serve_loop_runs}

-- A part of a round keeps the loop's node well-formed, and may stop the loop.
abbrev pub Keeps : Loop → Loop → Type 0
Keeps l l' = Goes l.node l'.node

-- What a signal that has come makes of a node.
abbrev interrupted : Bool → Node → Node
interrupted signal node = if signal then handle_signal node else node

interrupted-Goes :
    (signal : Bool) (node : Node)
    → IsNode node
    → Goes node (interrupted signal node)
      × (signal ≡ true → (interrupted signal node).running ≡ false)
interrupted-Goes true node is =
    ((record { slots = is.slots; cache = is.cache }, inr refl), (λ e. refl))
interrupted-Goes false node is = ((is, inl refl), (λ e. absurd (cc e)))

module _ (os : Os) (nacl : Nacl) (v : IsOs os) (w : IsNacl nacl) where
  -- The sockets, behind the console.
  sockets_runs :
      (show_stats : Bool) (l : Loop) (node : Node) (fds : List ℤ) (bits : List Bool) (h : History)
      → Goes l.node node
      → Returns (Keeps l) (
          (do
            node₁ ←
                if is_negative node.listen_fd
                then return node
                else accept_loop os (polled fds bits) node
            node₂ ← serve_loop os nacl max_peers 0 node₁
            maintain os show_stats (record l { node = node₂ }))
            h)
  sockets_runs show_stats l node fds bits h goes =
      Returns-seq (Goes l.node) (Keeps l) _
        (Returns-if (Goes l.node) (is_negative node.listen_fd) (return node)
          (accept_loop os (polled fds bits) node) h (λ off. (node, h, refl, goes))
          (λ on.
            let (node₁, h₁, run, goes₁) = accept_loop_runs os (polled fds bits) node h goes.0 in
            (node₁, h₁, run, Goes-trans l.node node node₁ goes goes₁)))
        (λ node₁ h₁ goes₁.
          Returns-seq (Goes l.node) (Keeps l) _
            (let (node₂, h₂, run, goes₂) =
                serve_loop_runs os nacl v w max_peers 0 node₁ h₁ goes₁.0 (omega arith) in
              (node₂, h₂, run, Goes-trans l.node node₁ node₂ goes₁ goes₂))
            (λ node₂ h₂ goes₂.
              let (l', h₃, run, goes₃) =
                maintain_runs os show_stats (record l { node = node₂ }) h₂ goes₂.0 in
              (l', h₃, run, Goes-trans l.node node₂ l'.node goes₂ goes₃)))

  console_runs :
      (node : Node) (b : Bool) (h : History)
      → IsNode node
      → Returns
          (λ c. Goes node c.1)
          ((if b then read_command os nacl node else return (false, node)) h)
  console_runs node b h is =
      Returns-if (λ c. Goes node c.1) b (read_command os nacl node) (return (false, node)) h
        (λ line. read_command_runs os nacl v w node h is)
        (λ quiet. ((false, node), h, refl, (is, inl refl)))

  respond_runs :
      (show_stats : Bool) (l : Loop) (fds : List ℤ) (bits : List Bool) (h : History)
      → IsNode l.node
      → Returns (Keeps l) (respond os nacl show_stats l fds bits h)
  unfolding respond
  respond_runs show_stats l fds bits h is =
      Returns-seq (λ c. Goes l.node c.1) (Keeps l) _
        (console_runs l.node (get_or bits 0 false) h is)
        (λ c h₁ goes.
          Returns-if (Keeps l) c.0 (return (record l { node = c.1 })) _ h₁
            (λ next. (record l { node = c.1 }, h₁, refl, goes))
            (λ on. sockets_runs show_stats l c.1 fds bits h₁ goes))

  replied :
      (show_stats : Bool) (l : Loop) (reply : PollReply) (fds : List ℤ) (h : History)
      → IsNode l.node
      → Returns (Keeps l) (
          (elim reply as (λ x. Io Loop) [
            | PollReply.failed ↦ return l
            | ready bits ↦ respond os nacl show_stats l fds bits
          ])
            h)
  replied show_stats l PollReply.failed fds h is = (l, h, refl, (is, inl refl))
  replied show_stats l (ready bits) fds h is = respond_runs show_stats l fds bits h is

  -- A round returns on every answer of the kernel, and a signal stops the loop.
  pub round_runs :
      (show_stats : Bool) (l : Loop) (h : History)
      → IsNode l.node
      → Returns
          (λ l'. Keeps l l' × ((os.poll h (listed l.node)).0 ≡ true → l'.node.running ≡ false))
          (round os nacl show_stats l h)
  unfolding round
  round_runs show_stats l h is =
      let signal = (os.poll h (listed l.node)).0 in
      let l₁ = record l { node = interrupted signal l.node } in
      let (goes₁, off) = interrupted-Goes signal l.node is in
      let (l', h', run, goes) =
        replied show_stats l₁ (os.poll h (listed l.node)).1 (listed l.node)
          (waited (listed l.node) ∷ h) goes₁.0 in
      let stops : signal ≡ true → l'.node.running ≡ false =
        λ e. elim goes.1 [ inl same ↦ same ∙ off e | inr stops ↦ stops ] in
      rw (watched_lem l.node is.slots)
        (l', h', run, (Goes-trans l.node l₁.node l'.node goes₁ goes, stops))

  pub rounds_runs :
      (n : ℕ) (show_stats : Bool) (l : Loop) (h : History)
      → IsNode l.node
      → Returns (Keeps l) (rounds os nacl n show_stats l h)
  unfolding rounds
  rounds_runs zero show_stats l h is = (l, h, refl, (is, inl refl))
  rounds_runs (suc n) show_stats l h is =
      Returns-seq (Keeps l) (Keeps l) _
        (Returns-if (Keeps l) l.node.running (round os nacl show_stats l) (return l) h
          (λ on. let (l', h', run, goes) = round_runs show_stats l h is in (l', h', run, goes.0))
          (λ off. (l, h, refl, (is, inl refl))))
        (λ l₁ h₁ keeps₁.
          let (l₂, h₂, run, keeps₂) = rounds_runs n show_stats l₁ h₁ keeps₁.0 in
          (l₂, h₂, run, Goes-trans l.node l₁.node l₂.node keeps₁ keeps₂))
