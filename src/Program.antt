-- ===== src/Program.antt =====
-- `main` of src/main.c. A signal handler only clears `running`, which is read before each round: a
-- signal is taken to come while the program waits in `poll`.
pub mod Watched
pub mod Upkeep
pub mod Serve
pub mod Start
pub mod Safe
pub mod Round
pub mod Ends
pub mod Drift
pub mod Wire
pub mod Output
pub mod Halts
use vexconnect.Prelude.{
  ℕ, zero, suc, ◌+◌, ◌-◌, List, [], ◌∷◌, ◌++◌, map, Option, none, some, Bool, true, false, ◌&&◌,
  ltb, ◌==◌, if◌then◌else◌, Ret, ok, err, get_or, get_elem?, set, take,
}
use vexconnect.Prelude.Int.{ℤ, pos, is_negative, int_eq, decrement, to_byte}
use vexconnect.Prelude.Memory.{put}
use vexconnect.Prelude.Memory
use vexconnect.Node.{Peer, Node, max_peers}
use vexconnect.Nacl.{Nacl}
use vexconnect.Packet.{max_packet}
use vexconnect.Seen
use vexconnect.Util.{hex}
use vexconnect.Transport.{unix_init, unix_accept, unix_connect, unix_read}
use vexconnect.Mesh.{receive}
use vexconnect.Keys.{mesh_init}
use vexconnect.Options.{Choice, Settings, exits, runs, parse}
use vexconnect.Console.{read_command, print_stats}
use vexconnect.System.{
  Os, Io, PollReply, ready, closed, ◌>>=◌, ◌>>◌, return, lift, call, uninit, time, poll,
}

-- The variables of the main loop.
pub record Loop : Type 0 where
  pub node : Node
  pub last_stats : ℕ
  pub last_prune : ℕ

-- The descriptors of the open peers.
abbrev pub open_fds : List Peer → List ℤ
open_fds [] = []
open_fds (p ∷ ps) = if p.active then p.fd ∷ open_fds ps else open_fds ps

-- The sockets of a node, in the order in which they are polled and closed: the listening one and those of the open peers.
abbrev pub sockets : Node → List ℤ
sockets node =
    (if is_negative node.listen_fd then [] else node.listen_fd ∷ []) ++ open_fds node.peers

-- The polled descriptors of the open peers, behind those that are written, in an array of 32 + 2.
abbrev pub watch_peers : List Peer → List ℤ → Option (List ℤ)
watch_peers [] fds = some fds
watch_peers (p ∷ ps) fds =
    Memory.◌>>=◌ (if p.active then put (max_peers + 2) fds p.fd else some fds) (watch_peers ps)

-- The array `fds` of a round, as far as it is written: the console, and the sockets. A write behind its
-- end is a fault.
abbrev pub watched : Node → Option (List ℤ)
watched node = Memory.◌>>=◌ (put (max_peers + 2) [] (pos 0)) λ fds.
    Memory.◌>>=◌
      (if is_negative node.listen_fd then some fds else put (max_peers + 2) fds node.listen_fd)
      (watch_peers node.peers)

-- Each polled descriptor with its POLLIN.
abbrev pub polled : List ℤ → List Bool → List (ℤ × Bool)
polled [] bits = []
polled (fd ∷ fds) [] = (fd, false) ∷ polled fds []
polled (fd ∷ fds) (bit ∷ bits) = (fd, bit) ∷ polled fds bits

-- `handle_signal`
abbrev pub handle_signal : Node → Node
handle_signal node = record node { running = false }

-- The fields that the options set, once the node is made.
abbrev pub configured : Settings → Node → Node
configured s node = record node {
  node_name = elim s.node_name [ none ↦ node.node_name | some text ↦ take 63 text ];
  default_ttl = to_byte s.node_ttl;
  relay_enabled = s.relay;
}

module _ (os : Os) where
  -- The loop that accepts connections.
  pub accept_loop : List (ℤ × Bool) → Node → Io Node
  accept_loop [] node = return node
  accept_loop ((fd, bit) ∷ fds) node = do
    node' ←
        if int_eq fd node.listen_fd && bit
        then (do r ← unix_accept os node; return r.1)
        else return node
    accept_loop fds node'

  -- The loop over the paths of `--peer`, whose results are not looked at.
  pub connect_all : List (List ℕ) → Node → Io Node
  connect_all [] node = return node
  connect_all (path ∷ paths) node = do r ← unix_connect os node path; connect_all paths r.1

  -- The loop of the cleanup, and the cleanup.
  pub close_peers : List Peer → Io (Unit {0})
  close_peers [] = return tt
  close_peers (p ∷ ps) = do if p.active then call (closed p.fd) else return tt; close_peers ps

  pub cleanup : Node → Io (Unit {0})
  cleanup node = do
    if is_negative node.listen_fd then return tt else call (closed node.listen_fd)
    close_peers node.peers

  -- The periodic part of a round.
  pub maintain : Bool → Loop → Io Loop
  maintain show_stats l = do
    now ← time os
    let due = ltb 10 (now - l.last_prune)
    l' ←
        if due
        then (do
          later ← time os
          return (record l {
            node = record l.node { seen = Seen.prune l.node.seen later };
            last_prune = now;
          }))
        else return l
    if show_stats && ltb 30 (now - l.last_stats)
        then (do print_stats os l'.node; return (record l' { last_stats = now }))
        else return l'

  module _ (nacl : Nacl) where
    -- What a round does with an open peer.
    pub serve_peer : Node → ℕ → Peer → Io Node
    serve_peer node i p = do
      buf ← uninit os max_packet
      r ← unix_read os p buf max_packet
      let node' = record node { peers = set node.peers i r.1 }
      elim r.0 [
        | err ↦ return (record node' { peer_count = decrement node'.peer_count })
        | ok n ↦
            if n == 0
            then return node'
            else do answer ← receive os nacl node' r.2 n r.1.fd; return answer.1
      ]

    -- The loop over the peers from slot i on; a slot outside the array is a fault.
    pub serve_loop : ℕ → ℕ → Node → Io Node
    serve_loop zero i node = return node
    serve_loop (suc n) i node = do
      p ← lift (get_elem? node.peers i)
      node' ← if p.active then serve_peer node i p else return node
      serve_loop n (i + 1) node'

    -- A round behind a successful `poll`.
    pub respond : Bool → Loop → List ℤ → List Bool → Io Loop
    respond show_stats l fds bits = do
      c ← if get_or bits 0 false then read_command os nacl l.node else return (false, l.node)
      if c.0 then return (record l { node = c.1 }) else do
        node₁ ← if is_negative c.1.listen_fd then return c.1 else accept_loop (polled fds bits) c.1
        node₂ ← serve_loop max_peers 0 node₁
        maintain show_stats (record l { node = node₂ })

    -- A round of the main loop.
    pub round : Bool → Loop → Io Loop
    round show_stats l = do
      fds ← lift (watched l.node)
      reply ← poll os fds
      let node = if reply.0 then handle_signal l.node else l.node
      elim reply.1 [
        | PollReply.failed ↦ return (record l { node = node })
        | ready bits ↦ respond show_stats (record l { node = node }) fds bits
      ]

    -- At most n rounds: the loop ends when `running` is cleared.
    pub rounds : ℕ → Bool → Loop → Io Loop
    rounds zero show_stats l = return l
    rounds (suc n) show_stats l = do
      l' ← if l.node.running then round show_stats l else return l
      rounds n show_stats l'

    -- From the signal handlers to the main loop; `none` is the exit with status 1.
    pub start : Settings → List ℕ → Io (Option Loop)
    start s listen_path = do
      fresh ← mesh_init os nacl
      r ← unix_init os (configured s fresh) listen_path
      elim r.0 [
        | err ↦ return none
        | ok status ↦ do
          node ← connect_all s.peer_paths r.1
          out ← uninit os 9
          id_hex ← lift (hex node.sign_pk 4 out)
          last_stats ← time os
          last_prune ← time os
          return (some (record { node = node; last_stats = last_stats; last_prune = last_prune }))
      ]

    -- The rest of `main`, with a bound on the rounds: `none` if the loop has not ended by then.
    pub finish : Loop → Io (Option ℕ)
    finish l = if l.node.running then return none else do cleanup l.node; return (some 0)

    -- `main`: the exit status, with a bound on the rounds.
    pub main : ℕ → List Choice → Io (Option ℕ)
    main n choices = do
      parsed ← lift (parse os.atoi choices)
      elim parsed [
        | exits code ↦ return (some code)
        | runs s ↦ elim s.listen_path [
          | none ↦ return (some 1)
          | some path ↦ do
            started ← start s path
            elim started [
              | none ↦ return (some 1)
              | some l ↦ do l' ← rounds n s.show_stats l; finish l'
            ]
        ]
      ]
