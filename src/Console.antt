-- ===== src/Console.antt =====
-- What src/main.c does with a line of the console, and the two reports that it prints. The prompt, the
-- banner and the usage are not modelled. `(int)` and `(long)` of a time keep its value.
pub mod Commands
pub mod Quit
pub mod Typed
pub mod Wire
use vexconnect.Prelude.{
  ℕ, zero, suc, ◌+◌, List, [], ◌∷◌, ◌++◌, Option, none, some, Bool, true, false, ◌||◌, ◌==◌,
  if◌then◌else◌, length, bytes_eq,
}
use vexconnect.Prelude.Int.{ℤ, difference, quotient, remainder}
use vexconnect.Prelude.Text.{codes}
use vexconnect.Prelude.Memory.{write_at}
use vexconnect.Node.{Peer, Node}
use vexconnect.Nacl.{Nacl}
use vexconnect.Mesh.{send, until_nul}
use vexconnect.System.{
  Os, Io, Report, peer_line, no_peers, reported, ◌>>=◌, ◌>>◌, return, lift, call, uninit, time,
  fgets,
}

-- The loops of `print_stats` and `print_peers` that count the open peers.
abbrev pub open_count : List Peer → ℕ
open_count [] = 0
open_count (p ∷ ps) = (if p.active then 1 else 0) + open_count ps

module _ (os : Os) where
  -- `print_stats`
  pub print_stats : Node → Io (Unit {0})
  print_stats node = do
    now ← time os
    let uptime = difference now node.started_at
    call (
        reported (
          Report.stats node.node_name (quotient uptime 3600) (quotient (remainder uptime 3600) 60)
            node.packets_sent node.packets_received node.packets_relayed node.packets_dropped
            (open_count node.peers)))

  -- The loop of `print_peers`.
  pub print_loop : List Peer → Io (Unit {0})
  print_loop [] = return tt
  print_loop (p ∷ ps) = do
    if p.active
        then (do
          now ← time os
          call (reported (peer_line p.name p.fd (difference now p.last_seen))))
        else return tt
    print_loop ps

  -- `print_peers`
  pub print_peers : Node → Io (Unit {0})
  print_peers node = do
    print_loop node.peers
    if open_count node.peers == 0 then call (reported no_peers) else return tt

-- `if (len > 0 && input[len - 1] == '\n') input[--len] = '\0'`
abbrev pub strip : List ℕ → List ℕ
strip [] = []
strip (b ∷ []) = if b == 10 then [] else b ∷ []
strip (b ∷ c ∷ bs) = b ∷ strip (c ∷ bs)

module _ (os : Os) (nacl : Nacl) where
  -- The commands and the sending of a message: `true` for `continue`.
  pub command : Node → List ℕ → Io (Bool × Node)
  command node text =
      if length text == 0
      then return (true, node)
      else if bytes_eq text (codes "/quit") || bytes_eq text (codes "/q")
      then return (true, record node { running = false })
      else if bytes_eq text (codes "/peers")
      then (do print_peers os node; return (true, node))
      else if bytes_eq text (codes "/stats")
      then (do print_stats os node; return (true, node))
      else do sent ← send os nacl node text; return (false, sent.1)

  -- The handling of the console when `poll` reports a line.
  pub read_command : Node → Io (Bool × Node)
  read_command node = do
    input ← uninit os 512
    reply ← fgets os 512
    elim reply [
      | none ↦ return (false, node)
      | some line ↦ do
        input' ← lift (write_at input 0 (line ++ (0 ∷ [])))
        command node (strip (until_nul input'))
    ]
