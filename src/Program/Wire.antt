-- ===== src/Program/Wire.antt =====
-- What the rounds of the main loop write to the sockets.
use vexconnect.Prelude.{
  ◌≡◌, length, ℕ, zero, suc, ◌==◌, List, [], ◌∷◌, Bool, if◌then◌else◌, Ret, ok, err, set, take, ◌-◌,
}
use vexconnect.Prelude.Int.{ℤ, decrement}
use vexconnect.Node.{Peer, Node, max_peers}
use vexconnect.Nacl.{Nacl}
use vexconnect.Packet.{Packet, max_packet}
use vexconnect.Packet.Encoded.{IsFrame, encode-IsFrame}
use vexconnect.Mesh.{receive}
use vexconnect.Mesh.Wire.{Encodes, receive-Makes}
use vexconnect.Console.{read_command}
use vexconnect.Console.Wire.{print_stats-Makes, read_command-Makes}
use vexconnect.System.{Os, IsOs, Io, History, PollReply, ready, waited, ◌>>=◌, return, call, closed}
use vexconnect.Transport.{unix_read}
use vexconnect.Transport.Speaks.{Makes, Finds, makes_rules, Makes-bind, Makes-then}
use vexconnect.Transport.Wire.{unix_read-Makes, unix_accept-Makes, unix_connect-Makes}
use vexconnect.Program.Watched.{listed, watched_lem}
use vexconnect.Program.{
  handle_signal, Loop, accept_loop, connect_all, close_peers, cleanup, maintain, serve_peer,
  serve_loop, respond, round, rounds,
}

module _ {Q : List ℕ → Type 0} (os : Os) where
  accept_loop-Makes : (fds : List (ℤ × Bool)) (node : Node) → Makes Q (accept_loop os fds node)
  unfolding accept_loop
  accept_loop-Makes [] node = search makes_rules
  accept_loop-Makes ((fd, bit) ∷ fds) node =
      search (makes_rules, unix_accept-Makes, accept_loop-Makes fds)

  pub connect_all-Makes :
      (paths : List (List ℕ)) (node : Node) → Makes Q (connect_all os paths node)
  unfolding connect_all
  connect_all-Makes [] node = search makes_rules
  connect_all-Makes (path ∷ paths) node =
      search (makes_rules, unix_connect-Makes, connect_all-Makes paths)

  close_peers-Makes : (ps : List Peer) → Makes Q (close_peers os ps)
  unfolding close_peers
  close_peers-Makes [] = search makes_rules
  close_peers-Makes (p ∷ ps) =
      Makes-then (if p.active then call (closed p.fd) else return tt) (close_peers os ps)
        (search makes_rules) (close_peers-Makes ps)

  maintain-Makes : (show_stats : Bool) (l : Loop) → Makes Q (maintain os show_stats l)
  unfolding maintain
  maintain-Makes show_stats l = search (makes_rules, print_stats-Makes) depth 10

  pub cleanup-Makes : (node : Node) → Makes Q (cleanup os node)
  unfolding cleanup
  cleanup-Makes node = search (makes_rules, close_peers-Makes)

module _ (Q : List ℕ → Type 0) (os : Os) (nacl : Nacl) (v : IsOs os)
    (every : (f : List ℕ) → IsFrame f → Q f) where
  encoded : (pkt : Packet) → Encodes Q pkt
  encoded pkt buf w n size e = every (take n w) (encode-IsFrame pkt buf w max_packet n e).1

  received :
      (node : Node) (raw : List ℕ) (len : ℕ) (fd : ℤ) → Makes Q (receive os nacl node raw len fd)
  received node raw len fd =
      receive-Makes Q os v nacl node raw len fd
        (λ old pkt is e alive. encoded (record pkt { ttl = pkt.ttl - 1 }))

  typed : (node : Node) → Makes Q (read_command os nacl node)
  typed node = read_command-Makes Q os v nacl node (λ pkt same. encoded pkt)

  serve_peer-Makes : (node : Node) (i : ℕ) (p : Peer) → Makes Q (serve_peer os nacl node i p)
  unfolding serve_peer
  serve_peer-Makes node i p = record { at = λ h. (read_of (os.uninit h max_packet)).at h }
    where
      handled :
          (r : Ret ℕ × Peer × List ℕ)
          → Makes Q (
              let node' = record node { peers = set node.peers i r.1 } in
              elim r.0 as (λ u. Io Node) [
                | err ↦ return (record node' { peer_count = decrement node'.peer_count })
                | ok n ↦
                    if n == 0
                    then return node'
                    else do answer ← receive os nacl node' r.2 n r.1.fd; return answer.1
              ])
      handled (err, p', buf') = search makes_rules
      handled (ok n, p', buf') = search (makes_rules, received)

      read_of :
          (buf : List ℕ)
          → Makes Q (do
            r ← unix_read os p buf max_packet
            let node' = record node { peers = set node.peers i r.1 }
            elim r.0 as (λ u. Io Node) [
              | err ↦ return (record node' { peer_count = decrement node'.peer_count })
              | ok n ↦
                  if n == 0
                  then return node'
                  else do answer ← receive os nacl node' r.2 n r.1.fd; return answer.1
            ])
      read_of buf =
          Makes-bind (unix_read os p buf max_packet) _ (unix_read-Makes os p buf max_packet) handled

  serve_loop-Makes : (n i : ℕ) (node : Node) → Makes Q (serve_loop os nacl n i node)
  unfolding serve_loop
  serve_loop-Makes zero i node = search makes_rules
  serve_loop-Makes (suc n) i node = search (makes_rules, serve_peer-Makes, serve_loop-Makes n)

  respond-Makes :
      (show_stats : Bool) (l : Loop) (fds : List ℤ) (bits : List Bool)
      → Makes Q (respond os nacl show_stats l fds bits)
  unfolding respond
  respond-Makes show_stats l fds bits =
      search (makes_rules, typed, accept_loop-Makes, serve_loop-Makes, maintain-Makes) depth 10

  replied :
      (show_stats : Bool) (l : Loop) (fds : List ℤ) (reply : Bool × PollReply)
      → Makes Q (
          let node = if reply.0 then handle_signal l.node else l.node in
          elim reply.1 as (λ u. Io Loop) [
            | PollReply.failed ↦ return (record l { node = node })
            | ready bits ↦ respond os nacl show_stats (record l { node = node }) fds bits
          ])
  replied show_stats l fds (signal, PollReply.failed) = search makes_rules
  replied show_stats l fds (signal, ready bits) = search respond-Makes

  round-Makes : (show_stats : Bool) (l : Loop) → Makes Q (round os nacl show_stats l)
  unfolding round
  round-Makes show_stats l = search (makes_rules, replied show_stats l)

  -- A round waits first.
  pub round_waits :
      (show_stats : Bool) (l : Loop) (h : History)
      → length l.node.peers ≡ max_peers
      → Finds Q (waited (listed l.node) ∷ h) (round os nacl show_stats l h)
  unfolding round
  round_waits show_stats l h slots = rw (watched_lem l.node slots) (
      (replied show_stats l (listed l.node) (os.poll h (listed l.node))).at
        (waited (listed l.node) ∷ h))

  pub rounds-Makes :
      (n : ℕ) (show_stats : Bool) (l : Loop) → Makes Q (rounds os nacl n show_stats l)
  unfolding rounds
  rounds-Makes zero show_stats l = search makes_rules
  rounds-Makes (suc n) show_stats l = search (makes_rules, round-Makes, rounds-Makes n)
