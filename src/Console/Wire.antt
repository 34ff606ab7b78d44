-- ===== src/Console/Wire.antt =====
-- What a line of the console makes a node write: the frames of a message.
use vexconnect.Prelude.{
  ℕ, length, ◌==◌, ◌||◌, bytes_eq, ◌≡◌, List, [], ◌∷◌, ◌++◌, Option, none, some, Bool, false,
  if◌then◌else◌,
}
use vexconnect.Prelude.Int.{difference}
use vexconnect.Prelude.Text.{codes}
use vexconnect.Prelude.Memory.{write_at}
use vexconnect.Node.{Peer, Node}
use vexconnect.Nacl.{Nacl}
use vexconnect.Packet.{Packet}
use vexconnect.System.{Os, IsOs, Io, ◌>>=◌, return, lift, fgets, call, reported, peer_line, time}
use vexconnect.Transport.Speaks.{Makes, Makes-if, Makes-bind, Makes-return, Makes-then, makes_rules}
use vexconnect.Mesh.{send, until_nul}
use vexconnect.Mesh.Wire.{Encodes}
use vexconnect.Mesh.Speech.{send-Makes}
use vexconnect.Console.{print_stats, print_loop, print_peers, command, read_command, strip}

module _ {Q : List ℕ → Type 0} (os : Os) where
  pub print_stats-Makes : (node : Node) → Makes Q (print_stats os node)
  unfolding print_stats
  print_stats-Makes node = search makes_rules

  print_loop-Makes : (ps : List Peer) → Makes Q (print_loop os ps)
  unfolding print_loop
  print_loop-Makes [] = search makes_rules
  print_loop-Makes (p ∷ ps) =
      Makes-then
        (if p.active
          then (do
            now ← time os
            call (reported (peer_line p.name p.fd (difference now p.last_seen))))
          else return tt)
        (print_loop os ps) (search makes_rules) (print_loop-Makes ps)

  print_peers-Makes : (node : Node) → Makes Q (print_peers os node)
  unfolding print_peers
  print_peers-Makes node = search (makes_rules, print_loop-Makes)

module _ (Q : List ℕ → Type 0) (os : Os) (v : IsOs os) (nacl : Nacl) (node : Node)
    (good : (pkt : Packet) → pkt.ttl ≡ node.default_ttl → Encodes Q pkt) where
  command-Makes : (text : List ℕ) → Makes Q (command os nacl node text)
  unfolding command
  command-Makes text =
      Makes-if (length text == 0) _ _ (λ empty. search makes_rules)
        (λ e₁.
          Makes-if (bytes_eq text (codes "/quit") || bytes_eq text (codes "/q")) _ _
            (λ quit. search makes_rules)
            (λ e₂.
              Makes-if (bytes_eq text (codes "/peers")) _ _
                (λ peers.
                  Makes-then (print_peers os node) _ (print_peers-Makes os node)
                    (search makes_rules))
                (λ e₃.
                  Makes-if (bytes_eq text (codes "/stats")) _ _
                    (λ stats.
                      Makes-then (print_stats os node) _ (print_stats-Makes os node)
                        (search makes_rules))
                    (λ e₄.
                      Makes-bind (send os nacl node text) _ (send-Makes Q os v nacl node text good)
                        (λ sent. Makes-return (false, sent.1))))))

  pub read_command-Makes : Makes Q (read_command os nacl node)
  unfolding read_command
  read_command-Makes = record { at = λ h. (asked (os.uninit h 512)).at h }
    where
      typed :
          (input : List ℕ) (reply : Option (List ℕ))
          → Makes Q (elim reply as (λ u. Io (Bool × Node)) [
            | none ↦ return (false, node)
            | some line ↦ do
              input' ← lift (write_at input 0 (line ++ (0 ∷ [])))
              command os nacl node (strip (until_nul input'))
          ])
      typed input none = search makes_rules
      typed input (some line) = search (makes_rules, command-Makes)

      asked :
          (input : List ℕ)
          → Makes Q (do
            reply ← fgets os 512
            elim reply as (λ u. Io (Bool × Node)) [
              | none ↦ return (false, node)
              | some line ↦ do
                input' ← lift (write_at input 0 (line ++ (0 ∷ [])))
                command os nacl node (strip (until_nul input'))
            ])
      asked input = search (makes_rules, typed input)
