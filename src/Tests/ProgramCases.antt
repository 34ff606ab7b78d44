-- ===== src/Tests/ProgramCases.antt =====
-- src/main.c and the start of a node at concrete inputs.
use vexconnect.Prelude.{
  if◌then◌else◌, ◌<◌, ap, sym, ◌∙◌, length, Bool-cases, inl, inr, ℕ, ◌≡◌, refl, List, [], ◌∷◌,
  Option, some, none, true, false, arith, replicate, ltb,
}
use vexconnect.Prelude.Int.{pos}
use vexconnect.Prelude.Text.{codes}
use vexconnect.Node.{Node}
use vexconnect.Seen.History.{init-IsCache}
use vexconnect.System.{Os, IsOs, History, asked_line, waited, closed, has_read, ready}
use vexconnect.Crypto.KeySet.{KeySet, IsKeySet, keyed, shared_key}
use vexconnect.Keys.{mesh_init, empty_peer}
use vexconnect.Keys.Start.{online, key_name, mesh_init_lem}
use vexconnect.Transport.Accept.{CountIsRight}
use vexconnect.Options.{Choice, listen, peer, name, stats, parse, runs}
use vexconnect.Options.Laws.{parse_lem}
use vexconnect.Console.Commands.{IsNode, Returns}
use vexconnect.Program.{Loop, main, sockets, round, serve_peer}
use vexconnect.Program.Ends.{run_on, closings, quit_ends, signal_ends}
use vexconnect.Program.Halts.{Signals, IsExit, main_halts}
use vexconnect.Program.Output.{main-Speaks}
use vexconnect.Packet.Encoded.{IsFrame}
use vexconnect.Transport.Speaks.{Speaks}
use vexconnect.Program.Drift.{serve_peer_drifts}
use vexconnect.Tests.Platform.{kernel, kernel-IsOs, plain_box, plain_box-IsNacl}
use vexconnect.Tests.Frames.{peer_of, a_node}

abbrev some_choices : List Choice
some_choices =
    stats
    ∷ peer (codes "/tmp/b.sock")
    ∷ listen (codes "/tmp/a.sock")
    ∷ name (codes "ada")
    ∷ listen (codes "/tmp/c.sock")
    ∷ []

-- A node with all its slots, of which the first is open.
abbrev full_node : Node
full_node = record a_node {
  peers = peer_of 3 ∷ replicate 31 empty_peer;
  peer_count = pos 1;
  running = true;
  listen_fd = pos 8;
}

full_node-IsNode : IsNode full_node
full_node-IsNode = record { slots = refl; cache = init-IsCache }

abbrev a_loop : Loop
a_loop = record { node = full_node; last_stats = 0; last_prune = 0 }

-- A console at which the user types `/quit`, and a kernel that is interrupted.
abbrev typing : Os
typing = record (kernel []) {
  poll = λ h fds. (false, ready (true ∷ []));
  fgets = λ h n. if ltb 10 n then some (codes "/quit\n") else none;
}

quiet : IsOs (kernel [])
quiet = kernel-IsOs [] tt

taken :
    (n : ℕ) (line : List ℕ)
    → (if ltb 10 n then some (codes "/quit\n") else none) ≡ some line
    → length line < n
taken n line e = elim (Bool-cases (ltb 10 n)) [
  | inl room ↦
      let e' : some (codes "/quit\n") ≡ some line =
        sym (ap (λ b. if b then some (codes "/quit\n") else none) room) ∙ e in
      let same : codes "/quit\n" ≡ line = cc e' in
      let size : length line ≡ 6 = ap length (sym same) in ground arith
  | inr small ↦
      let e' : none ≡ some line =
        sym (ap (λ b. if b then some (codes "/quit\n") else none) small) ∙ e in
      absurd (cc e')
]

typing-IsOs : IsOs typing
typing-IsOs = record {
  read_bound = quiet.read_bound;
  read_bytes = quiet.read_bytes;
  fread_bound = quiet.fread_bound;
  fread_bytes = quiet.fread_bytes;
  uninit_size = quiet.uninit_size;
  uninit_bytes = quiet.uninit_bytes;
  fgets_bound = λ h. taken;
}

abbrev interrupted : Os
interrupted = record (kernel []) { poll = λ h fds. (true, ready []) }

interrupted-IsOs : IsOs interrupted
interrupted-IsOs = record {
  read_bound = quiet.read_bound;
  read_bytes = quiet.read_bytes;
  fread_bound = quiet.fread_bound;
  fread_bytes = quiet.fread_bytes;
  uninit_size = quiet.uninit_size;
  uninit_bytes = quiet.uninit_bytes;
  fgets_bound = quiet.fgets_bound;
}

parse_lem_example :
    parse (kernel []).atoi some_choices
    ≡ some (
        runs (record {
          listen_path = some (codes "/tmp/c.sock");
          peer_paths = codes "/tmp/b.sock" ∷ [];
          node_name = some (codes "ada");
          node_ttl = pos 7;
          relay = true;
          show_stats = true;
        }))
parse_lem_example = parse_lem (kernel []).atoi some_choices

quit_ends_example :
    run_on typing plain_box 4 false a_loop []
    ≡ some (
      some 0,
      closed (pos 3) ∷ closed (pos 8) ∷ asked_line 512 ∷ waited (pos 0 ∷ pos 8 ∷ pos 3 ∷ []) ∷ [],
    )
quit_ends_example =
    quit_ends typing plain_box typing-IsOs 3 false false a_loop [] (codes "/quit\n") [] refl refl
      refl (inl refl) refl

signal_ends_example :
    (l' : Loop) × (h' : History) × (round interrupted plain_box false a_loop [] ≡ some (l', h'))
    × (run_on interrupted plain_box 4 false a_loop []
        ≡ some (some 0, closings (sockets l'.node) h'))
signal_ends_example =
    signal_ends interrupted plain_box interrupted-IsOs 3 false a_loop [] plain_box-IsNacl
      full_node-IsNode refl refl

serve_peer_drifts_example :
    (serve_peer (kernel (2 ∷ 1 ∷ [])) plain_box full_node 0 (peer_of 3) []
      ≡ some (record full_node { peer_count = pos 0 }, has_read (pos 3) 2 ∷ []))
    × (¬ CountIsRight (record full_node { peer_count = pos 0 }))
serve_peer_drifts_example =
    serve_peer_drifts (kernel (2 ∷ 1 ∷ [])) plain_box full_node 0 (peer_of 3) [] refl refl
      (2 ∷ 1 ∷ []) refl (omega arith) refl

mesh_init_lem_example :
    (k : KeySet) × (h' : History) × (mesh_init (kernel []) plain_box []
      ≡ some (record (keyed (online 100) k) { node_name = key_name k }, h'))
    × IsKeySet k
    × (k.mesh_key ≡ shared_key plain_box)
mesh_init_lem_example = mesh_init_lem (kernel []) plain_box (kernel-IsOs [] tt) plain_box-IsNacl []

-- SIGINT has come by the end of the first `poll`.
at_once : Signals interrupted 1
at_once h fds due = refl

main_halts_example : Returns IsExit (main interrupted plain_box 1 some_choices [])
main_halts_example =
    main_halts interrupted plain_box interrupted-IsOs plain_box-IsNacl 1 at_once 0 some_choices []
      (omega arith)

main-Speaks_example :
    (code : Option ℕ) × (h' : History) × (main typing plain_box 5 some_choices [] ≡ some (code, h'))
    × Speaks IsFrame [] h'
main-Speaks_example = main-Speaks typing plain_box typing-IsOs plain_box-IsNacl 5 some_choices []
