-- ===== src/Options.antt =====
-- The command line of src/main.c. `getopt_long` is the C library's: what it returns, in order, is the
-- list of choices that the switch is over.
pub mod Laws
use vexconnect.Prelude.{
  ℕ, List, [], ◌∷◌, Option, none, some, Bool, true, false, ltb, if◌then◌else◌, length,
}
use vexconnect.Prelude.Int.{ℤ, pos}
use vexconnect.Prelude.Memory.{put}
use vexconnect.Prelude.Memory
use vexconnect.Node.{max_peers}
use vexconnect.Packet.{default_ttl}

-- One result of `getopt_long`, with `optarg`.
pub data Choice : Type 0 where
  listen : List ℕ → Choice
  peer : List ℕ → Choice
  name : List ℕ → Choice
  ttl : List ℕ → Choice
  no_relay : Choice
  stats : Choice
  version : Choice
  help : Choice
  other : Choice

-- The local variables that the switch sets.
pub record Settings : Type 0 where
  pub listen_path : Option (List ℕ)
  pub peer_paths : List (List ℕ)
  pub node_name : Option (List ℕ)
  pub node_ttl : ℤ
  pub relay : Bool
  pub show_stats : Bool

abbrev pub defaults : Settings
defaults = record {
  listen_path = none;
  peer_paths = [];
  node_name = none;
  node_ttl = pos default_ttl;
  relay = true;
  show_stats = false;
}

-- `main` returns a status, or goes on with settings.
pub data Parsed : Type 0 where
  exits : ℕ → Parsed
  runs : Settings → Parsed

-- `peer_paths[peer_count++] = optarg` if there is room. The array holds 32 paths, of which the list is the
-- part that is written; a write behind its end is a fault.
abbrev pub add_peer : List (List ℕ) → List ℕ → Option (List (List ℕ))
add_peer paths path = if ltb (length paths) max_peers then put max_peers paths path else some paths

-- The loop over the options, with `atoi` of the C library.
pub parse_loop : (List ℕ → ℤ) → List Choice → Settings → Option Parsed
parse_loop atoi [] s = some (runs s)
parse_loop atoi (listen path ∷ cs) s = parse_loop atoi cs (record s { listen_path = some path })
parse_loop atoi (peer path ∷ cs) s =
    Memory.◌>>=◌ (add_peer s.peer_paths path)
      λ paths. parse_loop atoi cs (record s { peer_paths = paths })
parse_loop atoi (name text ∷ cs) s = parse_loop atoi cs (record s { node_name = some text })
parse_loop atoi (ttl text ∷ cs) s = parse_loop atoi cs (record s { node_ttl = atoi text })
parse_loop atoi (no_relay ∷ cs) s = parse_loop atoi cs (record s { relay = false })
parse_loop atoi (stats ∷ cs) s = parse_loop atoi cs (record s { show_stats = true })
parse_loop atoi (version ∷ cs) s = some (exits 0)
parse_loop atoi (help ∷ cs) s = some (exits 0)
parse_loop atoi (other ∷ cs) s = some (exits 1)

-- The test of `listen_path` after the loop.
abbrev pub check_listen : Parsed → Parsed
check_listen (exits code) = exits code
check_listen (runs s) = elim s.listen_path [ none ↦ exits 1 | some path ↦ runs s ]

-- `main` up to the signal handlers; `none` is a fault.
pub parse : (List ℕ → ℤ) → List Choice → Option Parsed
unfolding parse_loop
parse atoi choices = Memory.◌>>=◌ (parse_loop atoi choices defaults) λ p. some (check_listen p)
