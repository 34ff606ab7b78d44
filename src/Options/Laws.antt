-- ===== src/Options/Laws.antt =====
-- The loop over the options against a description of its result.
use vexconnect.Prelude.{
  ℕ, ◌≡◌, ◌≤◌, ◌⊎◌, inl, inr, refl, ap, ◌∙◌, sym, List, [], ◌∷◌, ◌++◌, map, Option, none, some,
  Bool, true, false, ltb, if◌then◌else◌, arith, length, take, Bool-cases, append_assoc, append-nil,
  length-append, take_prefix, take_all,
}
use vexconnect.Prelude.Int.{ℤ, pos}
use vexconnect.Node.{max_peers}
use vexconnect.Options.{
  Choice, Settings, defaults, Parsed, exits, runs, add_peer, parse_loop, check_listen, parse,
  listen, peer, name, ttl, no_relay, stats, version, help, other,
}

-- The choices of a kind, and the first and the last of some.
abbrev pub collect : {A : Type 0} → (Choice → Option A) → List Choice → List A
collect f [] = []
collect f (c ∷ cs) = elim (f c) [ none ↦ collect f cs | some a ↦ a ∷ collect f cs ]

abbrev pub first : {A : Type 0} → List A → Option A
first [] = none
first (x ∷ xs) = some x

abbrev pub last : {A : Type 0} → A → List A → A
last d [] = d
last d (x ∷ xs) = last x xs

abbrev pub stops : Choice → Option ℕ
stops version = some 0
stops help = some 0
stops other = some 1
stops c = none

abbrev pub listens : Choice → Option (List ℕ)
listens (listen path) = some path
listens c = none

abbrev pub peers : Choice → Option (List ℕ)
peers (peer path) = some path
peers c = none

abbrev pub names : Choice → Option (List ℕ)
names (name text) = some text
names c = none

abbrev pub ttls : Choice → Option (List ℕ)
ttls (ttl text) = some text
ttls c = none

-- `false` for `--no-relay`, and `true` for `--stats`.
abbrev pub relays : Choice → Option Bool
relays no_relay = some false
relays c = none

abbrev pub shows : Choice → Option Bool
shows stats = some true
shows c = none

-- What the choices make of settings: the last of each kind, and the first 32 peers.
abbrev chosen : (List ℕ → ℤ) → List Choice → Settings → Settings
chosen atoi cs s = record {
  listen_path = last s.listen_path (map some (collect listens cs));
  peer_paths = take max_peers (s.peer_paths ++ collect peers cs);
  node_name = last s.node_name (map some (collect names cs));
  node_ttl = last s.node_ttl (map atoi (collect ttls cs));
  relay = last s.relay (collect relays cs);
  show_stats = last s.show_stats (collect shows cs);
}

-- The settings of a command line.
abbrev pub settings : (List ℕ → ℤ) → List Choice → Settings
settings atoi cs = record {
  listen_path = last none (map some (collect listens cs));
  peer_paths = take 32 (collect peers cs);
  node_name = last none (map some (collect names cs));
  node_ttl = last (pos 7) (map atoi (collect ttls cs));
  relay = last true (collect relays cs);
  show_stats = last false (collect shows cs);
}

-- A choice that exits wins over all settings.
abbrev left : Option ℕ → Settings → Parsed
left (some code) s = exits code
left none s = runs s

-- The status of a choice that exits; or else 1 where there is nothing to listen on; or else the settings.
abbrev pub outcome : Option ℕ → Option (List ℕ) → Settings → Parsed
outcome (some code) path s = exits code
outcome none none s = exits 1
outcome none (some path) s = runs s

left-outcome :
    (stop : Option ℕ) (path : Option (List ℕ)) (s : Settings)
    → s.listen_path ≡ path
    → check_listen (left stop s) ≡ outcome stop path s
left-outcome (some code) path s e = refl
left-outcome none none s e = rw e refl
left-outcome none (some path) s e =
    ap (λ o. elim o as (λ u. Parsed) [ none ↦ exits 1 | some listens ↦ runs s ]) e

-- The paths with a new one, where there is room.
abbrev added : List (List ℕ) → List ℕ → List (List ℕ)
added ps p = if ltb (length ps) max_peers then ps ++ (p ∷ []) else ps

-- No path is written behind the end of the array.
add_peer_lem : (ps : List (List ℕ)) (p : List ℕ) → add_peer ps p ≡ some (added ps p)
add_peer_lem ps p = elim (Bool-cases (ltb (length ps) max_peers)) [
  | inl room ↦ rw room refl
  | inr full ↦ rw full refl
]

added-bound :
    (ps : List (List ℕ)) (p : List ℕ) → length ps ≤ max_peers → length (added ps p) ≤ max_peers
added-bound ps p small = ground (arith, length-append ps (p ∷ []))

take-added :
    (ps rest : List (List ℕ)) (p : List ℕ)
    → length ps ≤ max_peers
    → take max_peers (added ps p ++ rest) ≡ take max_peers (ps ++ (p ∷ rest))
take-added ps rest p small = elim (Bool-cases (ltb (length ps) max_peers)) [
  | inl room ↦ rw room (ap (take max_peers) (append_assoc ps (p ∷ []) rest))
  | inr full ↦ rw full (
      take_prefix max_peers ps rest (ground arith)
      ∙ sym (take_prefix max_peers ps (p ∷ rest) (ground arith)))
]

parse_loop_lem :
    (atoi : List ℕ → ℤ) (cs : List Choice) (s : Settings)
    → length s.peer_paths ≤ max_peers
    → parse_loop atoi cs s ≡ some (left (first (collect stops cs)) (chosen atoi cs s))
unfolding parse_loop
parse_loop_lem atoi [] s small =
    ap (λ ps. some (runs (record s { peer_paths = ps })))
      (sym (take_all max_peers s.peer_paths small)
        ∙ ap (take max_peers) (sym (append-nil s.peer_paths)))
parse_loop_lem atoi (listen path ∷ cs) s small = parse_loop_lem atoi cs _ small
parse_loop_lem atoi (peer path ∷ cs) s small = rw (add_peer_lem s.peer_paths path) (
    parse_loop_lem atoi cs (record s { peer_paths = added s.peer_paths path })
      (added-bound s.peer_paths path small)
    ∙ ap
        (λ ps.
          some (left (first (collect stops cs)) (record (chosen atoi cs s) { peer_paths = ps })))
        (take-added s.peer_paths (collect peers cs) path small))
parse_loop_lem atoi (name text ∷ cs) s small = parse_loop_lem atoi cs _ small
parse_loop_lem atoi (ttl text ∷ cs) s small = parse_loop_lem atoi cs _ small
parse_loop_lem atoi (no_relay ∷ cs) s small = parse_loop_lem atoi cs _ small
parse_loop_lem atoi (stats ∷ cs) s small = parse_loop_lem atoi cs _ small
parse_loop_lem atoi (version ∷ cs) s small = refl
parse_loop_lem atoi (help ∷ cs) s small = refl
parse_loop_lem atoi (other ∷ cs) s small = refl

-- `main` reads the options to this, and writes no path behind the end of its array of 32: the first of --version,
-- --help and an unknown option ends the program, with status 0 for the first two and 1 for the last; or else,
-- with no --listen, the status is 1; or else the program runs with the last path of --listen, the last name,
-- the last TTL or 7, the first 32 peers in their order, without relaying where --no-relay is among the
-- options, and with statistics where --stats is.
pub parse_lem :
    (atoi : List ℕ → ℤ) (choices : List Choice)
    → parse atoi choices
      ≡ some (
          outcome
            (first (collect stops choices))
            (last none (map some (collect listens choices)))
            (settings atoi choices))
unfolding parse
parse_lem atoi choices = rw (parse_loop_lem atoi choices defaults (omega arith)) (
    ap some (
      left-outcome (first (collect stops choices)) (last none (map some (collect listens choices)))
        (settings atoi choices) refl))

-- The two ways that the options are read to an end.
abbrev pub IsRead : Parsed → Type 0
IsRead (exits code) = (code ≡ 0) ⊎ (code ≡ 1)
IsRead (runs s) = (path : List ℕ) × (s.listen_path ≡ some path)

stops_bound :
    (cs : List Choice) (code : ℕ) → first (collect stops cs) ≡ some code → (code ≡ 0) ⊎ (code ≡ 1)
stops_bound [] code e = absurd (cc e)
stops_bound (listen path ∷ cs) code e = stops_bound cs code e
stops_bound (peer path ∷ cs) code e = stops_bound cs code e
stops_bound (name text ∷ cs) code e = stops_bound cs code e
stops_bound (ttl text ∷ cs) code e = stops_bound cs code e
stops_bound (no_relay ∷ cs) code e = stops_bound cs code e
stops_bound (stats ∷ cs) code e = stops_bound cs code e
stops_bound (version ∷ cs) code e = inl (cc e)
stops_bound (help ∷ cs) code e = inl (cc e)
stops_bound (other ∷ cs) code e = inr (cc e)

outcome-IsRead :
    (stop : Option ℕ) (path : Option (List ℕ)) (s : Settings)
    → s.listen_path ≡ path
    → ((code : ℕ) → stop ≡ some code → (code ≡ 0) ⊎ (code ≡ 1))
    → IsRead (outcome stop path s)
outcome-IsRead (some code) path s e bound = bound code refl
outcome-IsRead none none s e bound = inr refl
outcome-IsRead none (some path) s e bound = (path, e)

pub parse-IsRead :
    (atoi : List ℕ → ℤ) (choices : List Choice)
    → (p : Parsed) × (parse atoi choices ≡ some p) × IsRead p
parse-IsRead atoi choices = (
  _,
  parse_lem atoi choices,
  outcome-IsRead (first (collect stops choices)) (last none (map some (collect listens choices)))
      (settings atoi choices) refl (stops_bound choices),
)
