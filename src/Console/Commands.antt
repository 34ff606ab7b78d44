-- ===== src/Console/Commands.antt =====
-- A line of the console is handled on every answer of the kernel.
use vexconnect.Prelude.{
  if◌then◌else◌, ℕ, ◌≡◌, ◌⊎◌, refl, ◌∙◌, List, [], ◌∷◌, ◌++◌, Option, none, some, Bool, true, false,
  ◌||◌, ◌==◌, Bool-cases, inl, inr, arith, length, length-append, bytes_eq,
}
use native.Mathlib.Decide.{dec_le}
use vexconnect.Prelude.Memory.{write_at-some}
use vexconnect.Prelude.Text.{codes}
use vexconnect.Node.{Peer, Node, max_peers, count_up}
use vexconnect.Nacl.{Nacl, IsNacl}
use vexconnect.Seen
use vexconnect.Seen.{IsCache}
use vexconnect.Seen.Evict.{add-IsCache}
use vexconnect.Transport.Send.{length-AllKept}
use vexconnect.Mesh
use vexconnect.Mesh.{until_nul, max_message}
use vexconnect.Mesh.Message.{send-AllKept, send_refused}
use vexconnect.System.{Os, IsOs, History, Io, asked_line, reported, no_peers, ◌>>=◌, ◌>>◌}
use vexconnect.Console.{
  print_loop, print_peers, print_stats, open_count, strip, command, read_command,
}

-- Well-formed: the array of slots has its size, and so has the cache.
pub record IsNode (node : Node) : Type 0 where
  pub slots : length node.peers ≡ max_peers
  pub cache : IsCache node.seen

-- A part of a round: it keeps the node well-formed, and may stop the loop.
abbrev pub Goes : Node → Node → Type 0
Goes node node' = IsNode node' × ((node'.running ≡ node.running) ⊎ (node'.running ≡ false))

pub Goes-trans : (a b c : Node) → Goes a b → Goes b c → Goes a c
Goes-trans a b c (is, p) (is', inr stops) = (is', inr stops)
Goes-trans a b c (is, inl p) (is', inl q) = (is', inl (q ∙ p))
Goes-trans a b c (is, inr p) (is', inl q) = (is', inr (q ∙ p))

-- A computation returns, and what it returns has a property.
abbrev pub Returns : {A : Type 0} → (A → Type 0) → Option (A × History) → Type 0
Returns {A} P r = (a : A) × (h : History) × (r ≡ some (a, h)) × P a

-- The rules for a sequence and for a test.
pub Returns-seq :
    {A B : Type 0} {r : Option (A × History)} (P : A → Type 0) (Q : B → Type 0) (f : A → Io B)
    → Returns P r
    → ((a : A) (h : History) → P a → Returns Q (f a h))
    → Returns Q (elim r [ none ↦ none | some (a, h) ↦ f a h ])
Returns-seq P Q f (a, h₁, run, p) next =
    let (b, h₂, rest, q) = next a h₁ p in (b, h₂, rw run rest, q)

pub Returns-if :
    {A : Type 0} (P : A → Type 0) (b : Bool) (m m' : Io A) (h : History)
    → (b ≡ true → Returns P (m h))
    → (b ≡ false → Returns P (m' h))
    → Returns P ((if b then m else m') h)
Returns-if P true m m' h f g = f refl
Returns-if P false m m' h f g = g refl

module _ (os : Os) where
  print_loop_runs : (ps : List Peer) (h : History) → Returns (λ u. Unit {0}) (print_loop os ps h)
  unfolding print_loop
  print_loop_runs [] h = (tt, h, refl, tt)
  print_loop_runs (p ∷ ps) h = elim (Bool-cases p.active) [
    | inl up ↦ rw (up, print_loop) (print_loop_runs ps _)
    | inr down ↦ rw (down, print_loop) (print_loop_runs ps h)
  ]

  print_peers_runs : (node : Node) (h : History) → Returns (λ u. Unit {0}) (print_peers os node h)
  unfolding print_peers
  print_peers_runs node h =
      let (u, h', run, t) = print_loop_runs node.peers h in
      elim (Bool-cases (open_count node.peers == 0)) [
        | inl lonely ↦ (tt, reported no_peers ∷ h', rw (run, ◌>>◌) (rw lonely), tt)
        | inr some_peer ↦ (tt, h', rw (run, ◌>>◌) (rw some_peer), tt)
      ]

  pub print_stats_runs :
      (node : Node) (h : History) → Returns (λ u. Unit {0}) (print_stats os node h)
  unfolding print_stats
  print_stats_runs node h = (tt, _, refl, tt)

module _ (os : Os) (nacl : Nacl) (v : IsOs os) (w : IsNacl nacl) where
  send_runs :
      (node : Node) (text : List ℕ) (h : History)
      → IsNode node
      → Returns (λ r. Goes node r.1) (Mesh.send os nacl node text h)
  send_runs node text h is = elim (dec_le (length text) max_message) [
    | yes small ↦
        let (id, h₁, count, peers, events, run, size, kept, tally, still) =
          send-AllKept os nacl v w node text h small in
        let is' : IsNode (record node {
          peers = peers;
          seen = Seen.add node.seen id (os.time h₁);
          packets_sent = count_up node.packets_sent;
        }) =
          record {
            slots = length-AllKept node.peers peers kept ∙ is.slots;
            cache = add-IsCache node.seen id (os.time h₁) is.cache;
          } in
        (_, _, run, (is', inl refl))
    | no long ↦ (_, h, send_refused os nacl node text h (omega arith), (is, inl refl))
  ]

  command_runs :
      (node : Node) (text : List ℕ) (h : History)
      → IsNode node
      → Returns (λ r. Goes node r.1) (command os nacl node text h)
  unfolding command
  command_runs node text h is = elim (Bool-cases (length text == 0)) [
    | inl empty ↦ ((true, node), h, rw empty, (is, inl refl))
    | inr some_text ↦
        elim (Bool-cases (bytes_eq text (codes "/quit") || bytes_eq text (codes "/q"))) [
          | inl quit ↦ (
            (true, record node { running = false }),
            h,
            rw (some_text, quit),
            (record { slots = is.slots; cache = is.cache }, inr refl),
          )
          | inr on ↦ elim (Bool-cases (bytes_eq text (codes "/peers"))) [
            | inl peers ↦
                let (u, h', run, t) = print_peers_runs os node h in
                ((true, node), h', rw (some_text, on, peers) (rw (run, ◌>>◌)), (is, inl refl))
            | inr more ↦ elim (Bool-cases (bytes_eq text (codes "/stats"))) [
              | inl stats ↦
                  let (u, h', run, t) = print_stats_runs os node h in
                  (
                    (true, node),
                    h',
                    rw (some_text, on, more, stats) (rw (run, ◌>>◌)),
                    (is, inl refl),
                  )
              | inr message ↦
                  let (r, h', run, goes) = send_runs node text h is in
                  ((false, r.1), h', rw (some_text, on, more, message) (rw (run, ◌>>=◌)), goes)
            ]
          ]
        ]
  ]

  -- A line of the console has no access outside its array of 512 bytes, and keeps a node well-formed.
  pub read_command_runs :
      (node : Node) (h : History)
      → IsNode node
      → Returns (λ r. Goes node r.1) (read_command os nacl node h)
  unfolding read_command
  read_command_runs node h is = go (os.fgets h 512) refl
    where
      go :
          (o : Option (List ℕ))
          → os.fgets h 512 ≡ o
          → Returns (λ r. Goes node r.1) (read_command os nacl node h)
      go none e = ((false, node), asked_line 512 ∷ h, rw (e, ◌>>=◌), (is, inl refl))
      go (some line) e =
          let (input, filled, size) = write_at-some (os.uninit h 512) (line ++ (0 ∷ [])) 0 (
            omega (
              arith,
              v.uninit_size h 512,
              v.fgets_bound h 512 line e,
              length-append line (0 ∷ []),
            )) in
          let (r, h', run, goes) =
            command_runs node (strip (until_nul input)) (asked_line 512 ∷ h) is in
          (r, h', rw (e, ◌>>=◌) (rw (filled, run)), goes)
