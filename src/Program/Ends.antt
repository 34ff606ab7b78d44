-- ===== src/Program/Ends.antt =====
-- How the program ends: what it closes, `/quit` and the signals.
use vexconnect.Prelude.{
  ℕ, zero, suc, ◌≡◌, ◌⊎◌, inl, inr, refl, ◌∙◌, List, [], ◌∷◌, Option, none, some, Bool, true, false,
  if◌then◌else◌, Bool-cases, length,
}
use vexconnect.Prelude.Int.{ℤ, is_negative}
use vexconnect.Node.{Peer, max_peers}
use vexconnect.Nacl.{Nacl, IsNacl}
use vexconnect.Prelude.Text.{codes}
use vexconnect.Console.Commands.{IsNode}
use vexconnect.Console.Quit.{quit_read}
use vexconnect.System.{Os, IsOs, Io, History, ready, asked_line, waited, closed, ◌>>=◌, ◌>>◌}
use vexconnect.Program.{
  Loop, open_fds, sockets, close_peers, cleanup, respond, round, rounds, finish,
}
use vexconnect.Program.Watched.{listed, watched_lem}
use vexconnect.Program.Round.{round_runs}

-- The descriptors are closed in their order.
abbrev pub closings : List ℤ → History → History
closings [] h = h
closings (fd ∷ fds) h = closings fds (closed fd ∷ h)

module _ (os : Os) (nacl : Nacl) where
  close_peers_lem :
      (ps : List Peer) (h : History) → close_peers os ps h ≡ some (tt, closings (open_fds ps) h)
  unfolding close_peers
  close_peers_lem [] h = refl
  close_peers_lem (p ∷ ps) h = elim (Bool-cases p.active) [
    | inl up ↦ rw (up, ◌>>◌) (close_peers_lem ps (closed p.fd ∷ h))
    | inr down ↦ rw (down, ◌>>◌) (close_peers_lem ps h)
  ]

  -- The program ends when `running` is cleared: it closes each socket that is open, and returns 0.
  pub finish_lem :
      (l : Loop) (h : History)
      → finish os nacl l h
        ≡ (if l.node.running then some (none, h) else some (some 0, closings (sockets l.node) h))
  unfolding finish cleanup
  finish_lem l h = elim (Bool-cases l.node.running) [
    | inl on ↦ rw on refl
    | inr off ↦ rw off (elim (Bool-cases (is_negative l.node.listen_fd)) [
      | inl shut ↦ rw (shut, ◌>>◌) (rw (close_peers_lem l.node.peers h) refl)
      | inr listens ↦
          rw (listens, ◌>>◌) (rw (close_peers_lem l.node.peers (closed l.node.listen_fd ∷ h)) refl)
    ])
  ]

  -- A loop that is stopped does no round.
  pub stopped :
      (n : ℕ) (show_stats : Bool) (l : Loop) (h : History)
      → l.node.running ≡ false
      → rounds os nacl n show_stats l h ≡ some (l, h)
  unfolding rounds
  stopped zero show_stats l h off = refl
  stopped (suc n) show_stats l h off = simp (off, ◌>>=◌) (stopped n show_stats l h off)

  -- The main loop with its bound on the rounds, and the end of `main`.
  abbrev pub run_on : ℕ → Bool → Loop → Io (Option ℕ)
  run_on n show_stats l = do l' ← rounds os nacl n show_stats l; finish os nacl l'

  -- A round that stops the loop is the last one.
  last_round :
      (n : ℕ) (show_stats : Bool) (l l' : Loop) (h h' : History)
      → l.node.running ≡ true
      → round os nacl show_stats l h ≡ some (l', h')
      → l'.node.running ≡ false
      → run_on (suc n) show_stats l h ≡ some (some 0, closings (sockets l'.node) h')
  unfolding rounds
  last_round n show_stats l l' h h' on run off =
      simp (on, ◌>>=◌)
        (simp (run, ◌>>=◌)
          (simp (stopped n show_stats l' h' off, ◌>>=◌) (finish_lem l' h' ∙ rw off refl)))

  module _ (v : IsOs os) where
    quit_round :
        (show_stats signal : Bool) (l : Loop) (bits : List Bool) (line : List ℕ) (h : History)
        → length l.node.peers ≡ max_peers
        → os.poll h (listed l.node) ≡ (signal, ready (true ∷ bits))
        → (line ≡ codes "/quit\n") ⊎ (line ≡ codes "/q\n")
        → os.fgets (waited (listed l.node) ∷ h) 512 ≡ some line
        → round os nacl show_stats l h
          ≡ some (
            record l { node = record l.node { running = false } },
            asked_line 512 ∷ waited (listed l.node) ∷ h,
          )
    unfolding round respond
    quit_round show_stats true l bits line h slots polled asks typed =
        simp (watched_lem l.node slots, polled, ◌>>=◌)
          (simp
            (
              quit_read os nacl _ line (waited (listed l.node) ∷ h) asks typed
                  (v.uninit_size _ 512),
              ◌>>=◌,
            )
            refl)
    quit_round show_stats false l bits line h slots polled asks typed =
        simp (watched_lem l.node slots, polled, ◌>>=◌)
          (simp
            (
              quit_read os nacl _ line (waited (listed l.node) ∷ h) asks typed
                  (v.uninit_size _ 512),
              ◌>>=◌,
            )
            refl)

    -- While the program runs, with its 32 slots, the line `/quit` or `/q` ends it: whatever else the kernel answers, the program
    -- returns 0 and the only calls left are to close each open socket.
    pub quit_ends :
        (n : ℕ) (show_stats signal : Bool) (l : Loop) (bits : List Bool) (line : List ℕ)
        (h : History)
        → length l.node.peers ≡ max_peers
        → l.node.running ≡ true
        → os.poll h (listed l.node) ≡ (signal, ready (true ∷ bits))
        → (line ≡ codes "/quit\n") ⊎ (line ≡ codes "/q\n")
        → os.fgets (waited (listed l.node) ∷ h) 512 ≡ some line
        → run_on (suc n) show_stats l h
          ≡ some (some 0, closings (sockets l.node) (asked_line 512 ∷ waited (listed l.node) ∷ h))
    quit_ends n show_stats signal l bits line h slots on polled asks typed =
        last_round n show_stats l _ h _ on
          (quit_round show_stats signal l bits line h slots polled asks typed) refl

    -- A signal that comes while the program waits ends it: the round is finished, on every answer of the
    -- kernel, and then the program closes each socket that is open and returns 0.
    pub signal_ends :
        (n : ℕ) (show_stats : Bool) (l : Loop) (h : History)
        → IsNacl nacl
        → IsNode l.node
        → l.node.running ≡ true
        → (os.poll h (listed l.node)).0 ≡ true
        → (l' : Loop) × (h' : History) × (round os nacl show_stats l h ≡ some (l', h'))
          × (run_on (suc n) show_stats l h ≡ some (some 0, closings (sockets l'.node) h'))
    signal_ends n show_stats l h w is on signal =
        let (l', h', run, goes) = round_runs os nacl v w show_stats l h is in
        (l', h', run, last_round n show_stats l l' h h' on run (goes.1 signal))
