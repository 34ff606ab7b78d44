-- ===== src/Program/Halts.antt =====
-- The end of the program by a signal: how many rounds are enough.
use vexconnect.Prelude.{
  ℕ, zero, suc, ◌+◌, ◌≤◌, ◌<◌, ◌≡◌, ◌⊎◌, inl, inr, refl, ◌∙◌, List, [], ◌∷◌, Option, some, Bool,
  true, false, Bool-cases, arith, subst, if◌then◌else◌,
}
use vexconnect.Prelude.Int.{ℤ}
use native.Mathlib.Decide.{dec_le}
use vexconnect.Nacl.{Nacl, IsNacl}
use vexconnect.Options.{Choice}
use vexconnect.Console.Commands.{IsNode, Returns, Returns-seq}
use vexconnect.System.{Os, IsOs, History, Event, waited, ◌>>=◌}
use vexconnect.Transport.Speaks.{Speaks, Finds, silent, quiet, framed, cut}
use vexconnect.Program.{Loop, round, rounds, main, sockets}
use vexconnect.Program.Watched.{listed}
use vexconnect.Program.Round.{round_runs}
use vexconnect.Program.Wire.{round_waits}
use vexconnect.Program.Ends.{stopped, finish_lem, closings}
use vexconnect.Program.Safe.{main_by}

abbrev is_wait : Event → Bool
is_wait (waited fds) = true
is_wait e = false

-- How often the program has waited in `poll`.
abbrev pub waits : History → ℕ
waits [] = 0
waits (e ∷ h) = let rest = waits h in if is_wait e then suc rest else rest

-- A signal has come by the end of the k-th `poll`, and by the end of each later one.
abbrev pub Signals : Os → ℕ → Type 0
Signals os k = (h : History) (fds : List ℤ) → k ≤ suc (waits h) → (os.poll h fds).0 ≡ true

waits_step : (e : Event) (h : History) → waits h ≤ waits (e ∷ h)
waits_step e h = elim (Bool-cases (is_wait e)) [
  | inl wait ↦ rw wait (omega arith)
  | inr other ↦ rw other (omega arith)
]

waits_grow : {Q : List ℕ → Type 0} {h₀ h : History} → Speaks Q h₀ h → waits h₀ ≤ waits h
waits_grow silent = omega arith
waits_grow (quiet e {h = h} q s) = omega (arith, waits_step e h, waits_grow s)
waits_grow (framed fd f good s) = waits_grow s
waits_grow (cut fd f good s) = waits_grow s

-- The exit statuses.
abbrev pub IsExit : Option ℕ → Type 0
IsExit code = (code ≡ some 0) ⊎ (code ≡ some 1)

module _ (os : Os) (nacl : Nacl) (v : IsOs os) (w : IsNacl nacl) (k : ℕ)
    (comes : Signals os k) where
  -- A round that does not stop the loop has waited once more.
  round_counts :
      (show_stats : Bool) (l l' : Loop) (h h' : History)
      → IsNode l.node
      → round os nacl show_stats l h ≡ some (l', h')
      → suc (waits h) ≤ waits h'
  round_counts show_stats l l' h h' is run = waits_grow (
      subst (Finds (λ f. Unit {0}) (waited (listed l.node) ∷ h)) run
        (round_waits (λ f. Unit {0}) os nacl v (λ f g. tt) show_stats l h is.slots))

  -- One round on the way to the end.
  step :
      (n : ℕ) (show_stats : Bool) (l : Loop) (h : History)
      → IsNode l.node
      → ((l' : Loop) (h' : History)
          → IsNode l'.node
          → suc (waits h) < k
          → suc (waits h) ≤ waits h'
          → Returns (λ e. e.node.running ≡ false) (rounds os nacl n show_stats l' h'))
      → Returns (λ e. e.node.running ≡ false) (rounds os nacl (suc n) show_stats l h)
  unfolding rounds
  step n show_stats l h is next = elim (Bool-cases l.node.running) [
    | inr off ↦ (l, h, stopped os nacl (suc n) show_stats l h off, off)
    | inl on ↦
        let (l', h', run, keeps) = round_runs os nacl v w show_stats l h is in
        let later =
          elim (dec_le k (suc (waits h)))
            as (λ d. Returns (λ e. e.node.running ≡ false) (rounds os nacl n show_stats l' h')) [
              | yes due ↦
                  let off = keeps.1 (comes h (listed l.node) due) in
                  (l', h', stopped os nacl n show_stats l' h' off, off)
              | no early ↦
                  next l' h' keeps.0.0 (omega arith) (round_counts show_stats l l' h h' is run)
            ] in
        simp (on, ◌>>=◌) (simp (run, ◌>>=◌) later)
  ]

  -- The loop has ended once the k-th wait is over.
  rounds_halt :
      (n : ℕ) (show_stats : Bool) (l : Loop) (h : History)
      → IsNode l.node
      → k ≤ suc n + waits h
      → Returns (λ e. e.node.running ≡ false) (rounds os nacl (suc n) show_stats l h)
  rounds_halt zero show_stats l h is due =
      step zero show_stats l h is (λ l' h' is' early counts. absurd (omega (arith, due, early)))
  rounds_halt (suc n) show_stats l h is due =
      step (suc n) show_stats l h is
        (λ l' h' is' early counts. rounds_halt n show_stats l' h' is' (omega (arith, due, counts)))

  -- A signal ends the program: if one has come by the end of the k-th `poll` at the latest, k rounds of the
  -- main loop are enough, at least one. Whatever the options, the other answers of the kernel and the bytes
  -- that come in, `main` then returns, with status 0 or 1.
  pub main_halts :
      (n : ℕ) (choices : List Choice) (h : History)
      → k ≤ suc n
      → Returns IsExit (main os nacl (suc n) choices h)
  main_halts n choices h enough =
      main_by os nacl v w IsExit (suc n) (inl refl) (inr refl)
        (λ show_stats l h₀ is.
          Returns-seq (λ l'. l'.node.running ≡ false) IsExit _
            (rounds_halt n show_stats l h₀ is (omega (arith, enough)))
            (λ l' h' off. (
              some 0,
              closings (sockets l'.node) h',
              finish_lem os nacl l' h' ∙ rw off refl,
              inl refl,
            )))
        choices h
