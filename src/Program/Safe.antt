-- ===== src/Program/Safe.antt =====
-- `main` as a whole: no answer of the kernel leads to a fault.
use vexconnect.Prelude.{
  ℕ, ◌≡◌, ◌⊎◌, inl, inr, refl, ap, sym, subst, ◌∙◌, List, Option, none, some, Bool, Bool-cases,
}
use vexconnect.Nacl.{Nacl, IsNacl}
use vexconnect.Options.{Choice, Parsed, exits, runs}
use vexconnect.Options.Laws.{IsRead, parse-IsRead}
use vexconnect.Console.Commands.{IsNode, Returns, Returns-seq}
use vexconnect.System.{Os, IsOs, Io, History, ◌>>=◌, return}
use vexconnect.Program.{Loop, rounds, start, finish, main, sockets}
use vexconnect.Program.Round.{rounds_runs}
use vexconnect.Program.Start.{IsStart, start_runs}
use vexconnect.Program.Ends.{finish_lem, closings, run_on}

-- The exit status of `main`, or none where the bound on the rounds is met.
abbrev pub IsStatus : Option ℕ → Type 0
IsStatus code = (code ≡ none) ⊎ (code ≡ some 0) ⊎ (code ≡ some 1)

module _ (os : Os) (nacl : Nacl) (v : IsOs os) (w : IsNacl nacl) where
  finish_runs : (l : Loop) (h : History) → Returns IsStatus (finish os nacl l h)
  finish_runs l h = elim (Bool-cases l.node.running) [
    | inl on ↦ (none, h, finish_lem os nacl l h ∙ rw on refl, inl refl)
    | inr off ↦
        (some 0, closings (sockets l.node) h, finish_lem os nacl l h ∙ rw off refl, inr (inl refl))
  ]

  module _ (P : Option ℕ → Type 0) (n : ℕ) (fine : P (some 0)) (failed : P (some 1))
      (runs_on : (show_stats : Bool) (l : Loop) (h : History)
        → IsNode l.node
        → Returns P (run_on os nacl n show_stats l h)) where
    looped :
        (show_stats : Bool) (started : Option Loop) (h : History)
        → IsStart started
        → Returns P (
            (elim started as (λ x. Io (Option ℕ)) [
              | none ↦ return (some 1)
              | some l ↦ do l' ← rounds os nacl n show_stats l; finish os nacl l'
            ])
              h)
    looped show_stats none h is = (some 1, h, refl, failed)
    looped show_stats (some l) h is = runs_on show_stats l h is.0

    settled :
        (p : Parsed) (h : History)
        → IsRead p
        → Returns P (
            (elim p as (λ x. Io (Option ℕ)) [
              | exits code ↦ return (some code)
              | runs s ↦ elim s.listen_path as (λ x. Io (Option ℕ)) [
                | none ↦ return (some 1)
                | some path ↦ do
                  started ← start os nacl s path
                  elim started as (λ x. Io (Option ℕ)) [
                    | none ↦ return (some 1)
                    | some l ↦ do l' ← rounds os nacl n s.show_stats l; finish os nacl l'
                  ]
              ]
            ])
              h)
    settled (exits code) h is = (
      some code,
      h,
      refl,
      elim is [
        | inl done ↦ subst P (ap some (sym done)) fine
        | inr wrong ↦ subst P (ap some (sym wrong)) failed
      ],
    )
    settled (runs s) h (path, e) =
        rw e (Returns-seq IsStart P _ (start_runs os nacl v w s path h) (looped s.show_stats))

    -- What holds of an exit status and of every run of the loop holds of `main`.
    pub main_by : (choices : List Choice) (h : History) → Returns P (main os nacl n choices h)
    unfolding main
    main_by choices h = let (p, read, is) = parse-IsRead os.atoi choices in rw read (settled p h is)

  pub main_safe :
      (n : ℕ) (choices : List Choice) (h : History) → Returns IsStatus (main os nacl n choices h)
  main_safe n choices h =
      main_by IsStatus n (inr (inl refl)) (inr (inr refl))
        (λ show_stats l h₀ is.
          Returns-seq (λ l'. IsNode l'.node) IsStatus _
            (let (l', h', run, keeps) = rounds_runs os nacl v w n show_stats l h₀ is in
              (l', h', run, keeps.0))
            (λ l' h' is'. finish_runs l' h'))
        choices h
