-- ===== src/Transport/Clock.antt =====
-- A clock that does not run backwards.
use vexconnect.Prelude.{◌≤◌, List, [], ◌∷◌, ◌++◌, arith}
use vexconnect.System.{Os, History, Event, wrote, closed}
use vexconnect.Transport.{frame_header}
use vexconnect.Prelude.{length, some, ◌≡◌, subst, ℕ}
use vexconnect.System.{Io}
use vexconnect.Transport.Speaks.{Speaks, Finds, Makes, silent, quiet, framed, cut}

-- Between two readings of the clock a call never lowers it.
abbrev pub Ticks : Os → Type 0
Ticks os = (h : History) (e : Event) → os.time h ≤ os.time (e ∷ h)

module _ (os : Os) (ticks : Ticks os) where
  pub time-Speaks : {Q : List ℕ → Type 0} {h h' : History} → Speaks Q h h' → os.time h ≤ os.time h'
  time-Speaks silent = omega arith
  time-Speaks (quiet e {h = h} q s) = omega (arith, ticks h e, time-Speaks s)
  time-Speaks (framed fd f {h = h} good s) =
      let head = wrote fd (frame_header (length f)) in
      omega (arith, ticks h head, ticks (head ∷ h) (wrote fd f), time-Speaks s)
  time-Speaks (cut fd f {h = h} good s) =
      let head = wrote fd (frame_header (length f)) in
      omega (arith, ticks h head, ticks (head ∷ h) (closed fd), time-Speaks s)

  pub time-append : (es : List Event) (h : History) → os.time h ≤ os.time (es ++ h)
  time-append [] h = omega arith
  time-append (e ∷ es) h = omega (arith, time-append es h, ticks (es ++ h) e)

  -- A run of a computation.
  pub time-run :
      {A : Type 0} (m : Io A) (a : A) (h h' : History)
      → Makes (λ f. Unit {0}) m
      → m h ≡ some (a, h')
      → os.time h ≤ os.time h'
  time-run m a h h' k run = time-Speaks (subst (Finds (λ f. Unit {0}) h) run (k.at h))
