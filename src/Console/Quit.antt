-- ===== src/Console/Quit.antt =====
-- The lines that end the program.
use vexconnect.Prelude.{
  ℕ, ◌≡◌, ◌⊎◌, inl, inr, refl, List, ◌∷◌, some, true, false, le→leb, arith, length,
}
use vexconnect.Prelude.Text.{codes}
use vexconnect.Prelude.Memory.{write_at}
use vexconnect.Node.{Node}
use vexconnect.Nacl.{Nacl}
use vexconnect.System.{Os, History, asked_line, ◌>>=◌}
use vexconnect.Console.{read_command, command}

module _ (os : Os) (nacl : Nacl) where
  -- A line that asks to quit only clears `running`.
  pub quit_read :
      (node : Node) (line : List ℕ) (h : History)
      → (line ≡ codes "/quit\n") ⊎ (line ≡ codes "/q\n")
      → os.fgets h 512 ≡ some line
      → length (os.uninit h 512) ≡ 512
      → read_command os nacl node h
        ≡ some ((true, record node { running = false }), asked_line 512 ∷ h)
  unfolding read_command command write_at
  quit_read node line h (inl long) e size =
      rw (e, long, ◌>>=◌) (rw (le→leb 7 (length (os.uninit h 512)) (omega (arith, size))) refl)
  quit_read node line h (inr short) e size =
      rw (e, short, ◌>>=◌) (rw (le→leb 4 (length (os.uninit h 512)) (omega (arith, size))) refl)
