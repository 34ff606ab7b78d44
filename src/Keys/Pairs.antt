-- ===== src/Keys/Pairs.antt =====
-- Pairs of keys in a file, read and written on every answer of the kernel.
use vexconnect.Prelude.{
  ℕ, ◌≡◌, inl, inr, ◌∙◌, List, ◌∷◌, some, Bool, true, false, ◌==◌, Bool-cases, Option-cases, Ret,
  ok, err, arith, length, Bytes,
}
use vexconnect.Prelude.Text.{codes}
use vexconnect.Prelude.Memory.{write_at-some, write_at-Bytes}
use vexconnect.Node.{Node}
use vexconnect.System.{
  Os, IsOs, History, file_read, file_wrote, file_opened, file_closed, made_private, made_directory,
  ◌>>=◌,
}
use vexconnect.Keys.{read_pair, save_pair, save_keys, key_file}

module _ (os : Os) (v : IsOs os) where
  -- Both arrays keep their sizes, and hold bytes if they did.
  pub read_pair_runs :
      (f n m : ℕ) (a b : List ℕ) (h : History)
      → length a ≡ n
      → Bytes a
      → length b ≡ m
      → (whole : Bool) × (a' b' : List ℕ) × (h' : History) × (read_pair os f n m a b h
          ≡ some ((whole, a', b'), h'))
        × (length a' ≡ n)
        × Bytes a'
        × (length b' ≡ m)
  read_pair_runs f n m a b h a-size a-bytes b-size =
      let (a', first, a'-size) =
        write_at-some a (os.fread h f n) 0 (omega (arith, v.fread_bound h f n)) in
      let a'-bytes = write_at-Bytes a (os.fread h f n) a' 0 first a-bytes (v.fread_bytes h f n) in
      let h₁ = file_read f n ∷ h in
      elim (Bool-cases (length (os.fread h f n) == n)) [
        | inr cut ↦ (false, a', b, h₁, rw (first, cut), a'-size ∙ a-size, a'-bytes, b-size)
        | inl whole ↦
            let (b', second, b'-size) =
              write_at-some b (os.fread h₁ f m) 0 (omega (arith, v.fread_bound h₁ f m)) in
            (
              length (os.fread h₁ f m) == m,
              a',
              b',
              file_read f m ∷ h₁,
              rw (first, whole, second),
              a'-size ∙ a-size,
              a'-bytes,
              b'-size ∙ b-size,
            )
      ]

module _ (os : Os) where
  pub save_pair_runs :
      (file first second : List ℕ) (h : History)
      → (saved : Bool) × (h' : History) × (save_pair os file first second h ≡ some (saved, h'))
  save_pair_runs file first second h = elim (Option-cases (os.fopen h file true)) [
    | inl missing ↦ (false, file_opened file true ∷ h, rw (missing))
    | inr (s, open_file) ↦ (
      true,
      made_private file
          ∷ file_closed s
          ∷ file_wrote s second
          ∷ file_wrote s first
          ∷ file_opened file true
          ∷ h,
      rw (open_file),
    )
  ]

  save_cases :
      (node : Node) (path : List ℕ) (h : History) (one two : Bool) (h₁ h₂ : History)
      → save_pair os
          (key_file path (codes "/identity.key"))
          node.sign_pk
          node.sign_sk
          (made_directory path ∷ h)
        ≡ some (one, h₁)
      → save_pair os (key_file path (codes "/ephemeral.key")) node.box_pk node.box_sk h₁
        ≡ some (two, h₂)
      → (r : Ret ℕ) × (h' : History) × (save_keys os node path h ≡ some (r, h'))
  save_cases node path h false two h₁ h₂ first second = (err, h₁, rw (first, ◌>>=◌))
  save_cases node path h true false h₁ h₂ first second =
      (err, h₂, rw (first, ◌>>=◌) (rw (second, ◌>>=◌)))
  save_cases node path h true true h₁ h₂ first second =
      (ok 0, h₂, rw (first, ◌>>=◌) (rw (second, ◌>>=◌)))

  pub save_keys_runs :
      (node : Node) (path : List ℕ) (h : History)
      → (r : Ret ℕ) × (h' : History) × (save_keys os node path h ≡ some (r, h'))
  save_keys_runs node path h =
      let (one, h₁, first) =
        save_pair_runs (key_file path (codes "/identity.key")) node.sign_pk node.sign_sk
          (made_directory path ∷ h) in
      let (two, h₂, second) =
        save_pair_runs (key_file path (codes "/ephemeral.key")) node.box_pk node.box_sk h₁ in
      save_cases node path h one two h₁ h₂ first second
