-- ===== src/Util/Drawn.antt =====
-- What `randombytes` draws consists of bytes.
use vexconnect.Prelude.{
  refl, false, ◌<◌, ℕ, zero, suc, ◌+◌, ◌≡◌, List, [], ◌∷◌, Option, none, some, Bytes, arith,
  Bool-cases, inl, inr, subst,
}
use vexconnect.Prelude.Int.{ℤ, is_negative}
use vexconnect.Prelude.Memory.{store, write_at-Bytes}
use vexconnect.Prelude.Text.{codes}
use vexconnect.System.{Os, IsOs, History, ReadReply, got, clocked, opened, ◌>>=◌}
use vexconnect.Util.{fallback_loop, fallback_byte, randombytes, filled}

-- An array that is returned consists of bytes.
abbrev Draws : Option (List ℕ × History) → Type 0
Draws none = Unit {0}
Draws (some (x, h)) = Bytes x

store-Bytes : (x y : List ℕ) (i b : ℕ) → b < 256 → store x i b ≡ some y → Bytes x → Bytes y
unfolding store
store-Bytes x y i b small e bytes = write_at-Bytes x (b ∷ []) y i e bytes (small, tt)

module _ (os : Os) where
  fallback_loop-Draws :
      (n i : ℕ) (x : List ℕ) (h : History) → Bytes x → Draws (fallback_loop os n i x h)
  unfolding fallback_loop
  fallback_loop-Draws zero i x h bytes = bytes
  fallback_loop-Draws (suc n) i x h bytes =
      go (store x i (fallback_byte (os.time h) i)) refl
        (λ y b. fallback_loop-Draws n (i + 1) y (clocked ∷ h) b)
    where
      go :
          (o : Option (List ℕ))
          → store x i (fallback_byte (os.time h) i) ≡ o
          → ((y : List ℕ) → Bytes y → Draws (fallback_loop os n (i + 1) y (clocked ∷ h)))
          → Draws (fallback_loop os (suc n) i x h)
      go none e next = rw (e, fallback_loop) tt
      go (some y) e next =
          rw (e, fallback_loop)
            (next y (store-Bytes x y i (fallback_byte (os.time h) i) (omega arith) e bytes))

  filled-Bytes :
      (x y : List ℕ) (n : ℕ) (fd : ℤ) (h : History) (r : ReadReply)
      → IsOs os
      → os.read h fd n ≡ r
      → filled x r ≡ some y
      → Bytes x
      → Bytes y
  filled-Bytes x y n fd h (got bs) v e f bytes =
      write_at-Bytes x bs y 0 f bytes (v.read_bytes h fd n bs e)
  filled-Bytes x y n fd h ReadReply.again v e f bytes = subst Bytes (cc f) bytes
  filled-Bytes x y n fd h ReadReply.failed v e f bytes = subst Bytes (cc f) bytes

  randombytes-Draws :
      (x : List ℕ) (n : ℕ) (h : History) → IsOs os → Bytes x → Draws (randombytes os x n h)
  unfolding randombytes
  randombytes-Draws x n h v bytes = elim (Bool-cases (is_negative fd)) [
    | inl shut ↦ rw (shut, ◌>>=◌) (fallback_loop-Draws n 0 x h₁ bytes)
    | inr on ↦ go on (filled x (os.read h₁ fd n)) refl
  ]
    where
      fd : ℤ
      fd = os.open_file h (codes "/dev/urandom")

      h₁ : History
      h₁ = opened (codes "/dev/urandom") ∷ h

      go :
          is_negative fd ≡ false
          → (o : Option (List ℕ)) → filled x (os.read h₁ fd n) ≡ o
          → Draws (randombytes os x n h)
      go on none e = rw (on, ◌>>=◌) (rw e tt)
      go on (some y) e =
          rw (on, ◌>>=◌) (rw e (filled-Bytes x y n fd h₁ (os.read h₁ fd n) v refl e bytes))

  pub randombytes-Bytes :
      (x y : List ℕ) (n : ℕ) (h h' : History)
      → IsOs os
      → Bytes x
      → randombytes os x n h ≡ some (y, h')
      → Bytes y
  randombytes-Bytes x y n h h' v bytes run = subst Draws run (randombytes-Draws x n h v bytes)
