-- ===== src/Util/Random.antt =====
-- `randombytes` stays inside the array that it fills.
use vexconnect.Prelude.{
  ℕ, zero, suc, ◌+◌, ◌≤◌, ◌<◌, ◌≡◌, refl, List, [], ◌∷◌, some, arith, length, Bool-cases, inl, inr,
}
use vexconnect.Prelude.Int.{ℤ, is_negative}
use vexconnect.Prelude.Memory.{store, write_at-some}
use vexconnect.Prelude.Text.{codes}
use vexconnect.System.{Os, IsOs, History, ReadReply, Io, got, clocked, opened, has_read, closed}
use vexconnect.Util.{fallback_loop, fallback_byte, randombytes, filled}

-- A computation runs to an array of a given size.
abbrev pub RunsTo : Io (List ℕ) → History → ℕ → Type 0
RunsTo m h n = (x : List ℕ) × (h' : History) × (m h ≡ some (x, h')) × (length x ≡ n)

store-some :
    (x : List ℕ) (i b : ℕ)
    → i < length x
    → (r : List ℕ) × (store x i b ≡ some r) × (length r ≡ length x)
unfolding store
store-some x i b h = write_at-some x (b ∷ []) i (omega arith)

module _ (os : Os) where
  fallback_loop-RunsTo :
      (n i : ℕ) (x : List ℕ) (h : History)
      → i + n ≤ length x
      → RunsTo (fallback_loop os n i x) h (length x)
  unfolding fallback_loop
  fallback_loop-RunsTo zero i x h room = (x, h, refl, refl)
  fallback_loop-RunsTo (suc n) i x h room =
      let (r, e, size) = store-some x i (fallback_byte (os.time h) i) (omega arith) in
      let (y, h', run, full) = fallback_loop-RunsTo n (i + 1) r (clocked ∷ h) (omega arith) in
      (y, h', rw e run, omega arith)

  filled-some :
      (x : List ℕ) (n : ℕ) (fd : ℤ) (h : History)
      → IsOs os
      → n ≤ length x
      → (r : ReadReply) → os.read h fd n ≡ r
      → (y : List ℕ) × (filled x r ≡ some y) × (length y ≡ length x)
  filled-some x n fd h v room (got bs) e =
      write_at-some x bs 0 (omega (arith, v.read_bound h fd n bs e))
  filled-some x n fd h v room ReadReply.again e = (x, refl, refl)
  filled-some x n fd h v room ReadReply.failed e = (x, refl, refl)

  -- Whatever the kernel answers, `randombytes` returns, and has written only inside the array.
  pub randombytes-RunsTo :
      (x : List ℕ) (n : ℕ) (h : History)
      → IsOs os
      → n ≤ length x
      → RunsTo (randombytes os x n) h (length x)
  unfolding randombytes
  randombytes-RunsTo x n h v room = elim (Bool-cases (is_negative fd)) [
    | inl closed_fd ↦ rw closed_fd (fallback_loop-RunsTo n 0 x h₁ (omega arith))
    | inr open_fd ↦
        let (y, e, size) = filled-some x n fd h₁ v room (os.read h₁ fd n) refl in
        (y, closed fd ∷ has_read fd n ∷ h₁, rw (open_fd, e), size)
  ]
    where
      fd : ℤ
      fd = os.open_file h (codes "/dev/urandom")

      h₁ : History
      h₁ = opened (codes "/dev/urandom") ∷ h
