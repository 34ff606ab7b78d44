-- ===== src/Seen/Calls.antt =====
-- Parts of a sequence of calls of the cache, put together.
use vexconnect.Prelude.{
  ℕ, ◌+◌, ◌≤◌, ◌≡◌, refl, ◌∙◌, ap, subst, sym, List, [], ◌∷◌, ◌++◌, ◌||◌, Bool, true, false, arith,
}
use vexconnect.Seen.{Cache, IsCache}
use vexconnect.Seen.History.{Call, checks, adds, prunes, run, run-IsCache, Ascends, additions, step}

-- What a part of the traffic makes of the cache: some calls in the order of the clock.
pub record Calls (n : ℕ) (c c' : Cache) (t t' : ℕ) : Type 0 where
  pub calls : List (ℕ × Call)
  pub same : c' ≡ run c calls
  pub ascends : Ascends t calls t'
  pub few : additions calls ≤ n

pub or_true : (b : Bool) → (b || true) ≡ true
or_true true = refl
or_true false = refl

run-append : (c : Cache) (xs ys : List (ℕ × Call)) → run c (xs ++ ys) ≡ run (run c xs) ys
run-append c [] ys = refl
run-append c (x ∷ xs) ys = run-append (step c x) xs ys

Ascends-append :
    (t u last : ℕ) (xs ys : List (ℕ × Call))
    → Ascends t xs u
    → Ascends u ys last
    → Ascends t (xs ++ ys) last
Ascends-append t u last [] [] up up' = omega (arith, up, up')
Ascends-append t u last [] ((now, call) ∷ ys) up up' = (omega (arith, up, up'.0), up'.1)
Ascends-append t u last ((now, call) ∷ xs) ys up up' =
    (up.0, Ascends-append now u last xs ys up.1 up')

additions-append : (xs ys : List (ℕ × Call)) → additions (xs ++ ys) ≡ additions xs + additions ys
additions-append [] ys = omega arith
additions-append ((now, adds id) ∷ xs) ys = omega (arith, additions-append xs ys)
additions-append ((now, checks id) ∷ xs) ys = additions-append xs ys
additions-append ((now, prunes) ∷ xs) ys = additions-append xs ys

pub joined :
    (m n k : ℕ) (c c' c'' : Cache) (t t' t'' : ℕ)
    → m + n ≤ k
    → Calls m c c' t t'
    → Calls n c' c'' t' t''
    → Calls k c c'' t t''
joined m n k c c' c'' t t' t'' fits a b = record {
  calls = a.calls ++ b.calls;
  same = b.same ∙ ap (λ k. run k b.calls) a.same ∙ sym (run-append c a.calls b.calls);
  ascends = Ascends-append t t' t'' a.calls b.calls a.ascends b.ascends;
  few = omega (arith, additions-append a.calls b.calls, a.few, b.few);
}

pub Calls-IsCache : (n : ℕ) (c c' : Cache) (t t' : ℕ) → IsCache c → Calls n c c' t t' → IsCache c'
Calls-IsCache n c c' t t' cache made =
    subst IsCache (sym made.same) (run-IsCache c made.calls cache)

-- Some calls that leave the cache as it is.
pub idle : (n : ℕ) (c c' : Cache) (t t' : ℕ) → c' ≡ c → t ≤ t' → Calls n c c' t t'
idle n c c' t t' same up = record { calls = []; same = same; ascends = up; few = omega arith }
