-- ===== src/Tests/SeenCases.antt =====
-- src/seen.c at concrete inputs: an empty cache, and one that is full.
use vexconnect.Prelude.{
  ℕ, zero, suc, ◌≡◌, refl, List, [], ◌∷◌, true, false, arith, replicate, length-replicate, All,
}
use vexconnect.Seen.{
  Entry, Cache, IsCache, IdleFrom, init, check, add, recorded, new_entry, expired, seen_capacity,
}
use vexconnect.Seen.Check.{check_lem}
use vexconnect.Seen.Evict.{Full}
use vexconnect.Seen.Burst.{burst_forgets_newest, Stamped}
use vexconnect.Seen.History.{
  Call, checks, adds, prunes, run, added, init-IsCache, unused-init, run-IsCache, check-run-init,
  check-run-add,
}
use vexconnect.Tests.Frames.{some_id}

abbrev other_id : List ℕ
other_id = replicate 8 9

abbrev third_id : List ℕ
third_id = replicate 8 4

abbrev calls : List (ℕ × Call)
calls = (10, adds other_id) ∷ (20, checks some_id) ∷ (30, prunes) ∷ []

-- Every slot holds the same id, added at time 100.
abbrev crowded : Cache
crowded = record {
  entries = replicate seen_capacity (new_entry other_id 100);
  count = seen_capacity;
}

All-replicate : {A : Type 0} (P : A → Type 0) (n : ℕ) (a : A) → P a → All P (replicate n a)
All-replicate P zero a p = tt
All-replicate P (suc n) a p = (p, All-replicate P n a p)

IdleFrom-replicate : (n : ℕ) (e : Entry) → IdleFrom n (replicate n e)
IdleFrom-replicate zero e = tt
IdleFrom-replicate (suc n) e = IdleFrom-replicate n e

crowded-IsCache : IsCache crowded
crowded-IsCache = record {
  size = length-replicate seen_capacity (new_entry other_id 100);
  bounded = omega arith;
  idle = IdleFrom-replicate seen_capacity (new_entry other_id 100);
}

crowded-Full : Full 101 crowded.entries
crowded-Full =
    All-replicate (λ e. (e.active ≡ true) × (expired 101 e ≡ false)) seen_capacity
      (new_entry other_id 100) (refl, refl)

crowded-Stamped : Stamped 100 crowded.entries
crowded-Stamped =
    All-replicate (λ e. (e.active ≡ true) × (e.timestamp ≡ 100)) seen_capacity
      (new_entry other_id 100) (refl, refl)

unrecorded_many : (n : ℕ) → recorded 100 some_id (replicate n (new_entry other_id 100)) ≡ false
unrecorded_many zero = refl
unrecorded_many (suc n) = unrecorded_many n

check_lem_example : (check init some_id 5).0 ≡ recorded 5 some_id init.entries
check_lem_example = check_lem init some_id 5 init-IsCache

run-IsCache_example : IsCache (run init calls)
run-IsCache_example = run-IsCache init calls init-IsCache

check-run-init_example : (check (run init calls) other_id 70).0 ≡ added 70 other_id calls
check-run-init_example =
    check-run-init calls other_id 70 (omega arith, (omega arith, (omega arith, omega arith)))
      (omega arith)

check-run-add_example : (check (run (add init some_id 5) calls) some_id 65).0 ≡ true
check-run-add_example =
    check-run-add init some_id 5 65 calls init-IsCache
      (omega arith, (omega arith, (omega arith, omega arith))) (omega arith)
      (omega (arith, unused-init 5))

burst_forgets_newest_example :
    (check (add (add crowded some_id 100) third_id 100) some_id 100).0 ≡ false
burst_forgets_newest_example =
    burst_forgets_newest crowded some_id third_id 100 crowded-IsCache crowded-Stamped refl
      (unrecorded_many seen_capacity)
