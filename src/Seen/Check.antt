-- ===== src/Seen/Check.antt =====
-- `vex_seen_check` and `vex_seen_prune` against the reference.
use vexconnect.Prelude.{ℕ, zero, suc, ◌≤◌, ◌≡◌, refl, List, [], ◌∷◌, false, arith, All, length}
use vexconnect.Seen.{
  Entry, Cache, IsCache, IdleFrom, recorded, check, check_loop, prune, prune_loop,
}

recorded_idle :
    (now : ℕ) (packet_id : List ℕ) (es : List Entry)
    → All (λ e. e.active ≡ false) es
    → recorded now packet_id es ≡ false
recorded_idle now packet_id [] h = refl
recorded_idle now packet_id (e ∷ es) h = ground (arith, recorded_idle now packet_id es h.1)

check_loop_lem :
    (now : ℕ) (packet_id : List ℕ) (n : ℕ) (es : List Entry)
    → IdleFrom n es
    → (check_loop now packet_id n es).0 ≡ recorded now packet_id es
unfolding check_loop
check_loop_lem now packet_id zero es h = ground (arith, recorded_idle now packet_id es h)
check_loop_lem now packet_id (suc n) [] h = refl
check_loop_lem now packet_id (suc n) (e ∷ es) h =
    ground (arith, check_loop_lem now packet_id n es h)

-- On a well-formed cache the test answers whether the id is recorded at the time of the call.
pub check_lem :
    (c : Cache) (packet_id : List ℕ) (now : ℕ)
    → IsCache c
    → (check c packet_id now).0 ≡ recorded now packet_id c.entries
unfolding check
check_lem c packet_id now v = check_loop_lem now packet_id c.count c.entries v.idle

recorded-check_loop :
    (now later : ℕ) (packet_id x : List ℕ) (n : ℕ) (es : List Entry)
    → now ≤ later
    → recorded later x (check_loop now packet_id n es).1 ≡ recorded later x es
unfolding check_loop
recorded-check_loop now later packet_id x zero es h = refl
recorded-check_loop now later packet_id x (suc n) [] h = refl
recorded-check_loop now later packet_id x (suc n) (e ∷ es) h =
    ground (arith, recorded-check_loop now later packet_id x n es h)

recorded-prune_loop :
    (now later : ℕ) (x : List ℕ) (n : ℕ) (es : List Entry)
    → now ≤ later
    → recorded later x (prune_loop now n es) ≡ recorded later x es
unfolding prune_loop
recorded-prune_loop now later x zero es h = refl
recorded-prune_loop now later x (suc n) [] h = refl
recorded-prune_loop now later x (suc n) (e ∷ es) h =
    ground (arith, recorded-prune_loop now later x n es h)

-- Testing for one id and pruning change no answer, now or later.
pub recorded_maintained :
    (c : Cache) (packet_id x : List ℕ) (now later : ℕ)
    → now ≤ later
    → (recorded later x (check c packet_id now).1.entries ≡ recorded later x c.entries)
      × (recorded later x (prune c now).entries ≡ recorded later x c.entries)
unfolding check prune
recorded_maintained c packet_id x now later h = (
  recorded-check_loop now later packet_id x c.count c.entries h,
  recorded-prune_loop now later x c.count c.entries h,
)

length-check_loop :
    (now : ℕ) (packet_id : List ℕ) (n : ℕ) (es : List Entry)
    → length (check_loop now packet_id n es).1 ≡ length es
unfolding check_loop
length-check_loop now packet_id zero es = refl
length-check_loop now packet_id (suc n) [] = refl
length-check_loop now packet_id (suc n) (e ∷ es) =
    ground (arith, length-check_loop now packet_id n es)

check_loop-IdleFrom :
    (now : ℕ) (packet_id : List ℕ) (n : ℕ) (es : List Entry)
    → IdleFrom n es
    → IdleFrom n (check_loop now packet_id n es).1
unfolding check_loop
check_loop-IdleFrom now packet_id zero es h = h
check_loop-IdleFrom now packet_id (suc n) [] h = h
check_loop-IdleFrom now packet_id (suc n) (e ∷ es) h =
    ground (arith, check_loop-IdleFrom now packet_id n es h, h)

length-prune_loop : (now n : ℕ) (es : List Entry) → length (prune_loop now n es) ≡ length es
unfolding prune_loop
length-prune_loop now zero es = refl
length-prune_loop now (suc n) [] = refl
length-prune_loop now (suc n) (e ∷ es) = ground (arith, length-prune_loop now n es)

prune_loop-IdleFrom :
    (now n : ℕ) (es : List Entry) → IdleFrom n es → IdleFrom n (prune_loop now n es)
unfolding prune_loop
prune_loop-IdleFrom now zero es h = h
prune_loop-IdleFrom now (suc n) [] h = h
prune_loop-IdleFrom now (suc n) (e ∷ es) h = prune_loop-IdleFrom now n es h

pub check-IsCache :
    (c : Cache) (packet_id : List ℕ) (now : ℕ) → IsCache c → IsCache (check c packet_id now).1
unfolding check
check-IsCache c packet_id now v = record {
  size = ground (arith, length-check_loop now packet_id c.count c.entries);
  bounded = v.bounded;
  idle = check_loop-IdleFrom now packet_id c.count c.entries v.idle;
}

pub prune-IsCache : (c : Cache) (now : ℕ) → IsCache c → IsCache (prune c now)
unfolding prune
prune-IsCache c now v = record {
  size = ground (arith, length-prune_loop now c.count c.entries);
  bounded = v.bounded;
  idle = prune_loop-IdleFrom now c.count c.entries v.idle;
}
