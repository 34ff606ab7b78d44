-- ===== src/Seen/History.antt =====
-- The cache over a sequence of calls: the promise of deduplication.
use vexconnect.Prelude.{
  ℕ, zero, suc, ◌+◌, ◌≤◌, ◌<◌, ◌≡◌, refl, some, List, [], ◌∷◌, Bool, true, false, ◌&&◌, ◌||◌, arith,
  All, ap, replicate, length-replicate, bytes_eq, bytes_eq_refl, ◌∙◌,
}
use vexconnect.Seen.{
  find_slot, Entry, Cache, IsCache, recorded, check, prune, add, seen_capacity, seen_ttl_sec, init,
  empty_entry,
}
use vexconnect.Seen.Check.{check_lem, recorded_maintained, check-IsCache, prune-IsCache}
use vexconnect.Seen.Add.{recorded-add, fresh}
use vexconnect.Seen.Evict.{add-IsCache}
use vexconnect.Seen.Used.{used, used_later, used-check, used-add, used-prune, slot_left}

-- The calls that a node makes of its cache.
pub data Call : Type 0 where
  checks : List ℕ → Call
  adds : List ℕ → Call
  prunes : Call

abbrev pub step : Cache → ℕ × Call → Cache
step c (now, checks id) = (check c id now).1
step c (now, adds id) = add c id now
step c (now, prunes) = prune c now

abbrev pub run : Cache → List (ℕ × Call) → Cache
run c [] = c
run c (x ∷ xs) = run (step c x) xs

-- The clock does not run backwards from a first to a last time.
abbrev pub Ascends : ℕ → List (ℕ × Call) → ℕ → Type 0
Ascends t [] last = t ≤ last
Ascends t ((now, call) ∷ xs) last = (t ≤ now) × Ascends now xs last

abbrev pub additions : List (ℕ × Call) → ℕ
additions [] = 0
additions ((now, adds id) ∷ xs) = additions xs + 1
additions ((now, checks id) ∷ xs) = additions xs
additions ((now, prunes) ∷ xs) = additions xs

pub step-IsCache : (c : Cache) (x : ℕ × Call) → IsCache c → IsCache (step c x)
step-IsCache c (now, checks id) v = check-IsCache c id now v
step-IsCache c (now, adds id) v = add-IsCache c id now v
step-IsCache c (now, prunes) v = prune-IsCache c now v

-- Every sequence of calls keeps the cache well-formed.
pub run-IsCache : (c : Cache) (xs : List (ℕ × Call)) → IsCache c → IsCache (run c xs)
run-IsCache c [] v = v
run-IsCache c (x ∷ xs) v = run-IsCache (step c x) xs (step-IsCache c x v)

Ascends-le : (t : ℕ) (xs : List (ℕ × Call)) (last : ℕ) → Ascends t xs last → t ≤ last
Ascends-le t [] last h = h
Ascends-le t ((now, call) ∷ xs) last h = omega (arith, Ascends-le now xs last h.1)

or_false : (b : Bool) → (b || false) ≡ b
or_false true = refl
or_false false = refl

-- The reference for a sequence of calls: some addition of the id is at most 60 seconds old.
abbrev pub added : ℕ → List ℕ → List (ℕ × Call) → Bool
added last x [] = false
added last x ((now, adds id) ∷ xs) = added last x xs || (fresh now last && bytes_eq id x)
added last x ((now, checks id) ∷ xs) = added last x xs
added last x ((now, prunes) ∷ xs) = added last x xs

recorded-add_free :
    (c : Cache) (id x : List ℕ) (now last : ℕ)
    → IsCache c
    → now ≤ last
    → used now c.entries < seen_capacity
    → recorded last x (add c id now).entries
      ≡ ((fresh now last && bytes_eq id x) || recorded last x c.entries)
recorded-add_free c id x now last v h room =
    let (j, e) = slot_left c now v room in recorded-add c id x now last j h e

or_assoc : (a b c : Bool) → (a || (b || c)) ≡ ((a || b) || c)
or_assoc true b c = refl
or_assoc false b c = refl

-- With room for every addition, an id is recorded exactly if it was before or was added in time.
pub recorded-run :
    (xs : List (ℕ × Call)) (c : Cache) (x : List ℕ) (t last : ℕ)
    → IsCache c
    → Ascends t xs last
    → used t c.entries + additions xs ≤ seen_capacity
    → recorded last x (run c xs).entries ≡ (added last x xs || recorded last x c.entries)
recorded-run [] c x t last v up room = refl
recorded-run ((now, checks id) ∷ xs) c x t last v up room =
    recorded-run xs (check c id now).1 x now last (check-IsCache c id now v) up.1
      (omega (arith, used-check c id now, used_later t now c.entries up.0))
    ∙ ap (◌||◌ (added last x xs))
        (recorded_maintained c id x now last (Ascends-le now xs last up.1)).0
recorded-run ((now, adds id) ∷ xs) c x t last v up room =
    recorded-run xs (add c id now) x now last (add-IsCache c id now v) up.1
      (omega (arith, used-add c id now, used_later t now c.entries up.0))
    ∙ (ap (◌||◌ (added last x xs)) (
          recorded-add_free c id x now last v (Ascends-le now xs last up.1)
            (omega (arith, used_later t now c.entries up.0)))
        ∙ or_assoc (added last x xs) _ _)
recorded-run ((now, prunes) ∷ xs) c x t last v up room =
    recorded-run xs (prune c now) x now last (prune-IsCache c now v) up.1
      (omega (arith, used-prune c now, used_later t now c.entries up.0))
    ∙ ap (◌||◌ (added last x xs))
        (recorded_maintained c x x now last (Ascends-le now xs last up.1)).1

init_idle : (n : ℕ) → All (λ (e : Entry). e.active ≡ false) (replicate n empty_entry)
init_idle zero = tt
init_idle (suc n) = (refl, init_idle n)

init_unused : (now n : ℕ) → used now (replicate n empty_entry) ≡ 0
init_unused now zero = refl
init_unused now (suc n) = omega (arith, init_unused now n)

init_unrecorded : (now n : ℕ) (x : List ℕ) → recorded now x (replicate n empty_entry) ≡ false
init_unrecorded now zero x = refl
init_unrecorded now (suc n) x = init_unrecorded now n x

pub init-IsCache : IsCache init
unfolding init
init-IsCache = record {
  size = length-replicate seen_capacity empty_entry;
  bounded = omega arith;
  idle = init_idle seen_capacity;
}

-- An empty cache records nothing, uses no slot, and offers the first one.
pub unrecorded-init : (now : ℕ) (x : List ℕ) → recorded now x init.entries ≡ false
unfolding init
unrecorded-init now x = init_unrecorded now seen_capacity x

pub unused-init : (now : ℕ) → used now init.entries ≡ 0
unfolding init
unused-init now = init_unused now seen_capacity

pub first_slot-init : (now : ℕ) → find_slot now init.entries 0 ≡ some 0
unfolding init find_slot
first_slot-init now = refl

-- The cache refines the map from ids to times that the protocol describes: after any calls on an
-- empty cache with at most 1000 additions and a clock that does not run backwards, the test answers
-- that an id was seen exactly if some addition of it is at most 60 seconds old.
pub check-run-init :
    (xs : List (ℕ × Call)) (x : List ℕ) (last : ℕ)
    → Ascends 0 xs last
    → additions xs ≤ seen_capacity
    → (check (run init xs) x last).0 ≡ added last x xs
unfolding init
check-run-init xs x last up room =
    check_lem (run init xs) x last (run-IsCache init xs init-IsCache)
    ∙ (recorded-run xs init x 0 last init-IsCache up (omega (arith, init_unused 0 seen_capacity))
        ∙ rw (init_unrecorded last seen_capacity x) (or_false (added last x xs)))

-- The promise of the cache: an id that is added is reported as seen by every test of the next 60
-- seconds, whatever calls come between, as long as the entries in use when it was added and the
-- additions since are fewer than 1000, and the clock does not run backwards.
pub check-run-add :
    (c : Cache) (id : List ℕ) (t last : ℕ) (xs : List (ℕ × Call))
    → IsCache c
    → Ascends t xs last
    → last ≤ t + seen_ttl_sec
    → used t c.entries + additions xs < seen_capacity
    → (check (run (add c id t) xs) id last).0 ≡ true
check-run-add c id t last xs v up window room =
    check_lem (run (add c id t) xs) id last (run-IsCache (add c id t) xs (add-IsCache c id t v))
    ∙ (recorded-run xs (add c id t) id t last (add-IsCache c id t v) up
          (omega (arith, used-add c id t))
        ∙ rw
            (
              recorded-add_free c id id t last v (Ascends-le t xs last up) (omega arith),
              bytes_eq_refl id,
            )
            (ground arith))
