-- ===== src/Seen/Add.antt =====
-- `vex_seen_add` where an empty or expired slot is left.
use vexconnect.Prelude.{
  ℕ, zero, suc, ◌+◌, ◌-◌, ◌≤◌, ◌<◌, ◌≡◌, List, [], ◌∷◌, some, Bool, not, ◌&&◌, ◌||◌, leb, arith,
  length, set, bytes_eq, subst, inl, inr, Bool-cases,
}
use vexconnect.Seen.{
  Entry, Cache, IdleFrom, recorded, expired, new_entry, add, find_slot, seen_ttl_sec,
}

-- An id added at a time is recorded at a later one up to 60 seconds on.
abbrev pub fresh : ℕ → ℕ → Bool
fresh now later = leb (later - now) seen_ttl_sec

pub record Found (now later : ℕ) (id x : List ℕ) (es : List Entry) (k : ℕ) : Type 0 where
  pub inside : k < length es
  pub law :
      recorded later x (set es k (new_entry id now))
      ≡ ((fresh now later && bytes_eq id x) || recorded later x es)

find_slot-Found :
    (now later : ℕ) (id x : List ℕ) (es : List Entry) (i j : ℕ)
    → now ≤ later
    → find_slot now es i ≡ some j
    → (k : ℕ) × (j ≡ i + k) × Found now later id x es k
unfolding find_slot
find_slot-Found now later id x [] i j h e = absurd (cc)
find_slot-Found now later id x (y ∷ es) i j h e =
    elim (Bool-cases (not y.active || expired now y)) [
      | inl free ↦ (0, ground arith, record { inside = omega arith; law = ground arith })
      | inr taken ↦ shift (find_slot-Found now later id x es (i + 1) j h (ground arith))
    ]
  where
    shift :
        (k : ℕ) × (j ≡ i + 1 + k) × Found now later id x es k
        → (k : ℕ) × (j ≡ i + k) × Found now later id x (y ∷ es) k
    shift (k, e', f) = (
      suc k,
      omega arith,
      record { inside = omega (arith, f.inside); law = ground (arith, f.law) },
    )

-- The three facts at the slot that is found.
pub slot-Found :
    (now later : ℕ) (id x : List ℕ) (es : List Entry) (j : ℕ)
    → now ≤ later
    → find_slot now es 0 ≡ some j
    → Found now later id x es j
slot-Found now later id x es j h e = at_slot (find_slot-Found now later id x es 0 j h e)
  where
    at_slot : (k : ℕ) × (j ≡ 0 + k) × Found now later id x es k → Found now later id x es j
    at_slot (k, e', f) = subst (Found now later id x es) (omega arith) f

pub IdleFrom-set_below :
    (n k : ℕ) (es : List Entry) (v : Entry) → k < n → IdleFrom n es → IdleFrom n (set es k v)
IdleFrom-set_below zero k es v h i = absurd (omega arith)
IdleFrom-set_below (suc n) k [] v h i = tt
IdleFrom-set_below (suc n) zero (e ∷ es) v h i = i
IdleFrom-set_below (suc n) (suc k) (e ∷ es) v h i = IdleFrom-set_below n k es v (omega arith) i

pub IdleFrom-set_above :
    (n k : ℕ) (es : List Entry) (v : Entry) → n ≤ k → IdleFrom n es → IdleFrom (suc k) (set es k v)
IdleFrom-set_above n k [] v h i = tt
IdleFrom-set_above zero zero (e ∷ es) v h i = i.1
IdleFrom-set_above zero (suc k) (e ∷ es) v h i = IdleFrom-set_above zero k es v (omega arith) i.1
IdleFrom-set_above (suc n) zero (e ∷ es) v h i = absurd (omega arith)
IdleFrom-set_above (suc n) (suc k) (e ∷ es) v h i = IdleFrom-set_above n k es v (omega arith) i

-- Adding where a slot is free records the id for 60 seconds, and changes no other answer.
pub recorded-add :
    (c : Cache) (id x : List ℕ) (now later j : ℕ)
    → now ≤ later
    → find_slot now c.entries 0 ≡ some j
    → recorded later x (add c id now).entries
      ≡ ((fresh now later && bytes_eq id x) || recorded later x c.entries)
unfolding add
recorded-add c id x now later j h e = rw (e, add) (slot-Found now later id x c.entries j h e).law
