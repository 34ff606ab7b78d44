-- ===== src/Seen/Used.antt =====
-- How many entries of the cache are in use, and when a slot is left.
use vexconnect.Prelude.{
  ℕ, zero, suc, ◌+◌, ◌≤◌, ◌<◌, ◌≡◌, refl, List, [], ◌∷◌, some, not, ◌&&◌, arith, length, set,
  if◌then◌else◌, Option-cases, inl, inr,
}
use vexconnect.Seen.{
  Entry, Cache, IsCache, expired, new_entry, check, check_loop, prune, prune_loop, add, find_slot,
  seen_capacity, oldest,
}
use vexconnect.Seen.Evict.{Full, Full-find_slot}

-- The entries in use and not expired.
abbrev pub used : ℕ → List Entry → ℕ
used now [] = 0
used now (e ∷ es) = (if e.active && not (expired now e) then 1 else 0) + used now es

pub used-Full : (now : ℕ) (es : List Entry) → Full now es → used now es ≡ length es
used-Full now [] h = refl
used-Full now (e ∷ es) h = ground (arith, used-Full now es h.1)

pub used_later : (now later : ℕ) (es : List Entry) → now ≤ later → used later es ≤ used now es
used_later now later [] h = omega arith
used_later now later (e ∷ es) h = ground (arith, used_later now later es h)

pub used-set :
    (now : ℕ) (es : List Entry) (k : ℕ) (v : Entry) → used now (set es k v) ≤ used now es + 1
used-set now [] k v = omega arith
used-set now (e ∷ es) zero v = ground arith
used-set now (e ∷ es) (suc k) v = omega (arith, used-set now es k v)

pub used-check_loop :
    (now : ℕ) (id : List ℕ) (n : ℕ) (es : List Entry)
    → used now (check_loop now id n es).1 ≤ used now es
unfolding check_loop
used-check_loop now id zero es = omega arith
used-check_loop now id (suc n) [] = omega arith
used-check_loop now id (suc n) (e ∷ es) = ground (arith, used-check_loop now id n es)

pub used-prune_loop : (now n : ℕ) (es : List Entry) → used now (prune_loop now n es) ≤ used now es
unfolding prune_loop
used-prune_loop now zero es = omega arith
used-prune_loop now (suc n) [] = omega arith
used-prune_loop now (suc n) (e ∷ es) = ground (arith, used-prune_loop now n es)

pub used-add :
    (c : Cache) (id : List ℕ) (now : ℕ) → used now (add c id now).entries ≤ used now c.entries + 1
unfolding add
used-add c id now = elim (Option-cases (find_slot now c.entries 0)) [
  | inl e ↦ rw (e, add) (used-set now c.entries (oldest c.entries) (new_entry id now))
  | inr (j, e) ↦ rw (e, add) (used-set now c.entries j (new_entry id now))
]

-- A cache with fewer than 1000 entries in use has a slot.
pub slot_left :
    (c : Cache) (now : ℕ)
    → IsCache c
    → used now c.entries < seen_capacity
    → (j : ℕ) × (find_slot now c.entries 0 ≡ some j)
slot_left c now v h = elim (Option-cases (find_slot now c.entries 0)) [
  | inl e ↦
      absurd (omega (arith, used-Full now c.entries (Full-find_slot now c.entries 0 e), v.size))
  | inr found ↦ found
]

pub used-check :
    (c : Cache) (id : List ℕ) (now : ℕ) → used now (check c id now).1.entries ≤ used now c.entries
unfolding check
used-check c id now = used-check_loop now id c.count c.entries

pub used-prune : (c : Cache) (now : ℕ) → used now (prune c now).entries ≤ used now c.entries
unfolding prune
used-prune c now = used-prune_loop now c.count c.entries
