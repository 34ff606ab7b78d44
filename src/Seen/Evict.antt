-- ===== src/Seen/Evict.antt =====
-- `vex_seen_add` on a full cache: which entry it overwrites.
use vexconnect.Prelude.{
  ℕ, zero, suc, ◌+◌, ◌≤◌, ◌<◌, ◌≡◌, refl, subst, List, [], ◌∷◌, none, some, true, false, ltb, leb,
  arith, All, length, set, length-set, Option-cases, ◌⊎◌, inl, inr, Bool-cases, ltb→lt, ltb→le,
  get_elem?, sym,
}
use vexconnect.Seen.{
  Entry, Cache, IsCache, IdleFrom, expired, new_entry, add, find_slot, oldest, oldest_from,
}
use vexconnect.Seen.Add.{Found, slot-Found, IdleFrom-set_below, IdleFrom-set_above}

-- Every entry is in use and not expired.
abbrev pub Full : ℕ → List Entry → Type 0
Full now = All (λ e. (e.active ≡ true) × (expired now e ≡ false))

pub Full-find_slot : (now : ℕ) (es : List Entry) (i : ℕ) → find_slot now es i ≡ none → Full now es
unfolding find_slot
Full-find_slot now [] i h = tt
Full-find_slot now (e ∷ es) i h = ground (arith, Full-find_slot now es (i + 1))

pub find_slot-Full : (now : ℕ) (es : List Entry) (i : ℕ) → Full now es → find_slot now es i ≡ none
unfolding find_slot
find_slot-Full now [] i h = refl
find_slot-Full now (e ∷ es) i h = ground (arith, find_slot-Full now es (i + 1) h.1)

Full-count : (now n : ℕ) (es : List Entry) → Full now es → IdleFrom n es → length es ≤ n
Full-count now zero [] f h = omega arith
Full-count now zero (e ∷ es) f h = absurd (ground (arith, f.0, h.0))
Full-count now (suc n) [] f h = omega arith
Full-count now (suc n) (e ∷ es) f h = omega (arith, Full-count now n es f.1 h)

-- What the search for the oldest entry has found: the best so far, or an entry of the list.
record Oldest (es : List Entry) (i best time r : ℕ) : Type 0 where
  least : ℕ
  least_le : least ≤ time
  bound : All (λ e. least ≤ e.timestamp) es
  place :
      ((r ≡ best) × (least ≡ time))
      ⊎ ((k : ℕ) × (e : Entry) × (r ≡ i + k) × (get_elem? es k ≡ some e) × (e.timestamp ≡ least))

oldest_from-Oldest :
    (es : List Entry) (i best time : ℕ) → Oldest es i best time (oldest_from es i best time)
unfolding oldest_from
oldest_from-Oldest [] i best time = record {
  least = time;
  least_le = omega arith;
  bound = tt;
  place = inl (refl, refl);
}
oldest_from-Oldest (e ∷ es) i best time = elim (Bool-cases (ltb e.timestamp time)) [
  | inl older ↦
      rw older (from_older (ltb→lt _ _ older) (oldest_from-Oldest es (i + 1) i e.timestamp))
  | inr newer ↦ rw newer (from_newer (ltb→le _ _ newer) (oldest_from-Oldest es (i + 1) best time))
]
  where
    from_older :
        {r : ℕ}
        → e.timestamp < time
        → Oldest es (i + 1) i e.timestamp r
        → Oldest (e ∷ es) i best time r
    from_older h o = record {
      least = o.least;
      least_le = omega (arith, o.least_le);
      bound = (o.least_le, o.bound);
      place = elim o.place [
        | inl (at, same) ↦ inr (0, e, omega (arith, at), refl, omega (arith, same))
        | inr (k, e', at, here, same) ↦ inr (suc k, e', omega (arith, at), here, same)
      ];
    }

    from_newer :
        {r : ℕ} → time ≤ e.timestamp → Oldest es (i + 1) best time r → Oldest (e ∷ es) i best time r
    from_newer h o = record {
      least = o.least;
      least_le = o.least_le;
      bound = (omega (arith, o.least_le), o.bound);
      place = elim o.place [
        | inl same ↦ inl same
        | inr (k, e', at, here, same) ↦ inr (suc k, e', omega (arith, at), here, same)
      ];
    }

-- The search ends at an entry with the least time.
pub oldest_lem :
    (es : List Entry)
    → 0 < length es
    → (e : Entry) × (get_elem? es (oldest es) ≡ some e)
      × All (λ (f : Entry). e.timestamp ≤ f.timestamp) es
unfolding oldest
oldest_lem [] h = absurd (omega arith)
oldest_lem (e ∷ es) h = from (oldest_from-Oldest es 1 0 e.timestamp)
  where
    one_more : (k : ℕ) → 1 + k ≡ suc k
    one_more k = omega arith

    from :
        {r : ℕ}
        → Oldest es 1 0 e.timestamp r
        → (f : Entry) × (get_elem? (e ∷ es) r ≡ some f)
          × All (λ (g : Entry). f.timestamp ≤ g.timestamp) (e ∷ es)
    from {r} o = elim o.place [
      | inl (at, same) ↦ (
        e,
        rw at,
        (omega arith, subst (λ t. All (λ (g : Entry). t ≤ g.timestamp) es) same o.bound),
      )
      | inr (k, f, at, here, same) ↦ (
        f,
        rw (at, one_more k) here,
        (
          omega (arith, same, o.least_le),
          subst (λ t. All (λ (g : Entry). t ≤ g.timestamp) es) (sym same) o.bound,
        ),
      )
    ]

lt_of_get_elem? : (es : List Entry) (k : ℕ) (e : Entry) → get_elem? es k ≡ some e → k < length es
lt_of_get_elem? [] k e h = absurd (cc)
lt_of_get_elem? (f ∷ es) zero e h = omega arith
lt_of_get_elem? (f ∷ es) (suc k) e h = omega (arith, lt_of_get_elem? es k e h)

pub oldest-lt : (es : List Entry) → 0 < length es → oldest es < length es
oldest-lt es h = let (e, at, least) = oldest_lem es h in lt_of_get_elem? es (oldest es) e at

-- On a full cache `vex_seen_add` overwrites one entry, whose time is the least of all, with the new
-- id and time, and leaves the others and the count.
pub add_evicts :
    (c : Cache) (id : List ℕ) (now : ℕ)
    → IsCache c
    → Full now c.entries
    → (k : ℕ) × (e : Entry) × (get_elem? c.entries k ≡ some e)
      × All (λ (f : Entry). e.timestamp ≤ f.timestamp) c.entries
      × ((add c id now).entries ≡ set c.entries k (new_entry id now))
      × ((add c id now).count ≡ c.count)
unfolding add
add_evicts c id now v full =
    let (e, at, least) = oldest_lem c.entries (omega (arith, v.size)) in
    let missing = find_slot-Full now c.entries 0 full in
    (oldest c.entries, e, at, least, rw (missing, add), rw (missing, add))

add_found-IsCache :
    (c : Cache) (id : List ℕ) (now j : ℕ)
    → IsCache c
    → find_slot now c.entries 0 ≡ some j
    → IsCache (add c id now)
unfolding add
add_found-IsCache c id now j v e =
    rw (e, add)
      (record {
        size = omega (arith, length-set c.entries j (new_entry id now), v.size);
        bounded = ground (arith, f.inside, v.size, v.bounded);
        idle = elim (Bool-cases (leb c.count j)) [
          | inl above ↦
              rw (above, next) (IdleFrom-set_above c.count j c.entries _ (ground arith) v.idle)
          | inr below ↦ rw below (IdleFrom-set_below c.count j c.entries _ (ground arith) v.idle)
        ];
      })
  where
    f : Found now now id id c.entries j
    f = slot-Found now now id id c.entries j (omega arith) e

    next : j + 1 ≡ suc j
    next = omega arith

add_full-IsCache :
    (c : Cache) (id : List ℕ) (now : ℕ)
    → IsCache c
    → find_slot now c.entries 0 ≡ none
    → IsCache (add c id now)
unfolding add
add_full-IsCache c id now v e =
    rw (e, add)
      (record {
        size = omega (arith, length-set c.entries (oldest c.entries) (new_entry id now), v.size);
        bounded = v.bounded;
        idle =
            IdleFrom-set_below c.count (oldest c.entries) c.entries _ (omega (arith, inside, used))
              v.idle;
      })
  where
    inside : oldest c.entries < length c.entries
    inside = oldest-lt c.entries (omega (arith, v.size))

    used : length c.entries ≤ c.count
    used = Full-count now c.count c.entries (Full-find_slot now c.entries 0 e) v.idle

-- Adding keeps the cache well-formed, whether a slot is free or an entry is overwritten.
pub add-IsCache : (c : Cache) (id : List ℕ) (now : ℕ) → IsCache c → IsCache (add c id now)
add-IsCache c id now v = elim (Option-cases (find_slot now c.entries 0)) [
  | inl e ↦ add_full-IsCache c id now v e
  | inr (j, e) ↦ add_found-IsCache c id now j v e
]
