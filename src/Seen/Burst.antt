-- ===== src/Seen/Burst.antt =====
-- A full cache whose entries all carry the present second: which entry the next additions overwrite.
use vexconnect.Prelude.{
  ℕ, ◌+◌, ◌≡◌, refl, List, [], ◌∷◌, true, false, arith, All, set, bytes_eq, ◌∙◌,
}
use vexconnect.Seen.{Entry, Cache, IsCache, recorded, new_entry, check, add, oldest, oldest_from}
use vexconnect.Seen.Check.{check_lem}
use vexconnect.Seen.Evict.{Full, find_slot-Full, add-IsCache}

-- Every entry is in use and was written in this second.
abbrev pub Stamped : ℕ → List Entry → Type 0
Stamped now = All (λ e. (e.active ≡ true) × (e.timestamp ≡ now))

Stamped-Full : (now : ℕ) (es : List Entry) → Stamped now es → Full now es
Stamped-Full now [] h = tt
Stamped-Full now (e ∷ es) h = ((h.0.0, ground arith), Stamped-Full now es h.1)

oldest_from-Stamped :
    (now : ℕ) (es : List Entry) (i best : ℕ) → Stamped now es → oldest_from es i best now ≡ best
unfolding oldest_from
oldest_from-Stamped now [] i best h = refl
oldest_from-Stamped now (e ∷ es) i best h =
    ground (arith, oldest_from-Stamped now es (i + 1) best h.1)

oldest-Stamped : (now : ℕ) (es : List Entry) → Stamped now es → oldest es ≡ 0
unfolding oldest
oldest-Stamped now [] h = refl
oldest-Stamped now (e ∷ es) h = ground (arith, oldest_from-Stamped now es 1 0 h.1)

set-Stamped :
    (now : ℕ) (es : List Entry) (id : List ℕ)
    → Stamped now es
    → Stamped now (set es 0 (new_entry id now))
set-Stamped now [] id h = tt
set-Stamped now (e ∷ es) id h = ((refl, refl), h.1)

add-Stamped :
    (c : Cache) (id : List ℕ) (now : ℕ)
    → Stamped now c.entries
    → add c id now ≡ record c { entries = set c.entries 0 (new_entry id now) }
unfolding add
add-Stamped c id now h =
    rw (find_slot-Full now c.entries 0 (Stamped-Full now c.entries h), add)
      (rw (oldest-Stamped now c.entries h))

recorded_overwritten :
    (now : ℕ) (a b : List ℕ) (es : List Entry)
    → bytes_eq b a ≡ false
    → recorded now a es ≡ false
    → recorded now a (set (set es 0 (new_entry a now)) 0 (new_entry b now)) ≡ false
recorded_overwritten now a b [] h k = refl
recorded_overwritten now a b (e ∷ es) h k = ground arith

-- When the cache is full and all its entries are of the present second, a new id that is added is the
-- one that the next addition, of another id in that second, overwrites: the test for the first id then
-- says that it is new.
pub burst_forgets_newest :
    (c : Cache) (a b : List ℕ) (now : ℕ)
    → IsCache c
    → Stamped now c.entries
    → bytes_eq b a ≡ false
    → recorded now a c.entries ≡ false
    → (check (add (add c a now) b now) a now).0 ≡ false
burst_forgets_newest c a b now v h ne new =
    check_lem (add (add c a now) b now) a now
      (add-IsCache (add c a now) b now (add-IsCache c a now v))
    ∙ rw
        (
          add-Stamped c a now h,
          add-Stamped (record c { entries = set c.entries 0 (new_entry a now) }) b now
              (set-Stamped now c.entries a h),
        )
        (recorded_overwritten now a b c.entries ne new)
