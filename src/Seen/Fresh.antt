-- ===== src/Seen/Fresh.antt =====
-- An id that was just added is seen, on a full cache too.
use vexconnect.Prelude.{
  ℕ, zero, suc, ◌+◌, ◌≤◌, ◌<◌, ◌≡◌, List, [], ◌∷◌, true, arith, length, set, bytes_eq_refl,
  Option-cases, inl, inr,
}
use vexconnect.Seen.{
  Entry, Cache, IsCache, recorded, new_entry, add, find_slot, oldest, seen_ttl_sec,
}
use vexconnect.Seen.Add.{slot-Found}
use vexconnect.Seen.Evict.{oldest-lt}

recorded-set :
    (id : List ℕ) (t last k : ℕ) (es : List Entry)
    → last ≤ t + seen_ttl_sec
    → k < length es
    → recorded last id (set es k (new_entry id t)) ≡ true
recorded-set id t last k [] h inside = absurd (omega arith)
recorded-set id t last zero (e ∷ es) h inside = ground (arith, bytes_eq_refl id)
recorded-set id t last (suc k) (e ∷ es) h inside = ground (arith, recorded-set id t last k es h)

-- An id that was just added to a well-formed cache, full or not, is recorded for the next 60 seconds.
pub recorded_just_added :
    (c : Cache) (id : List ℕ) (t last : ℕ)
    → IsCache c
    → last ≤ t + seen_ttl_sec
    → recorded last id (add c id t).entries ≡ true
unfolding add
recorded_just_added c id t last v h = elim (Option-cases (find_slot t c.entries 0)) [
  | inl e ↦
      rw (e, add)
        (recorded-set id t last (oldest c.entries) c.entries h
          (oldest-lt c.entries (omega (arith, v.size))))
  | inr (j, e) ↦
      rw (e, add)
        (recorded-set id t last j c.entries h
          (slot-Found t t id id c.entries j (omega arith) e).inside)
]
