-- ===== src/Seen.antt =====
-- `vex_seen_cache_t` and src/seen.c: the cache of the packet ids that a node has handled.
-- Each function reads the clock once, so the time is an argument. A `time_t` is a natural number of
-- seconds; where an entry's time is after the clock, C's difference is negative and the difference
-- here is 0, and neither is above the limit. `active` is the source's 0 or 1.
pub mod Check
pub mod Add
pub mod Evict
pub mod Fresh
pub mod Used
pub mod History
pub mod Burst
pub mod Calls
use vexconnect.Prelude.{
  ℕ, zero, suc, ◌+◌, ◌-◌, ◌≤◌, ◌≡◌, List, [], ◌∷◌, Option, none, some, Bool, true, false, not, ◌&&◌,
  ◌||◌, ltb, leb, bytes_eq, if◌then◌else◌, length, replicate, set, All,
}

abbrev pub seen_capacity : ℕ
seen_capacity = 1000

abbrev pub seen_ttl_sec : ℕ
seen_ttl_sec = 60

pub record Entry : Type 0 where
  pub packet_id : List ℕ
  pub timestamp : ℕ
  pub active : Bool

pub record Cache : Type 0 where
  pub entries : List Entry
  pub count : ℕ

abbrev pub empty_entry : Entry
empty_entry = record { packet_id = replicate 8 0; timestamp = 0; active = false }

-- `vex_seen_init`
pub init : Cache
init = record { entries = replicate seen_capacity empty_entry; count = 0 }

-- `now - entry.timestamp > VEX_SEEN_TTL_SEC`
abbrev pub expired : ℕ → Entry → Bool
expired now e = ltb seen_ttl_sec (now - e.timestamp)

-- The loop of `vex_seen_check`, with the rounds that are left.
pub check_loop : ℕ → List ℕ → ℕ → List Entry → Bool × List Entry
check_loop now packet_id zero es = (false, es)
check_loop now packet_id (suc n) [] = (false, [])
check_loop now packet_id (suc n) (e ∷ es) =
    let rest = check_loop now packet_id n es in
    if not e.active
    then (rest.0, e ∷ rest.1)
    else if expired now e
    then (rest.0, record e { active = false } ∷ rest.1)
    else if bytes_eq e.packet_id packet_id
    then (true, e ∷ es)
    else (rest.0, e ∷ rest.1)

-- `vex_seen_check`
pub check : Cache → List ℕ → ℕ → Bool × Cache
check c packet_id now =
    let (seen, entries) = check_loop now packet_id c.count c.entries in
    (seen, record c { entries = entries })

-- The first slot that is empty or expired, counted from i.
pub find_slot : ℕ → List Entry → ℕ → Option ℕ
find_slot now [] i = none
find_slot now (e ∷ es) i =
    let rest = find_slot now es (i + 1) in if not e.active || expired now e then some i else rest

-- The loop that looks for the oldest entry, from index i on, with the best so far.
pub oldest_from : List Entry → ℕ → ℕ → ℕ → ℕ
oldest_from [] i oldest_idx oldest_time = oldest_idx
oldest_from (e ∷ es) i oldest_idx oldest_time =
    let older = ltb e.timestamp oldest_time in
    oldest_from es (i + 1) (if older then i else oldest_idx)
      (if older then e.timestamp else oldest_time)

pub oldest : List Entry → ℕ
oldest [] = 0
oldest (e ∷ es) = oldest_from es 1 0 e.timestamp

abbrev pub new_entry : List ℕ → ℕ → Entry
new_entry packet_id now = record { packet_id = packet_id; timestamp = now; active = true }

-- `vex_seen_add`
pub add : Cache → List ℕ → ℕ → Cache
add c packet_id now = elim (find_slot now c.entries 0) [
  | some i ↦ record {
    entries = set c.entries i (new_entry packet_id now);
    count = if leb c.count i then i + 1 else c.count;
  }
  | none ↦ record c { entries = set c.entries (oldest c.entries) (new_entry packet_id now) }
]

-- The loop of `vex_seen_prune`, with the rounds that are left.
pub prune_loop : ℕ → ℕ → List Entry → List Entry
prune_loop now zero es = es
prune_loop now (suc n) [] = []
prune_loop now (suc n) (e ∷ es) =
    (if e.active && expired now e then record e { active = false } else e) ∷ prune_loop now n es

-- `vex_seen_prune`
pub prune : Cache → ℕ → Cache
prune c now = record c { entries = prune_loop now c.count c.entries }

-- The entries from index n on are not in use.
abbrev pub IdleFrom : ℕ → List Entry → Type 0
IdleFrom zero es = All (λ e. e.active ≡ false) es
IdleFrom (suc n) [] = Unit {0}
IdleFrom (suc n) (e ∷ es) = IdleFrom n es

-- Well-formed: the array has its size, the loops to `count` stay inside it, and see every entry.
pub record IsCache (c : Cache) : Type 0 where
  pub size : length c.entries ≡ seen_capacity
  pub bounded : c.count ≤ seen_capacity
  pub idle : IdleFrom c.count c.entries

-- The reference: an id is recorded if some entry in use, and not expired, carries it.
abbrev pub recorded : ℕ → List ℕ → List Entry → Bool
recorded now packet_id [] = false
recorded now packet_id (e ∷ es) =
    (e.active && (not (expired now e) && bytes_eq e.packet_id packet_id))
    || recorded now packet_id es
