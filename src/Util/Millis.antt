-- ===== src/Util/Millis.antt =====
-- The clock in milliseconds of src/util.c. The answer of `gettimeofday` is the argument; the core's
-- other code does not call it.
use vexconnect.Prelude.{ℕ, ◌+◌, ◌*◌, ◌/◌, ◌%◌, ◌^◌, ◌≤◌, ◌<◌, ◌≡◌, arith}

-- A `struct timeval` of a time since 1970: seconds, and microseconds of the next.
record Timeval : Type 0 where
  tv_sec : ℕ
  tv_usec : ℕ

-- `vex_time_ms`, with the wrap of `uint64_t`.
time_ms : Timeval → ℕ
time_ms tv = (tv.tv_sec * 1000 % 2 ^ 64 + tv.tv_usec / 1000) % 2 ^ 64

-- The microseconds since 1970.
abbrev micros : Timeval → ℕ
micros tv = tv.tv_sec * 1000000 + tv.tv_usec

-- Before the wrap, `vex_time_ms` is the time in microseconds, divided by a thousand.
time_ms_lem : (tv : Timeval) → micros tv / 1000 < 2 ^ 64 → time_ms tv ≡ micros tv / 1000
unfolding time_ms
time_ms_lem tv small = omega arith

-- Before the wrap, a later time does not have fewer milliseconds.
time_ms_mono :
    (a b : Timeval) → micros a ≤ micros b → micros b / 1000 < 2 ^ 64 → time_ms a ≤ time_ms b
unfolding time_ms
time_ms_mono a b le small = omega arith
