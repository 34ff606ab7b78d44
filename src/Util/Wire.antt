-- ===== src/Util/Wire.antt =====
-- Drawing random bytes writes nothing to a socket.
use vexconnect.Prelude.{ℕ, List, zero, suc}
use vexconnect.System.{Os}
use vexconnect.Util.{fallback_loop, randombytes}
use vexconnect.Transport.Speaks.{Makes, makes_rules}

module _ {Q : List ℕ → Type 0} (os : Os) where
  fallback_loop-Makes : (n i : ℕ) (x : List ℕ) → Makes Q (fallback_loop os n i x)
  unfolding fallback_loop
  fallback_loop-Makes zero i x = search makes_rules
  fallback_loop-Makes (suc n) i x = search (makes_rules, fallback_loop-Makes n)

  pub randombytes-Makes : (x : List ℕ) (n : ℕ) → Makes Q (randombytes os x n)
  unfolding randombytes
  randombytes-Makes x n = search (makes_rules, fallback_loop-Makes) depth 9
