-- ===== src/Util.antt =====
-- src/util.c: hexadecimal output and random bytes.
pub mod Hex
pub mod Random
pub mod Wire
pub mod Drawn
mod Millis
use vexconnect.Prelude.{
  ℕ, zero, suc, ◌+◌, ◌*◌, ◌/◌, ◌%◌, ◌^◌, bit_and, bit_xor, List, [], ◌∷◌, Option, none, some,
  if◌then◌else◌, get_elem?,
}
use vexconnect.Prelude.Int.{ℤ, is_negative}
use vexconnect.Prelude.Memory.{store, load, write_at}
use vexconnect.Prelude.Memory
use vexconnect.Prelude.Text.{codes}
use vexconnect.System.{
  Os, Io, ReadReply, got, again, failed, ◌>>=◌, ◌>>◌, return, lift, call, closed, time, open_file,
  read,
}

abbrev pub hex_digits : List ℕ
hex_digits = codes "0123456789abcdef"

-- The loop of `vex_hex`, with the rounds that are left.
pub hex_loop : List ℕ → ℕ → ℕ → List ℕ → Option (List ℕ)
hex_loop src zero i out = some out
hex_loop src (suc n) i out = Memory.◌>>=◌ (load src i) λ b.
    Memory.◌>>=◌ (load hex_digits (b / 2 ^ 4)) λ high. Memory.◌>>=◌ (store out (i * 2) high) λ out₁.
      Memory.◌>>=◌ (load hex_digits (bit_and b 0x0f))
        λ low. Memory.◌>>=◌ (store out₁ (i * 2 + 1) low) λ out₂. hex_loop src n (i + 1) out₂

-- `vex_hex`: the array `out` afterwards.
pub hex : List ℕ → ℕ → List ℕ → Option (List ℕ)
hex src len out = Memory.◌>>=◌ (hex_loop src len 0 out) λ out'. store out' (len * 2) 0

-- The source's constant, and the byte that the fallback makes of the time and an index.
abbrev pub fallback_byte : ℕ → ℕ → ℕ
fallback_byte now i = bit_xor now (i * 2654435761 % 2 ^ 64) % 2 ^ 8

-- What a read leaves in the array that it reads into.
abbrev pub filled : List ℕ → ReadReply → Option (List ℕ)
filled x (got bs) = write_at x 0 bs
filled x again = some x
filled x failed = some x

module _ (os : Os) where
  -- The loop of the fallback, with the rounds that are left.
  pub fallback_loop : ℕ → ℕ → List ℕ → Io (List ℕ)
  fallback_loop zero i x = return x
  fallback_loop (suc n) i x = do
    now ← time os
    x' ← lift (store x i (fallback_byte now i))
    fallback_loop n (i + 1) x'

  -- `randombytes`: the array `x` afterwards. The result of `read` is not looked at.
  pub randombytes : List ℕ → ℕ → Io (List ℕ)
  randombytes x xlen = do
    fd ← open_file os (codes "/dev/urandom")
    if is_negative fd
        then fallback_loop xlen 0 x
        else do reply ← read os fd xlen; x' ← lift (filled x reply); call (closed fd); return x'
