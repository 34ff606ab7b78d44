-- ===== src/Prelude/Memory.antt =====
-- C arrays of bytes with checked accesses. `none` is a fault: an access outside the array.
use Prim.Native.Nat.{zero, suc, ◌<◌, ◌%◌, bit_and, ℕ, ◌+◌, ◌≤◌}
use mathlib.Core.Path.{◌≡◌, refl, sym, ◌∙◌, ap, subst}
use mathlib.Core.List.{List, [], ◌∷◌, ◌++◌, append_assoc}
use mathlib.Core.Option.{Option, none, some}
use native.Mathlib.Omega.{arith}
use mathlib.Core.Logic.{inl, inr}
use native.Mathlib.Decide.{dec_lt}
use mathlib.Core.Bool.{Bool, true, false}
use vexconnect.Prelude.Tests.{◌==◌, leb, ltb, Bool-cases, if◌then◌else◌, le→leb}
use vexconnect.Prelude.Lists.{
  Bytes, All-take, All-drop, All-append, length, take, drop, get_elem?, get_or, length-take,
  length-drop, length-append, length-take, length-drop, take-append, drop-append, drop-drop,
}

infixl 5 ◌>>=◌
abbrev pub ◌>>=◌ {ℓ κ} : {A : Type ℓ} {B : Type κ} → Option A → (A → Option B) → Option B
none >>= f = none
some a >>= f = f a

-- The n bytes of an array from an offset on.
unfoldable pub slice : List ℕ → ℕ → ℕ → Option (List ℕ)
slice src off n = if leb (off + n) (length src) then some (take n (drop off src)) else none

-- The array after a run of bytes is written at an offset.
unfoldable pub write_at : List ℕ → ℕ → List ℕ → Option (List ℕ)
write_at dst off chunk =
    if leb (off + length chunk) (length dst)
    then some (take off dst ++ (chunk ++ drop (off + length chunk) dst))
    else none

-- `memcpy(dst + dst_off, src + src_off, n)`
unfoldable pub memcpy : List ℕ → ℕ → List ℕ → ℕ → ℕ → Option (List ℕ)
memcpy dst dst_off src src_off n = do chunk ← slice src src_off n; write_at dst dst_off chunk

-- `dst[i] = b`
unfoldable pub store : List ℕ → ℕ → ℕ → Option (List ℕ)
store dst i b = write_at dst i (b ∷ [])

-- `src[i]`
abbrev pub load : List ℕ → ℕ → Option ℕ
load = get_elem?

-- `a[n] = x; n++` for an array of some size, of which n elements are written.
abbrev pub put {ℓ} : {A : Type ℓ} → ℕ → List A → A → Option (List A)
put size xs x = if ltb (length xs) size then some (xs ++ (x ∷ [])) else none

pub slice_lem :
    (src : List ℕ) (off n : ℕ)
    → off + n ≤ length src
    → slice src off n ≡ some (take n (drop off src))
unfolding slice
slice_lem src off n h = rw (le→leb _ _ h)

append_assoc_rev {ℓ} : {A : Type ℓ} (a b c : List A) → a ++ (b ++ c) ≡ (a ++ b) ++ c
append_assoc_rev a b c = rw (append_assoc a b c)

-- A write just after a written prefix extends the prefix.
pub write_at-append :
    (pre rest chunk : List ℕ) (off : ℕ)
    → off ≡ length pre
    → length chunk ≤ length rest
    → write_at (pre ++ rest) off chunk ≡ some ((pre ++ chunk) ++ drop (length chunk) rest)
unfolding write_at
write_at-append pre rest chunk off e h =
    rw
      (
        e,
        le→leb (length pre + length chunk) (length (pre ++ rest)) fits,
        take-append pre rest,
        ← drop-drop (length chunk) (length pre) (pre ++ rest),
        drop-append pre rest,
      )
      (ap some (append_assoc_rev pre chunk (drop (length chunk) rest)))
  where
    fits : length pre + length chunk ≤ length (pre ++ rest)
    fits = omega (arith, length-append pre rest)

pub store-append :
    (pre rest : List ℕ) (off b : ℕ)
    → off ≡ length pre
    → 1 ≤ length rest
    → store (pre ++ rest) off b ≡ some ((pre ++ (b ∷ [])) ++ drop 1 rest)
unfolding store
store-append pre rest off b e h = write_at-append pre rest (b ∷ []) off e h

pub memcpy_lem :
    (dst : List ℕ) (dst_off : ℕ) (src : List ℕ) (src_off n : ℕ)
    → src_off + n ≤ length src
    → memcpy dst dst_off src src_off n ≡ write_at dst dst_off (take n (drop src_off src))
unfolding memcpy
memcpy_lem dst dst_off src src_off n h = rw (slice_lem src src_off n h)

pub length-take-drop :
    (src : List ℕ) (off n : ℕ) → off + n ≤ length src → length (take n (drop off src)) ≡ n
length-take-drop src off n h = omega (arith, length-take n (drop off src), length-drop off src)

pub memcpy-append :
    (pre rest src : List ℕ) (off src_off n : ℕ)
    → off ≡ length pre
    → src_off + n ≤ length src
    → n ≤ length rest
    → memcpy (pre ++ rest) off src src_off n
      ≡ some ((pre ++ take n (drop src_off src)) ++ drop n rest)
memcpy-append pre rest src off src_off n e h k = rw (memcpy_lem (pre ++ rest) off src src_off n h) (
    subst (λ m. write_at (pre ++ rest) off chunk ≡ some ((pre ++ chunk) ++ drop m rest)) size
      (write_at-append pre rest chunk off e (omega (arith, size))))
  where
    chunk : List ℕ
    chunk = take n (drop src_off src)

    size : length chunk ≡ n
    size = length-take-drop src src_off n h

-- A copy to the start of an array of the size of the copy.
pub memcpy_start :
    (dst src : List ℕ) (src_off n : ℕ)
    → src_off + n ≤ length src
    → n ≤ length dst
    → memcpy dst 0 src src_off n ≡ some (take n (drop src_off src) ++ drop n dst)
memcpy_start dst src src_off n h k = memcpy-append [] dst src 0 src_off n refl h k

pub write_at-some :
    (dst chunk : List ℕ) (off : ℕ)
    → off + length chunk ≤ length dst
    → (r : List ℕ) × (write_at dst off chunk ≡ some r) × (length r ≡ length dst)
unfolding write_at
write_at-some dst chunk off h = (
  take off dst ++ (chunk ++ drop (off + length chunk) dst),
  rw (le→leb _ _ h),
  omega (
    arith,
    length-append (take off dst) (chunk ++ drop (off + length chunk) dst),
    length-append chunk (drop (off + length chunk) dst),
    length-take off dst,
    length-drop (off + length chunk) dst,
  ),
)

-- A write of bytes into bytes leaves bytes.
pub write_at-Bytes :
    (dst chunk r : List ℕ) (off : ℕ)
    → write_at dst off chunk ≡ some r
    → Bytes dst
    → Bytes chunk
    → Bytes r
unfolding write_at
write_at-Bytes dst chunk r off e d c = elim (Bool-cases (leb (off + length chunk) (length dst))) [
  | inl fits ↦
      let same : some (take off dst ++ (chunk ++ drop (off + length chunk) dst)) ≡ some r =
        sym (rw fits) ∙ e in
      subst Bytes (cc same) (
        All-append (λ b. b < 256) (take off dst) (chunk ++ drop (off + length chunk) dst)
          (All-take (λ b. b < 256) off dst d)
          (All-append (λ b. b < 256) chunk (drop (off + length chunk) dst) c
            (All-drop (λ b. b < 256) (off + length chunk) dst d)))
  | inr over ↦ let same : none ≡ some r = sym (rw over) ∙ e in absurd (cc same)
]

pub load_lem : (src : List ℕ) (i : ℕ) → i < length src → load src i ≡ some (get_or src i 0)
load_lem [] i h = absurd (omega arith)
load_lem (b ∷ src) zero h = refl
load_lem (b ∷ src) (suc i) h = load_lem src i (omega arith)

-- Two functions that a run finds to agree on the numbers below a bound.
unfoldable pub agree : (ℕ → ℕ) → (ℕ → ℕ) → ℕ → Bool
agree f g zero = true
agree f g (suc bound) = if f bound == g bound then agree f g bound else false

pub agree_lem : (f g : ℕ → ℕ) (b bound : ℕ) → b < bound → agree f g bound ≡ true → f b ≡ g b
unfolding agree
agree_lem f g b zero small run = absurd (omega arith)
agree_lem f g b (suc bound) small run = elim (dec_lt b bound) [
  | yes below ↦ agree_lem f g b bound below (ground arith)
  | no above ↦ let here : b ≡ bound = omega arith in ap f here ∙ (ground arith ∙ ap g (sym here))
]

pub low_nibble : (b : ℕ) → b < 256 → bit_and b 0x0f ≡ b % 16
unfolding agree
low_nibble b small = agree_lem (λ x. bit_and x 0x0f) (λ x. x % 16) b 256 small refl

pub low_bit : (b : ℕ) → b < 256 → bit_and b 1 ≡ b % 2
unfolding agree
low_bit b small = agree_lem (λ x. bit_and x 1) (λ x. x % 2) b 256 small refl
