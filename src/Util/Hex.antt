-- ===== src/Util/Hex.antt =====
-- `vex_hex` writes two digits for each byte, and they can be read back.
use vexconnect.Prelude.{
  ℕ, zero, suc, ◌+◌, ◌-◌, ◌*◌, ◌/◌, ◌%◌, ◌≤◌, ◌<◌, ◌≡◌, refl, ap, ap₂, sym, ◌∙◌, List, [], ◌∷◌,
  ◌++◌, some, arith, length, All-take, Bytes, get_or, take, drop, if◌then◌else◌, ltb, length-append,
  length-take, length-drop, append_assoc, drop-drop, append-nil,
}
use vexconnect.Prelude.Memory.{store-append, agree, agree_lem, load_lem, low_nibble}
use vexconnect.Util.{hex, hex_loop, hex_digits}

abbrev pub digit : ℕ → ℕ
digit k = get_or hex_digits k 0

-- The digits of some bytes, the high one of each byte first.
abbrev pub encoded : List ℕ → List ℕ
encoded [] = []
encoded (b ∷ bs) = digit (b / 16) ∷ digit (b % 16) ∷ encoded bs

-- Reading the digits back.
abbrev pub value : ℕ → ℕ
value c = if ltb c 58 then c - 48 else c - 87

abbrev pub decoded : List ℕ → List ℕ
decoded [] = []
decoded (c ∷ []) = []
decoded (c ∷ d ∷ cs) = (value c * 16 + value d) ∷ decoded cs

value-digit : (k : ℕ) → k < 16 → value (digit k) ≡ k
unfolding agree
value-digit k small = agree_lem (λ d. value (digit d)) (λ d. d) k 16 small refl

decoded-encoded : (bs : List ℕ) → Bytes bs → decoded (encoded bs) ≡ bs
decoded-encoded [] h = refl
decoded-encoded (b ∷ bs) h =
    ap₂ ◌∷◌ (omega (arith, value-digit (b / 16), value-digit (b % 16), h.0))
      (decoded-encoded bs h.1)

take-drop_next :
    (src : List ℕ) (i n : ℕ)
    → i < length src
    → take (suc n) (drop i src) ≡ get_or src i 0 ∷ take n (drop (i + 1) src)
take-drop_next [] i n h = absurd (omega arith)
take-drop_next (b ∷ src) zero n h = refl
take-drop_next (b ∷ src) (suc i) n h =
    take-drop_next src i n (omega arith)
    ∙ ap (λ j. get_or src i 0 ∷ take n (drop j (b ∷ src))) shift
  where
    shift : suc (i + 1) ≡ suc i + 1
    shift = omega arith

Bytes-get_or : (src : List ℕ) (i : ℕ) → Bytes src → get_or src i 0 < 256
Bytes-get_or [] i h = omega arith
Bytes-get_or (b ∷ src) zero h = h.0
Bytes-get_or (b ∷ src) (suc i) h = Bytes-get_or src i h.1

pub length-encoded : (bs : List ℕ) → length (encoded bs) ≡ length bs * 2
length-encoded [] = omega arith
length-encoded (b ∷ bs) = omega (arith, length-encoded bs)

-- One round writes the two digits of one byte.
hex_round :
    (src pre rest : List ℕ) (n i : ℕ)
    → Bytes src
    → i < length src
    → length pre ≡ i * 2
    → 2 ≤ length rest
    → let b = get_or src i 0 in
      hex_loop src (suc n) i (pre ++ rest)
      ≡ hex_loop src n (i + 1) ((pre ++ (digit (b / 16) ∷ digit (b % 16) ∷ [])) ++ drop 2 rest)
unfolding hex_loop
hex_round src pre rest n i bytes inside at room = rw (
  load_lem src i inside,
  load_lem hex_digits (b / 16) (omega (arith, Bytes-get_or src i bytes)),
  store-append pre rest (i * 2) (digit (b / 16)) (sym at) (omega arith),
  low_nibble b (Bytes-get_or src i bytes),
  load_lem hex_digits (b % 16) (omega arith),
  store-append (pre ++ (digit (b / 16) ∷ [])) (drop 1 rest) (i * 2 + 1) (digit (b % 16))
      (omega (arith, length-append pre (digit (b / 16) ∷ []))) (omega (arith, length-drop 1 rest)),
  drop-drop 1 1 rest,
  append_assoc pre (digit (b / 16) ∷ []) (digit (b % 16) ∷ []),
)
  where
    b : ℕ
    b = get_or src i 0

hex_none : (src pre rest : List ℕ) (i : ℕ) → hex_loop src 0 i (pre ++ rest) ≡ some (pre ++ rest)
unfolding hex_loop
hex_none src pre rest i = refl

hex_loop_lem :
    (src pre rest : List ℕ) (n i : ℕ)
    → Bytes src
    → i + n ≤ length src
    → length pre ≡ i * 2
    → n * 2 ≤ length rest
    → hex_loop src n i (pre ++ rest)
      ≡ some ((pre ++ encoded (take n (drop i src))) ++ drop (n * 2) rest)
hex_loop_lem src pre rest zero i bytes inside at room =
    rw (append-nil pre) (hex_none src pre rest i)
hex_loop_lem src pre rest (suc n) i bytes inside at room =
    hex_round src pre rest n i bytes (omega arith) at (omega arith)
    ∙ (hex_loop_lem src (pre ++ two) (drop 2 rest) n (i + 1) bytes (omega arith)
          (omega (arith, length-append pre two)) (omega (arith, length-drop 2 rest))
        ∙ rw (take-drop_next src i n (omega arith), drop-drop (n * 2) 2 rest)
            (ap₂ (λ a k. some (a ++ drop k rest)) (append_assoc pre two _) (omega arith)))
  where
    two : List ℕ
    two = digit (get_or src i 0 / 16) ∷ digit (get_or src i 0 % 16) ∷ []

-- Inside arrays of sufficient size, `vex_hex` writes two digits for each byte and a zero behind them,
-- leaves the rest, and the digits stand for those bytes.
pub hex_lem :
    (src out : List ℕ) (len : ℕ)
    → Bytes src
    → len ≤ length src
    → len * 2 < length out
    → (hex src len out ≡ some (encoded (take len src) ++ (0 ∷ drop (len * 2 + 1) out)))
      × (decoded (encoded (take len src)) ≡ take len src)
unfolding hex
hex_lem src out len bytes inside room = (
  rw (
    hex_loop_lem src [] out len 0 bytes (omega arith) (omega arith) (omega arith),
    store-append (encoded (take len src)) (drop (len * 2) out) (len * 2) 0
        (omega (arith, length-encoded (take len src), length-take len src))
        (omega (arith, length-drop (len * 2) out)),
    drop-drop 1 (len * 2) out,
    append_assoc (encoded (take len src)) (0 ∷ []),
  ),
  decoded-encoded (take len src) (All-take (λ b. b < 256) len src bytes),
)
