-- ===== src/Packet/Encoded.antt =====
-- What `vex_packet_encode` makes of any packet, when it does not fail: a frame that decodes.
use vexconnect.Prelude.{
  ℕ, zero, suc, ◌+◌, ◌≤◌, ◌<◌, ◌≡◌, refl, sym, ap, ◌∙◌, List, [], ◌∷◌, ◌++◌, Option, none, some,
  Bool, true, false, ◌||◌, ltb, leb, ◌==◌, if◌then◌else◌, Ret, ok, err, Bool-cases, inl, inr, arith,
  length, take, drop, get_or, length-take, length-drop, length-append,
}
use vexconnect.Prelude.Memory.{◌>>=◌, slice, write_at, memcpy, store}
use vexconnect.Packet.{Packet, encode, max_packet, header_size, vex_version}
use vexconnect.Packet.Decode.{accepts}

-- At most 512 bytes that `vex_packet_decode` accepts.
pub record IsFrame (f : List ℕ) : Type 0 where
  pub small : length f ≤ max_packet
  pub decodes : accepts f (length f) ≡ true

-- An array that has been written to past its first byte.
record Grew (dst r : List ℕ) (end : ℕ) : Type 0 where
  pub room : end ≤ length dst
  pub size : length r ≡ length dst
  pub first : get_or r 0 0 ≡ get_or dst 0 0

bind_inv :
    {A B : Type 0} (m : Option A) (f : A → Option B) (r : B)
    → m >>= f ≡ some r
    → (a : A) × (m ≡ some a) × (f a ≡ some r)
bind_inv none f r e = absurd (cc e)
bind_inv (some a) f r e = (a, refl, e)

guarded :
    (b : Bool) (xs r : List ℕ) → (if b then some xs else none) ≡ some r → (b ≡ true) × (xs ≡ r)
guarded true xs r e = (refl, cc e)
guarded false xs r e = absurd (cc e)

first_kept :
    (dst rest : List ℕ) (off : ℕ)
    → 0 < off
    → off ≤ length dst
    → get_or (take off dst ++ rest) 0 0 ≡ get_or dst 0 0
first_kept dst rest zero pos h = absurd (omega arith)
first_kept [] rest (suc off) pos h = absurd (omega arith)
first_kept (b ∷ dst) rest (suc off) pos h = refl

write_at_inv :
    (dst chunk r : List ℕ) (off : ℕ)
    → 0 < off
    → write_at dst off chunk ≡ some r
    → Grew dst r (off + length chunk)
unfolding write_at
write_at_inv dst chunk r off behind e =
    let (fits, same) = guarded (leb (off + length chunk) (length dst)) _ r e in
    let room : off + length chunk ≤ length dst = ground arith in
    record {
      room = room;
      size =
          ap length (sym same)
          ∙ omega (
            arith,
            room,
            length-append (take off dst) (chunk ++ drop (off + length chunk) dst),
            length-append chunk (drop (off + length chunk) dst),
            length-take off dst,
            length-drop (off + length chunk) dst,
          );
      first = ap (λ x. get_or x 0 0) (sym same) ∙ first_kept dst _ off behind (omega (arith, room));
    }

memcpy_inv :
    (dst src r : List ℕ) (off n : ℕ)
    → 0 < off
    → memcpy dst off src 0 n ≡ some r
    → Grew dst r (off + n)
unfolding memcpy slice
memcpy_inv dst src r off n behind e =
    let (chunk, cut, written) = bind_inv (slice src 0 n) (write_at dst off) r e in
    let (fits, same) = guarded (leb (0 + n) (length src)) _ chunk cut in
    let size : length chunk ≡ n =
      ap length (sym same) ∙ ground (arith, length-take n (drop 0 src)) in
    let g = write_at_inv dst chunk r off behind written in
    record { room = omega (arith, g.room, size); size = g.size; first = g.first }

store_inv : (dst r : List ℕ) (off b : ℕ) → 0 < off → store dst off b ≡ some r → Grew dst r (off + 1)
unfolding store
store_inv dst r off b behind e = write_at_inv dst (b ∷ []) r off behind e

-- The first write.
store_first : (dst r : List ℕ) (b : ℕ) → store dst 0 b ≡ some r → get_or r 0 0 ≡ b
unfolding store write_at
store_first dst r b e =
    let (fits, same) = guarded (leb 1 (length dst)) _ r e in ap (λ x. get_or x 0 0) (sym same)

take_first : (w : List ℕ) (n : ℕ) → 0 < n → get_or (take n w) 0 0 ≡ get_or w 0 0
take_first w zero pos = absurd (omega arith)
take_first [] (suc n) pos = refl
take_first (b ∷ w) (suc n) pos = refl

-- The chain of writes behind the checks.
module _ (pkt : Packet) (buf w : List ℕ) (len : ℕ) where
  open pkt use {version, packet_id, ttl, flags, payload, payload_len}

  -- The payload is copied if there is one.
  last_write :
      (b₄ : List ℕ)
      → 11 ≤ length b₄
      → (if ltb 0 payload_len then memcpy b₄ header_size payload 0 payload_len else some b₄)
        ≡ some w
      → Grew b₄ w (header_size + payload_len)
  last_write b₄ room e = elim (Bool-cases (ltb 0 payload_len)) [
    | inl full ↦ memcpy_inv b₄ payload w 11 payload_len (omega arith) (sym (rw full) ∙ e)
    | inr empty ↦
        let same : some b₄ ≡ some w = sym (rw empty) ∙ e in
        let kept : b₄ ≡ w = cc same in
        record {
          room = ground arith;
          size = ap length (sym kept);
          first = ap (λ x. get_or x 0 0) (sym kept);
        }
  ]

  chain :
      ◌≡◌ {A = Option (Ret (ℕ × List ℕ))}
        (do
          b₁ ← store buf 0 version
          b₂ ← memcpy b₁ 1 packet_id 0 8
          b₃ ← store b₂ 9 ttl
          b₄ ← store b₃ 10 flags
          b₅ ← if ltb 0 payload_len then memcpy b₄ header_size payload 0 payload_len else some b₄
          some (ok (header_size + payload_len, b₅)))
        (some (ok (len, w)))
      → (len ≡ header_size + payload_len)
        × (header_size + payload_len ≤ length w)
        × (get_or w 0 0 ≡ version)
  chain e =
      let (b₁, e₁, r₁) = bind_inv (store buf 0 version) _ _ e in
      let (b₂, e₂, r₂) = bind_inv (memcpy b₁ 1 packet_id 0 8) _ _ r₁ in
      let (b₃, e₃, r₃) = bind_inv (store b₂ 9 ttl) _ _ r₂ in
      let (b₄, e₄, r₄) = bind_inv (store b₃ 10 flags) _ _ r₃ in
      let (b₅, e₅, r₅) =
        bind_inv
          (if ltb 0 payload_len then memcpy b₄ header_size payload 0 payload_len else some b₄) _ _
          r₄ in
      let same : b₅ ≡ w = cc r₅ in
      let total : len ≡ header_size + payload_len = cc r₅ in
      let g₂ = memcpy_inv b₁ packet_id b₂ 1 8 (omega arith) e₂ in
      let g₃ = store_inv b₂ b₃ 9 ttl (omega arith) e₃ in
      let g₄ = store_inv b₃ b₄ 10 flags (omega arith) e₄ in
      let g₅ = last_write b₄ (omega (arith, g₄.room, g₄.size)) (e₅ ∙ ap some same) in
      (
        total,
        omega (arith, g₅.room, g₅.size),
        g₅.first ∙ g₄.first ∙ g₃.first ∙ g₂.first ∙ store_first buf b₁ version e₁,
      )

-- Whatever the packet and the buffer hold, what `vex_packet_encode` writes, when it does not fail, is a frame.
pub encode-IsFrame :
    (pkt : Packet) (buf w : List ℕ) (buf_len len : ℕ)
    → encode pkt buf buf_len ≡ some (ok (len, w))
    → (len ≤ length w) × IsFrame (take len w)
unfolding encode
encode-IsFrame pkt buf w buf_len len e = elim (Bool-cases tests) [
  | inl over ↦
      let same : some err ≡ some (ok (len, w)) = sym (rw (over, encode)) ∙ e in absurd (cc same)
  | inr fits ↦ elim (Bool-cases (pkt.version == vex_version)) [
    | inr other ↦
        let same : some err ≡ some (ok (len, w)) = sym (rw (fits, other, encode)) ∙ e in
        absurd (cc same)
    | inl versioned ↦
        let (total, room, first) = chain pkt buf w len (sym (rw (fits, versioned, encode)) ∙ e) in
        let size : length (take len w) ≡ len = omega (arith, length-take len w, room, total) in
        let head : get_or (take len w) 0 0 ≡ 1 =
          take_first w len (omega (arith, total)) ∙ first ∙ ground arith in
        (
          omega (arith, total, room),
          record {
            small = ground (arith, size, total);
            decodes = ground (arith, size, total, head);
          },
        )
  ]
]
  where
    tests : Bool
    tests =
        ltb buf_len (header_size + pkt.payload_len)
        || ltb max_packet (header_size + pkt.payload_len)
