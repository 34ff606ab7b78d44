-- ===== src/Mesh/Network.antt =====
-- A frame in a network of nodes: any node, on any kernel, in any state, gets a frame at any time, as
-- often as may be.
use vexconnect.Prelude.{
  ℕ, suc, ◌-◌, ◌≤◌, ◌<◌, ◌≡◌, ◌⊎◌, refl, sym, ap, subst, ◌∙◌, List, [], ◌∷◌, ◌++◌, some, Ret, ok,
  err, true, false, Bool, ap₂, Bool-cases, inl, inr, arith, length, length-take, length-set,
  length-append, take, drop, take_prefix, set, get_or, if◌then◌else◌,
}
use vexconnect.Prelude.Int.{ℤ}
use vexconnect.Node.{Node}
use vexconnect.Nacl.{Nacl}
use vexconnect.Packet.{decode, encode, max_packet}
use vexconnect.Packet.Decode.{accepts, parsed, decode_lem}
use vexconnect.Packet.RoundTrip.{encode-parsed}
use vexconnect.System.{Os, IsOs, History, Event, wrote}
use vexconnect.Transport.{frame_header}
use vexconnect.Transport.Speaks.{Speaks, Finds, silent, quiet, framed, cut, IsQuiet}
use vexconnect.Mesh.{receive}
use vexconnect.Mesh.Relay.{relayed}
use vexconnect.Mesh.Hops.{hops, hops_lem, get_or-set}
use vexconnect.Mesh.Wire.{Passes, receive-Makes}

-- A frame is written between two times: more than the two bytes of a length.
pub record Written (g : List ℕ) (h h' : History) : Type 0 where
  pub fd : ℤ
  pub later : List Event
  pub before : List Event
  pub on_wire : h' ≡ later ++ (wrote fd g ∷ (before ++ h))
  pub long : 2 < length g

-- The frames that come of a frame f after k relays.
pub data Spreads (f : List ℕ) : ℕ → List ℕ → Type 0 where
  origin : Spreads f 0 f
  hop :
      (k : ℕ) (raw g : List ℕ) (os : Os) (nacl : Nacl) (node node' : Node) (r : Ret ℕ) (fd : ℤ)
      (h h' : History)
      → IsOs os
      → Spreads f k raw
      → receive os nacl node raw (length raw) fd h ≡ some ((r, node'), h')
      → Written g h h'
      → Spreads f (suc k) g

-- What is written is a frame of Q.
pub written-good :
    (Q : List ℕ → Type 0) {h h' : History} (g : List ℕ) (fd : ℤ) (later before : List Event)
    → 2 < length g
    → Speaks Q h h'
    → h' ≡ later ++ (wrote fd g ∷ (before ++ h))
    → Q g
written-good Q {h = h} g fd later before long silent e = absurd (
    omega (
      arith,
      ap length e,
      length-append later (wrote fd g ∷ (before ++ h)),
      length-append before h,
    ))
written-good Q g fd [] before long (quiet e₁ q s) e =
    let same : e₁ ≡ wrote fd g = cc e in absurd (subst IsQuiet same q)
written-good Q g fd (x ∷ later) before long (quiet e₁ q s) e =
    written-good Q g fd later before long s (cc e)
written-good Q g fd [] before long (framed fd' f good s) e =
    let same : f ≡ g = cc e in subst Q same good
written-good Q g fd (x ∷ []) before long (framed fd' f good s) e =
    let same : frame_header (length f) ≡ g = cc e in absurd (omega (arith, ap length same, long))
written-good Q g fd (x ∷ y ∷ later) before long (framed fd' f good s) e =
    written-good Q g fd later before long s (cc e)
written-good Q g fd [] before long (cut fd' f good s) e = absurd (cc e)
written-good Q g fd (x ∷ []) before long (cut fd' f good s) e =
    let same : frame_header (length f) ≡ g = cc e in absurd (omega (arith, ap length same, long))
written-good Q g fd (x ∷ y ∷ later) before long (cut fd' f good s) e =
    written-good Q g fd later before long s (cc e)

-- What a relay may make of a frame.
abbrev Lowers : List ℕ → List ℕ → Type 0
Lowers raw g = (g ≡ relayed raw (length raw)) × (1 < get_or raw 9 0)

Passes-Lowers : (raw : List ℕ) → length raw ≤ max_packet → Passes (Lowers raw) raw (length raw)
Passes-Lowers raw small old pkt is e alive buf w n size enc =
    elim (Bool-cases (accepts raw (length raw))) [
      | inl acc ↦
          let same : parsed raw (length raw) old ≡ pkt = cc (sym (run true acc) ∙ e) in
          let made : some (ok (length raw, relayed raw (length raw) ++ drop (length raw) buf))
              ≡ some (ok (n, w)) =
            sym (
              encode-parsed raw buf (length raw) (get_or raw 9 0 - 1) old is acc small (omega arith)
                size)
            ∙ ap (λ p. encode (record p { ttl = p.ttl - 1 }) buf max_packet) same
            ∙ enc in
          let len : length raw ≡ n = cc made in
          let whole : relayed raw (length raw) ++ drop (length raw) buf ≡ w = cc made in
          (
            ap₂ take (sym len) (sym whole)
                ∙ take_prefix (length raw) (relayed raw (length raw)) (drop (length raw) buf) (
                    omega (
                      arith,
                      length-take (length raw) (set raw 9 (get_or raw 9 0 - 1)),
                      length-set raw 9 (get_or raw 9 0 - 1),
                    )),
            omega (arith, ap (λ p. p.ttl) same, alive),
          )
      | inr rej ↦ absurd (cc (sym (run false rej) ∙ e))
    ]
  where
    run :
        (b : Bool)
        → accepts raw (length raw) ≡ b
        → decode raw (length raw) old ≡ some (if b then ok (parsed raw (length raw) old) else err)
    run b t =
        decode_lem raw (length raw) old is (omega arith)
        ∙ ap (λ b. some (if b then ok (parsed raw (length raw) old) else err)) t

-- What a node writes of a frame that it gets.
one_hop :
    (raw g : List ℕ) (os : Os) (nacl : Nacl) (node node' : Node) (r : Ret ℕ) (fd : ℤ)
    (h h' : History)
    → IsOs os
    → length raw ≤ max_packet
    → receive os nacl node raw (length raw) fd h ≡ some ((r, node'), h')
    → Written g h h'
    → Lowers raw g
one_hop raw g os nacl node node' r fd h h' v small run wr =
    written-good (Lowers raw) g wr.fd wr.later wr.before wr.long
      (subst (Finds (Lowers raw) h) run (
        (receive-Makes (Lowers raw) os v nacl node raw (length raw) fd (Passes-Lowers raw small)).at
          h))
      wr.on_wire

spread :
    (f : List ℕ) {k : ℕ} {g : List ℕ}
    → 9 < length f
    → length f ≤ max_packet
    → Spreads f k g
    → (g ≡ hops k f) × ((k ≡ 0) ⊎ (k < get_or f 9 0))
spread f long small origin = (refl, inl refl)
spread f long small (hop k raw g os nacl node node' r fd h h' v s run wr) =
    let (same, alive) = spread f long small s in
    let lowered : raw ≡ set f 9 (get_or f 9 0 - k) = same ∙ hops_lem f k long in
    let size : length raw ≡ length f = ap length lowered ∙ length-set f 9 (get_or f 9 0 - k) in
    let left : get_or raw 9 0 ≡ get_or f 9 0 - k =
      ap (λ b. get_or b 9 0) lowered ∙ get_or-set f 9 (get_or f 9 0 - k) long in
    let (next, more) =
      one_hop raw g os nacl node node' r fd h h' v (omega (arith, size, small)) run wr in
    (next ∙ ap₂ relayed same size, inr (omega (arith, left, more)))

-- However a frame spreads over a network, whatever nodes get it, in whatever states and at whatever
-- times, and whatever their kernels answer: what comes of it after k relays is the frame with k taken from its
-- TTL byte and nothing else changed, and k, if it is not 0, is below the TTL that the frame began with.
pub Spreads-hops :
    (f g : List ℕ) (k : ℕ)
    → 9 < length f
    → length f ≤ max_packet
    → Spreads f k g
    → (g ≡ set f 9 (get_or f 9 0 - k)) × ((k ≡ 0) ⊎ (k < get_or f 9 0))
Spreads-hops f g k long small s =
    let (same, alive) = spread f long small s in (same ∙ hops_lem f k long, alive)
