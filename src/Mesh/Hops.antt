-- ===== src/Mesh/Hops.antt =====
-- A frame on its way over several relaying nodes.
use vexconnect.Prelude.{
  ℕ, zero, suc, ◌-◌, ◌≤◌, ◌<◌, ◌≡◌, refl, ◌∙◌, ap, ap₂, sym, subst, List, [], ◌∷◌, ◌++◌, Option,
  some, Ret, Bool, true, false, ok, arith, length, length-set, take_all, set, get_or, Bytes,
  Bool-cases, inl, inr, ltb,
}
use vexconnect.Prelude.Int.{ℤ}
use vexconnect.Node.{Node, count_up}
use vexconnect.Nacl.{Nacl, IsNacl}
use vexconnect.Seen
use vexconnect.Seen.{IsCache, recorded}
use vexconnect.Packet.{Packet, max_packet}
use vexconnect.Packet.Decode.{accepts, accepts-Accepted, parsed}
use vexconnect.Transport.Send.{targets, deliveries}
use vexconnect.Transport.Deliver.{WritesWhole}
use vexconnect.System.{Os, IsOs, History, clocked}
use vexconnect.Mesh.{receive}
use vexconnect.Mesh.Relay.{relayed, blank}
use vexconnect.Mesh.Receive.{frame_id}
use vexconnect.Mesh.Show.{shown}
use vexconnect.Mesh.Once.{receive-delivers, receive_expired}

-- The frame after k relays.
abbrev pub hops : ℕ → List ℕ → List ℕ
hops zero frame = frame
hops (suc k) frame = relayed (hops k frame) (length frame)

-- A byte that is set past the first n.
pub get_or-set : (bs : List ℕ) (i b : ℕ) → i < length bs → get_or (set bs i b) i 0 ≡ b
get_or-set [] i b h = absurd (omega arith)
get_or-set (x ∷ bs) zero b h = refl
get_or-set (x ∷ bs) (suc i) b h = get_or-set bs i b (omega arith)

pub set-Bytes : (bs : List ℕ) (i b : ℕ) → b < 256 → Bytes bs → Bytes (set bs i b)
set-Bytes [] i b small c = c
set-Bytes (x ∷ bs) zero b small c = (small, c.1)
set-Bytes (x ∷ bs) (suc i) b small c = (c.0, set-Bytes bs i b small c.1)

set_get : (bs : List ℕ) (i : ℕ) → set bs i (get_or bs i 0) ≡ bs
set_get [] i = refl
set_get (x ∷ bs) zero = refl
set_get (x ∷ bs) (suc i) = ap (◌∷◌ x) (set_get bs i)

set_twice : (bs : List ℕ) (i a b : ℕ) → set (set bs i a) i b ≡ set bs i b
set_twice [] i a b = refl
set_twice (x ∷ bs) zero a b = refl
set_twice (x ∷ bs) (suc i) a b = ap (◌∷◌ x) (set_twice bs i a b)

-- Relays change the TTL byte and nothing else.
pub hops_lem :
    (frame : List ℕ) (k : ℕ) → 9 < length frame → hops k frame ≡ set frame 9 (get_or frame 9 0 - k)
hops_lem frame zero long = sym (ap (set frame 9) zero_off ∙ set_get frame 9)
  where
    zero_off : get_or frame 9 0 - 0 ≡ get_or frame 9 0
    zero_off = omega arith
hops_lem frame (suc k) long =
    let t = get_or frame 9 0 - k in
    rw (hops_lem frame k long, get_or-set frame 9 t long, set_twice frame 9 t (t - 1))
      (take_all (length frame) (set frame 9 (t - 1)) (omega (arith, length-set frame 9 (t - 1)))
        ∙ ap (set frame 9) (omega arith))

-- The packet of a relayed frame is that of the frame, but for its TTL.
pub parsed-set :
    (frame : List ℕ) (len t : ℕ) (old : Packet)
    → 11 ≤ length frame
    → parsed (set frame 9 t) len old ≡ record (parsed frame len old) { ttl = t }
parsed-set (b0 ∷ b1 ∷ b2 ∷ b3 ∷ b4 ∷ b5 ∷ b6 ∷ b7 ∷ b8 ∷ b9 ∷ b10 ∷ rest) len t old long = refl
parsed-set frame len t old long = absurd (omega arith)

pub accepts-set : (frame : List ℕ) (t len : ℕ) → accepts (set frame 9 t) len ≡ accepts frame len
accepts-set [] t len = refl
accepts-set (b ∷ frame) t len = refl

frame_id-set :
    (frame : List ℕ) (t : ℕ) → 11 ≤ length frame → frame_id (set frame 9 t) ≡ frame_id frame
frame_id-set (b0 ∷ b1 ∷ b2 ∷ b3 ∷ b4 ∷ b5 ∷ b6 ∷ b7 ∷ b8 ∷ b9 ∷ b10 ∷ rest) t long = refl
frame_id-set frame t long = absurd (omega arith)

get_or_small : (bs : List ℕ) (i : ℕ) → Bytes bs → get_or bs i 0 < 256
get_or_small [] i c = omega arith
get_or_small (x ∷ bs) zero c = c.0
get_or_small (x ∷ bs) (suc i) c = get_or_small bs i c.1

-- The node and the calls once a packet with an id is handled and shown.
abbrev pub handles : Os → Nacl → Node → List ℕ → Packet → History → Node × History
handles os nacl node id pkt h =
    let n : Node = record node {
      seen = Seen.add (Seen.check node.seen id (os.time h)).1 id (os.time (clocked ∷ h));
      packets_received = count_up node.packets_received;
    } in
    (n, shown nacl n pkt ++ (clocked ∷ clocked ∷ h))

-- The end of a relay's work: the frame goes to the others, or its TTL is used up.
abbrev pub passes : Bool → ℤ → List ℕ → Node × History → Option ((Ret ℕ × Node) × History)
passes true source_fd next (n, h) = some (
  (ok (targets source_fd n.peers), record n { packets_relayed = count_up n.packets_relayed }),
  deliveries source_fd next n.peers h,
)
passes false source_fd next (n, h) = some ((ok 0, n), h)

module _ (os : Os) (nacl : Nacl) (v : IsOs os) (w : IsNacl nacl) (frame : List ℕ) (k : ℕ)
    (node : Node) (source_fd : ℤ) (h : History) where
  -- A frame on its way: the node that gets it after k relays, of which none has changed its id, handles
  -- the packet of the first sender with k taken from its TTL; a relaying node passes it on after k + 1 relays to
  -- each open peer but the source, where the kernel takes every write, as long as the TTL that is left is above 1.
  pub receive-hops :
      IsCache node.seen
      → length frame ≤ max_packet
      → Bytes frame
      → accepts frame (length frame) ≡ true
      → recorded (os.time h) (frame_id frame) node.seen.entries ≡ false
      → node.relay_enabled ≡ true
      → WritesWhole os
      → receive os nacl node (hops k frame) (length frame) source_fd h
        ≡ passes (ltb 1 (get_or frame 9 0 - k)) source_fd (hops (suc k) frame) (
            handles os nacl node
              (frame_id frame)
              (record (parsed frame (length frame) (blank os h)) { ttl = get_or frame 9 0 - k })
              h)
  receive-hops cache small bytes acc new on whole = elim (Bool-cases (ltb 1 left)) [
    | inl alive ↦ rw alive (
        receive-delivers os nacl v w node g (length frame) source_fd h cache inside small clean
          decodes unseen on (ground (arith, timed)) whole
        ∙ same true)
    | inr used ↦ rw used (
        receive_expired os nacl v w node g (length frame) source_fd h cache inside small clean
          decodes unseen on (ground (arith, timed))
        ∙ same false)
  ]
    where
      g : List ℕ
      g = hops k frame

      left : ℕ
      left = get_or frame 9 0 - k

      long : 11 ≤ length frame
      long = (accepts-Accepted frame (length frame) acc).long

      lowered : g ≡ set frame 9 left
      lowered = hops_lem frame k (omega (arith, long))

      timed : get_or g 9 0 ≡ left
      timed = ap (λ b. get_or b 9 0) lowered ∙ get_or-set frame 9 left (omega (arith, long))

      inside : length frame ≤ length g
      inside = omega (arith, ap length lowered, length-set frame 9 left)

      clean : Bytes g
      clean =
          subst Bytes (sym lowered)
            (set-Bytes frame 9 left (omega (arith, get_or_small frame 9 bytes)) bytes)

      decodes : accepts g (length frame) ≡ true
      decodes =
          ap (λ b. accepts b (length frame)) lowered ∙ accepts-set frame left (length frame) ∙ acc

      identified : frame_id g ≡ frame_id frame
      identified = ap frame_id lowered ∙ frame_id-set frame left long

      unseen : recorded (os.time h) (frame_id g) node.seen.entries ≡ false
      unseen = ap (λ i. recorded (os.time h) i node.seen.entries) identified ∙ new

      same :
          (b : Bool)
          → passes b source_fd
              (hops (suc k) frame)
              (handles os nacl node (frame_id g) (parsed g (length frame) (blank os h)) h)
            ≡ passes b source_fd (hops (suc k) frame) (
                handles os nacl node
                  (frame_id frame)
                  (record (parsed frame (length frame) (blank os h)) { ttl = left })
                  h)
      same b =
          ap₂ (λ i p. passes b source_fd (hops (suc k) frame) (handles os nacl node i p h))
            identified
            (ap (λ f. parsed f (length frame) (blank os h)) lowered
              ∙ parsed-set frame (length frame) left (blank os h) long)
