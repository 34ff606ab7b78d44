-- ===== src/Mesh/Across.antt =====
-- A message across a network: from the user of one node to the screen of another, over any relays.
use vexconnect.Prelude.{
  ℕ, ◌-◌, ◌≤◌, ◌<◌, ◌≡◌, ap, ap₂, subst, sym, ◌∙◌, List, [], ◌∷◌, ◌++◌, some, true, false, Ret, ok,
  arith, length, length-set, set, Bytes, if◌then◌else◌,
}
use vexconnect.Prelude.Int.{ℤ}
use vexconnect.Node.{Node}
use vexconnect.Nacl.{Nacl, IsNacl}
use vexconnect.Seen.{IsCache, recorded}
use vexconnect.Packet.{Packet}
use vexconnect.Packet.Decode.{accepts, accepts-Accepted, parsed}
use vexconnect.Crypto.Decrypt.{opened_text}
use vexconnect.Transport.Speaks.{Speaks}
use vexconnect.System.{Os, IsOs, History, displayed, clocked}
use vexconnect.Mesh.{send, receive, relay, max_message, until_nul}
use vexconnect.Mesh.Relay.{blank}
use vexconnect.Mesh.Receive.{frame_id, heard, receive_fresh}
use vexconnect.Mesh.Show.{shown}
use vexconnect.Mesh.Framed.{shown_of}
use vexconnect.Mesh.Hops.{set-Bytes, accepts-set, parsed-set}
use vexconnect.Mesh.Network.{Written, Spreads, Spreads-hops, written-good}
use vexconnect.Mesh.Message.Carried.{Carries, frame, frame-Carries, send-frame}

-- What is written when a message is sent carries it.
Written-Carries :
    (os : Os) (nacl : Nacl) (v : IsOs os) (w : IsNacl nacl) (node node' : Node) (message g : List ℕ)
    (r : Ret ℕ) (h h' : History)
    → length message ≤ max_message
    → Bytes message
    → node.default_ttl < 256
    → send os nacl node message h ≡ some ((r, node'), h')
    → Written g h h'
    → Carries nacl node message g
Written-Carries os nacl v w node node' message g r h h' small clean ttl run wr =
    let (r₁, node₁, h₁, run₁, talk) = send-frame os nacl v w node message h small in
    let ends : h₁ ≡ h' = cc (run₁, run) in
    let f = frame os nacl v w node message h small in
    let same : g ≡ f =
      written-good (λ x. x ≡ f) g wr.fd wr.later wr.before wr.long
        (subst (Speaks (λ x. x ≡ f) h) ends talk) wr.on_wire in
    subst (Carries nacl node message) (sym same)
      (frame-Carries os nacl v w node message h small clean ttl)

module _ (nacl : Nacl) (w : IsNacl nacl) (node : Node) (message g : List ℕ)
    (c : Carries nacl node message g) (k : ℕ) (raw : List ℕ) (spread : Spreads g k raw)
    (ttl : node.default_ttl < 256) where
  long : 11 ≤ length g
  long = (accepts-Accepted g (length g) c.decodes).long

  lowered : raw ≡ set g 9 (node.default_ttl - k)
  lowered =
      (Spreads-hops g raw k (omega (arith, long)) c.small spread).0
      ∙ ap (λ t. set g 9 (t - k)) c.timed

  size : length raw ≡ length g
  size = ap length lowered ∙ length-set g 9 (node.default_ttl - k)

  raw-Bytes : Bytes raw
  raw-Bytes =
      subst Bytes (sym lowered) (set-Bytes g 9 (node.default_ttl - k) (omega (arith, ttl)) c.bytes)

  decodes : accepts raw (length raw) ≡ true
  decodes = ap₂ accepts lowered size ∙ accepts-set g (node.default_ttl - k) (length g) ∙ c.decodes

  arrived :
      (old : Packet)
      → parsed raw (length raw) old
        ≡ record (parsed g (length g) old) { ttl = node.default_ttl - k }
  arrived old =
      ap₂ (λ f n. parsed f n old) lowered size
      ∙ parsed-set g (length g) (node.default_ttl - k) old long

  message_shown :
      (receiver : Node) (old : Packet)
      → receiver.mesh_key ≡ node.mesh_key
      → shown nacl receiver (parsed raw (length raw) old)
        ≡ displayed (until_nul message) (node.default_ttl - k) receiver.default_ttl ∷ []
  message_shown receiver old same =
      shown_of nacl receiver (parsed raw (length raw) old) (node.default_ttl - k) message
        (ap (λ p. p.flags) (arrived old) ∙ c.flagged) (ap (λ p. p.ttl) (arrived old))
        (ap (λ p. opened_text nacl receiver p.payload p.payload_len) (arrived old)
          ∙ c.opens receiver old same)

-- What a node does with what comes of a frame that carries a message, when the id is new to it.
pub receive-Carries :
    (os' : Os) (nacl : Nacl) (node receiver : Node) (message g raw : List ℕ) (k : ℕ) (fd : ℤ)
    (h₂ : History)
    → IsOs os'
    → IsNacl nacl
    → Carries nacl node message g
    → node.default_ttl < 256
    → Spreads g k raw
    → receiver.mesh_key ≡ node.mesh_key
    → IsCache receiver.seen
    → recorded (os'.time h₂) (frame_id raw) receiver.seen.entries ≡ false
    → receive os' nacl receiver raw (length raw) fd h₂ ≡ (
        let now = heard os' receiver raw h₂ in
        let later =
          displayed (until_nul message) (node.default_ttl - k) receiver.default_ttl
          ∷ clocked
          ∷ clocked
          ∷ h₂ in
        if receiver.relay_enabled
        then relay os' now raw (length raw) fd later
        else some ((ok 0, now), later))
receive-Carries os' nacl node receiver message g raw k fd h₂ v' w c ttl spread same cache new =
    receive_fresh os' nacl v' w receiver raw (length raw) fd h₂ cache (omega arith)
      (omega (arith, size nacl w node message g c k raw spread ttl, c.small))
      (raw-Bytes nacl w node message g c k raw spread ttl)
      (decodes nacl w node message g c k raw spread ttl) new
    ∙ ap
        (λ events.
          if receiver.relay_enabled
          then relay os' (heard os' receiver raw h₂) raw (length raw) fd
              (events ++ (clocked ∷ clocked ∷ h₂))
          else some ((ok 0, heard os' receiver raw h₂), events ++ (clocked ∷ clocked ∷ h₂)))
        (message_shown nacl w node message g c k raw spread ttl (heard os' receiver raw h₂)
          (blank os' h₂) same)

-- A message reaches any screen of the network: it is sent, on any kernel; a frame that is written then goes over k
-- relays, on any kernels and in any states; and a node with the same mesh key gets what has come of it,
-- with an id that it has not recorded. It shows the message as it was typed, up to a zero byte, with k taken from
-- the sender's TTL, and passes the frame on if it relays.
pub receive-send :
    (os os' : Os) (nacl : Nacl) (node node' receiver : Node) (message g raw : List ℕ) (r : Ret ℕ)
    (k : ℕ) (fd : ℤ) (h h' h₂ : History)
    → IsOs os
    → IsOs os'
    → IsNacl nacl
    → length message ≤ max_message
    → Bytes message
    → node.default_ttl < 256
    → send os nacl node message h ≡ some ((r, node'), h')
    → Written g h h'
    → Spreads g k raw
    → receiver.mesh_key ≡ node.mesh_key
    → IsCache receiver.seen
    → recorded (os'.time h₂) (frame_id raw) receiver.seen.entries ≡ false
    → receive os' nacl receiver raw (length raw) fd h₂ ≡ (
        let now = heard os' receiver raw h₂ in
        let later =
          displayed (until_nul message) (node.default_ttl - k) receiver.default_ttl
          ∷ clocked
          ∷ clocked
          ∷ h₂ in
        if receiver.relay_enabled
        then relay os' now raw (length raw) fd later
        else some ((ok 0, now), later))
receive-send os os' nacl node node' receiver message g raw r k fd h h' h₂ v v' w small clean ttl run
      wr spread same cache new =
    receive-Carries os' nacl node receiver message g raw k fd h₂ v' w
      (Written-Carries os nacl v w node node' message g r h h' small clean ttl run wr) ttl spread
      same cache new
