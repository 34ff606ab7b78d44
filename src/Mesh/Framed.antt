-- ===== src/Mesh/Framed.antt =====
-- What a receiver reads of a frame that a node makes.
use vexconnect.Prelude.{
  ℕ, ◌+◌, ◌≤◌, ◌≡◌, subst, List, [], ◌∷◌, ◌++◌, some, true, arith, length, length-append,
  append-nil,
}
use vexconnect.Node.{Node}
use vexconnect.Nacl.{Nacl}
use vexconnect.Packet.{Packet, max_payload, vex_version, header_size}
use vexconnect.Packet.Decode.{accepts}
use vexconnect.Packet.RoundTrip.{ReadsBack, read_back}
use vexconnect.Crypto.Decrypt.{opened_text}
use vexconnect.System.{displayed}
use vexconnect.Mesh.{until_nul}
use vexconnect.Mesh.Show.{shown}
use vexconnect.Mesh.Send.{framed}

-- What is read of a frame.
pub framed-ReadsBack :
    (node : Node) (id body : List ℕ)
    → length id ≡ 8
    → ReadsBack vex_version node.default_ttl 3 id body (framed node id body) []
framed-ReadsBack node id body e =
    subst (λ z. ReadsBack vex_version node.default_ttl 3 id body (vex_version ∷ z) [])
      (append-nil (id ++ (node.default_ttl ∷ (3 ∷ body))))
      (read_back vex_version node.default_ttl 3 id body [] e)

pub length-framed :
    (node : Node) (id body : List ℕ)
    → length id ≡ 8
    → length (framed node id body) ≡ header_size + length body
length-framed node id body e = omega (arith, length-append id (node.default_ttl ∷ (3 ∷ body)))

pub framed-accepts :
    (node : Node) (id body : List ℕ)
    → length id ≡ 8
    → length body ≤ max_payload
    → accepts (framed node id body) (length (framed node id body)) ≡ true
framed-accepts node id body e small = ground (arith, length-framed node id body e)

pub shown_of :
    (nacl : Nacl) (receiver : Node) (pkt : Packet) (ttl : ℕ) (text : List ℕ)
    → pkt.flags ≡ 3
    → pkt.ttl ≡ ttl
    → opened_text nacl receiver pkt.payload pkt.payload_len ≡ some text
    → shown nacl receiver pkt ≡ displayed (until_nul text) ttl receiver.default_ttl ∷ []
shown_of nacl receiver pkt ttl text f t o = rw (f, o, t)
