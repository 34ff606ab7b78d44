-- ===== src/Mesh/Show.antt =====
-- The part of `vex_mesh_receive` that shows a message.
use vexconnect.Prelude.{
  ℕ, ◌+◌, ◌-◌, ◌%◌, ◌≤◌, ◌<◌, ◌≡◌, refl, ◌∙◌, ap, List, [], ◌∷◌, ◌++◌, Option, none, some, true,
  false, leb, ◌==◌, arith, length, take, drop, if◌then◌else◌, append_assoc, length-append,
  length-drop, drop-drop, Bool-cases, inl, inr, bit_and,
}
use vexconnect.Prelude.Memory.{store, store-append, low_bit, length-take-drop}
use vexconnect.Node.{Node}
use vexconnect.Nacl.{Nacl, IsNacl}
use vexconnect.Packet.{Packet, max_payload, flag_encrypted}
use vexconnect.Crypto.{decrypt_broadcast, max_plain, nonce_bytes, box_zero_bytes, zero_bytes}
use vexconnect.Crypto.Encrypt.{zeros}
use vexconnect.Crypto.Decrypt.{opened_text, carried, reported, decrypt_broadcast_lem}
use vexconnect.System.{Os, IsOs, History, Event, displayed, ◌>>=◌, ◌>>◌}
use vexconnect.Mesh.{show_payload, until_nul}

-- What is shown of a packet: its text, if it is marked as encrypted and opens.
abbrev pub shown : Nacl → Node → Packet → List Event
shown nacl node pkt =
    if pkt.flags % 2 == 0 then [] else elim (opened_text nacl node pkt.payload pkt.payload_len) [
      | none ↦ []
      | some text ↦ displayed (until_nul text) pkt.ttl node.default_ttl ∷ []
    ]

pub until_nul-stop : (text rest : List ℕ) → until_nul (text ++ (0 ∷ rest)) ≡ until_nul text
until_nul-stop [] rest = refl
until_nul-stop (b ∷ text) rest = ap (λ z. if b == 0 then [] else b ∷ z) (until_nul-stop text rest)

module _ (nacl : Nacl) (node : Node) (cipher : List ℕ) (len : ℕ) where
  opened_none : leb len nonce_bytes ≡ true → opened_text nacl node cipher len ≡ none
  opened_none short = rw short

  opened_by :
      leb len nonce_bytes ≡ false
      → (r : Option (List ℕ))
      → nacl.secretbox_open (carried cipher len) (take nonce_bytes cipher) node.mesh_key ≡ r
      → opened_text nacl node cipher len
        ≡ elim r [ none ↦ none | some m ↦ some (drop zero_bytes m) ]
  opened_by long r d = rw (long, d)

  -- A text that is opened fits its array with a byte to spare.
  pub opened_small :
      IsNacl nacl
      → len ≤ length cipher
      → len ≤ max_payload
      → (text : List ℕ) → opened_text nacl node cipher len ≡ some text
      → length text ≤ max_plain
  opened_small w inside small text f = elim (Bool-cases (leb len nonce_bytes)) [
    | inl short ↦ absurd (cc (f, opened_none short))
    | inr long ↦
        go long (nacl.secretbox_open (carried cipher len) (take nonce_bytes cipher) node.mesh_key)
          refl
  ]
    where
      go :
          leb len nonce_bytes ≡ false
          → (r : Option (List ℕ))
          → nacl.secretbox_open (carried cipher len) (take nonce_bytes cipher) node.mesh_key ≡ r
          → length text ≤ max_plain
      go long none d = absurd (cc (f, opened_by long none d))
      go long (some m) d =
          let below : nonce_bytes < len = ground arith in
          let same : text ≡ drop zero_bytes m = cc (f, opened_by long (some m) d) in
          omega (
            arith,
            ap length same,
            length-drop zero_bytes m,
            w.open_size (carried cipher len) (take nonce_bytes cipher) node.mesh_key m d,
            length-append (zeros box_zero_bytes)
                (take (len - nonce_bytes) (drop nonce_bytes cipher)),
            length-take-drop cipher nonce_bytes (len - nonce_bytes),
          )

module _ (os : Os) (nacl : Nacl) (v : IsOs os) (w : IsNacl nacl) (node : Node) (pkt : Packet)
    (h : History) (size : length pkt.payload ≡ max_payload) (small : pkt.payload_len ≤ max_payload)
    (byte : pkt.flags < 256) where
  plain : List ℕ
  plain = os.uninit h max_payload

  show_text :
      (text : List ℕ)
      → length text ≤ max_plain
      → store (text ++ drop (length text) plain) (length text) 0
        ≡ some (text ++ (0 ∷ drop (length text + 1) plain))
  unfolding plain
  show_text text fits = rw (
    store-append text (drop (length text) plain) (length text) 0 refl
        (omega (arith, length-drop (length text) plain, v.uninit_size h max_payload)),
    append_assoc text (0 ∷ []),
    drop-drop 1 (length text) plain,
  )

  flag : bit_and pkt.flags flag_encrypted ≡ pkt.flags % 2
  flag = low_bit pkt.flags byte

  decrypted :
      (o : Option (List ℕ))
      → opened_text nacl node pkt.payload pkt.payload_len ≡ o
      → decrypt_broadcast os nacl node pkt.payload pkt.payload_len plain h
        ≡ some (reported plain o, h)
  unfolding plain
  decrypted o e =
      decrypt_broadcast_lem os nacl node pkt.payload pkt.payload_len plain h v w
        (omega (arith, size)) small (v.uninit_size h max_payload)
      ∙ ap (λ t. some (reported plain t, h)) e

  show_opened :
      (o : Option (List ℕ))
      → opened_text nacl node pkt.payload pkt.payload_len ≡ o
      → (pkt.flags % 2 == 0) ≡ false
      → show_payload os nacl node pkt h
        ≡ some (
          tt,
          elim o [
            | none ↦ []
            | some text ↦ displayed (until_nul text) pkt.ttl node.default_ttl ∷ []
          ]
              ++ h,
        )
  unfolding show_payload plain
  show_opened none e odd = rw (flag, odd, decrypted none e, ◌>>=◌)
  show_opened (some text) e odd = rw (
    flag,
    odd,
    decrypted (some text) e,
    show_text text
        (opened_small nacl node pkt.payload pkt.payload_len w (omega (arith, size)) small text e),
    until_nul-stop text (drop (length text + 1) plain),
    ◌>>=◌,
    ◌>>◌,
  )

  -- Showing a packet has no access outside an array. It prints the text that the payload opens to, up to
  -- its first zero, if the packet is marked as encrypted and opens, and makes no other call.
  pub show_payload_lem : show_payload os nacl node pkt h ≡ some (tt, shown nacl node pkt ++ h)
  unfolding show_payload plain
  show_payload_lem = elim (Bool-cases (pkt.flags % 2 == 0)) [
    | inl even ↦ rw (flag, even)
    | inr odd ↦ show_opened (opened_text nacl node pkt.payload pkt.payload_len) refl odd ∙ rw odd
  ]
