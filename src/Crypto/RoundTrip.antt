-- ===== src/Crypto/RoundTrip.antt =====
-- Decryption undoes encryption.
use vexconnect.Prelude.{
  ℕ, ◌+◌, ◌-◌, ◌≤◌, ◌≡◌, refl, ap, ◌∙◌, sym, List, ◌++◌, some, ok, arith, length, take, drop,
  length-append, length-take, length-drop, append_assoc, take_prefix, drop_prefix, leb, false,
  take-append-drop,
}
use vexconnect.Packet.{max_payload}
use vexconnect.Node.{Node}
use vexconnect.Nacl.{Nacl, IsNacl}
use vexconnect.System.{Os, IsOs, History}
use vexconnect.Crypto.Decrypt.{carried, opened_text, reported, decrypt_broadcast_lem}
use vexconnect.Crypto.{
  encrypt_broadcast, decrypt_broadcast, max_plain, nonce_bytes, zero_bytes, box_zero_bytes,
}
use vexconnect.Crypto.Encrypt.{zeros, Encrypted, encrypt_broadcast-Encrypted}

module _ (nonce box rest : List ℕ) (len : ℕ) (n-size : length nonce ≡ nonce_bytes)
    (b-size : length box ≡ zero_bytes + len)
    (b-zeros : take box_zero_bytes box ≡ zeros box_zero_bytes) where
  payload : List ℕ
  payload = (nonce ++ drop box_zero_bytes box) ++ rest

  nonce_of_payload : take nonce_bytes payload ≡ nonce
  unfolding payload
  nonce_of_payload =
      rw (append_assoc nonce (drop box_zero_bytes box) rest)
        (take_prefix nonce_bytes nonce (drop box_zero_bytes box ++ rest) (sym n-size))

  carried-payload : carried payload (len + 40) ≡ box
  unfolding payload
  carried-payload =
      rw
        (
          append_assoc nonce (drop box_zero_bytes box) rest,
          drop_prefix nonce_bytes nonce (drop box_zero_bytes box ++ rest) (sym n-size),
          take_prefix (len + 40 - nonce_bytes) (drop box_zero_bytes box) rest
              (omega (arith, length-drop box_zero_bytes box, b-size)),
        )
        (ap (λ z. z ++ drop box_zero_bytes box) (sym b-zeros) ∙ take-append-drop box_zero_bytes box)

-- A sealed text, at the front of an array, opens with the same key.
pub opened-sealed :
    (os : Os) (nacl : Nacl) (sender receiver : Node) (text cipher rest : List ℕ) (len : ℕ)
    (h : History)
    → IsNacl nacl
    → receiver.mesh_key ≡ sender.mesh_key
    → len ≤ max_plain
    → (e : Encrypted os nacl sender text len cipher h)
    → opened_text nacl receiver ((e.nonce ++ drop box_zero_bytes e.box) ++ rest) (len + 40)
      ≡ some (take len text)
unfolding payload
opened-sealed os nacl sender receiver text cipher rest len h w same small e =
    let b-zeros : take box_zero_bytes e.box ≡ zeros box_zero_bytes =
      w.box_zeros _ e.nonce sender.mesh_key e.box e.boxed in
    let tall : leb (len + 40) nonce_bytes ≡ false = ground arith in
    rw (
      tall,
      carried-payload e.nonce e.box rest len e.nonce_size e.box_size b-zeros,
      nonce_of_payload e.nonce e.box rest len e.nonce_size e.box_size b-zeros,
      same,
      w.open_box (zeros zero_bytes ++ take len text) e.nonce sender.mesh_key e.box refl e.boxed,
    )

-- What one node encrypts, every node with the same mesh key decrypts: the payload that is made of a text
-- of at most 461 bytes is 40 bytes longer, fits the payload array, and is decrypted to that text, at the
-- front of the output, and to its length.
pub decrypt-encrypt :
    (os : Os) (nacl : Nacl) (sender receiver : Node) (text cipher plain : List ℕ) (len : ℕ)
    (h later : History)
    → IsOs os
    → IsNacl nacl
    → receiver.mesh_key ≡ sender.mesh_key
    → len ≤ max_plain
    → len ≤ length text
    → length cipher ≡ max_payload
    → length plain ≡ max_payload
    → (payload : List ℕ) × (h' : History) × (encrypt_broadcast os nacl sender text len cipher h
        ≡ some (ok (payload, len + 40), h'))
      × (length payload ≡ max_payload)
      × (decrypt_broadcast os nacl receiver payload (len + 40) plain later
          ≡ some (ok (take len text ++ drop len plain, len), later))
decrypt-encrypt os nacl sender receiver text cipher plain len h later v w same small inside c-size
      p-size =
    (
      whole,
      e.h',
      e.runs,
      size,
      decrypt_broadcast_lem os nacl receiver whole (len + 40) plain later v w (omega (arith, size))
            (omega arith) p-size
          ∙ (ap (λ t. some (reported plain t, later)) opened
              ∙ ap (λ k. some (ok (take len text ++ drop k plain, k), later))
                  (omega (arith, length-take len text))),
    )
  where
    e : Encrypted os nacl sender text len cipher h
    e = encrypt_broadcast-Encrypted os nacl sender text len cipher h v w small inside c-size

    rest : List ℕ
    rest = drop (len + 40) cipher

    whole : List ℕ
    whole = (e.nonce ++ drop box_zero_bytes e.box) ++ rest

    size : length whole ≡ max_payload
    size = omega (
      arith,
      length-append (e.nonce ++ drop box_zero_bytes e.box) rest,
      length-append e.nonce (drop box_zero_bytes e.box),
      length-drop box_zero_bytes e.box,
      length-drop (len + 40) cipher,
      e.nonce_size,
      e.box_size,
    )

    opened : opened_text nacl receiver whole (len + 40) ≡ some (take len text)
    opened = opened-sealed os nacl sender receiver text cipher rest len h w same small e
