-- ===== src/Crypto/Decrypt.antt =====
-- What `vex_crypto_decrypt_broadcast` accepts, and that it undoes the encryption.
use vexconnect.Prelude.{
  ℕ, ◌+◌, ◌-◌, ◌%◌, ◌^◌, ◌≤◌, ◌<◌, ◌≡◌, refl, ap, ◌∙◌, sym, List, [], ◌++◌, Option, none, some, Ret,
  ok, err, arith, length, take, drop, length-append, length-drop, take_prefix, drop_within, leb,
  if◌then◌else◌, false, Bool-cases, inl, inr, drop_all, append-nil,
}
use native.Mathlib.Decide.{dec_lt}
use vexconnect.Prelude.Memory.{
  memcpy, write_at, slice, write_at-append, memcpy-append, memcpy_start, slice_lem,
  length-take-drop,
}
use vexconnect.Packet.{max_payload}
use vexconnect.Node.{Node}
use vexconnect.Nacl.{Nacl, IsNacl}
use vexconnect.System.{Os, IsOs, History, ◌>>=◌}
use vexconnect.Crypto.{decrypt_broadcast, unseal_into, nonce_bytes, zero_bytes, box_zero_bytes}
use vexconnect.Crypto.Encrypt.{zeros}

-- The box that a payload of some bytes carries behind its nonce.
abbrev pub carried : List ℕ → ℕ → List ℕ
carried cipher len = zeros box_zero_bytes ++ take (len - nonce_bytes) (drop nonce_bytes cipher)

-- The text that a payload opens to.
abbrev pub opened_text : Nacl → Node → List ℕ → ℕ → Option (List ℕ)
opened_text nacl node cipher len =
    if leb len nonce_bytes
    then none
    else elim (nacl.secretbox_open (carried cipher len) (take nonce_bytes cipher) node.mesh_key) [
      | none ↦ none
      | some message ↦ some (drop zero_bytes message)
    ]

-- What a decryption reports of a text: it is put at the front of the array.
abbrev pub reported : List ℕ → Option (List ℕ) → Ret (List ℕ × ℕ)
reported plain none = err
reported plain (some text) = ok (text ++ drop (length text) plain, length text)

module _ (padded cipher : List ℕ) (len : ℕ) (size : length padded ≡ 517) (long : nonce_bytes < len)
    (inside : len ≤ length cipher) (small : len ≤ max_payload) where
  pad_zeros :
      write_at padded 0 (zeros box_zero_bytes)
      ≡ some (zeros box_zero_bytes ++ drop box_zero_bytes padded)
  pad_zeros = write_at-append [] padded (zeros box_zero_bytes) 0 refl (omega (arith, size))

  pad_box :
      memcpy
        (zeros box_zero_bytes ++ drop box_zero_bytes padded)
        box_zero_bytes
        cipher
        nonce_bytes
        (len - nonce_bytes)
      ≡ some (carried cipher len ++ drop (len - nonce_bytes) (drop box_zero_bytes padded))
  pad_box =
      memcpy-append (zeros box_zero_bytes) (drop box_zero_bytes padded) cipher box_zero_bytes
        nonce_bytes (len - nonce_bytes) refl (omega arith)
        (omega (arith, size, length-drop box_zero_bytes padded))

  length-carried : length (carried cipher len) ≡ box_zero_bytes + (len - nonce_bytes)
  length-carried = omega (
    arith,
    length-append (zeros box_zero_bytes) (take (len - nonce_bytes) (drop nonce_bytes cipher)),
    length-take-drop cipher nonce_bytes (len - nonce_bytes),
  )

  cut_box :
      slice
        (carried cipher len ++ drop (len - nonce_bytes) (drop box_zero_bytes padded))
        0
        (box_zero_bytes + (len - nonce_bytes))
      ≡ some (carried cipher len)
  cut_box =
      slice_lem _ 0 (box_zero_bytes + (len - nonce_bytes)) (
        omega (
          arith,
          length-append (carried cipher len)
              (drop (len - nonce_bytes) (drop box_zero_bytes padded)),
          length-carried,
        ))
      ∙ ap some (
          take_prefix (box_zero_bytes + (len - nonce_bytes)) (carried cipher len)
            (drop (len - nonce_bytes) (drop box_zero_bytes padded)) (sym length-carried))

unseal_into_lem :
    (decrypted message plain : List ℕ) (ct_len : ℕ)
    → length decrypted ≡ 533
    → length message ≡ box_zero_bytes + ct_len
    → 16 ≤ ct_len
    → ct_len ≤ 477
    → length plain ≡ max_payload
    → unseal_into decrypted message ct_len plain
      ≡ some (reported plain (some (drop zero_bytes message)))
unfolding unseal_into
unseal_into_lem decrypted message plain ct_len d-size m-size low high p-size =
    let n = (ct_len + 2 ^ 16 - 16) % 2 ^ 16 in
    let same : n ≡ length (drop zero_bytes message) =
      omega (arith, length-drop zero_bytes message) in
    rw
      (
        write_at-append [] decrypted message 0 refl (omega arith),
        memcpy_start plain (message ++ drop (length message) decrypted) zero_bytes n
            (omega (arith, length-append message (drop (length message) decrypted))) (omega arith),
        drop_within zero_bytes message (drop (length message) decrypted) (omega arith),
        take_prefix n (drop zero_bytes message) (drop (length message) decrypted) same,
      )
      (ap (λ k. some (ok (drop zero_bytes message ++ drop k plain, k))) same)

-- A payload that lies in its array is decrypted with no access outside an array and no call to the
-- kernel. It is refused if it is no longer than a nonce or its box does not open; otherwise the text of
-- the box is put at the front of the output, and its length reported.
pub decrypt_broadcast_lem :
    (os : Os) (nacl : Nacl) (node : Node) (cipher : List ℕ) (len : ℕ) (plain : List ℕ) (h : History)
    → IsOs os
    → IsNacl nacl
    → len ≤ length cipher
    → len ≤ max_payload
    → length plain ≡ max_payload
    → decrypt_broadcast os nacl node cipher len plain h
      ≡ some (reported plain (opened_text nacl node cipher len), h)
unfolding decrypt_broadcast
decrypt_broadcast_lem os nacl node cipher len plain h v w inside small size =
    elim (Bool-cases (leb len nonce_bytes)) [
      | inl short ↦ rw short
      | inr long ↦
          go (ground arith) long
            (nacl.secretbox_open (carried cipher len) (take nonce_bytes cipher) node.mesh_key) refl
    ]
  where
    padded : List ℕ
    padded = os.uninit h 517

    p-size : length padded ≡ 517
    p-size = v.uninit_size h 517

    ct : (len - nonce_bytes) % 2 ^ 16 ≡ len - nonce_bytes
    ct = omega arith

    n-size : length (os.uninit h nonce_bytes) ≡ nonce_bytes
    n-size = v.uninit_size h nonce_bytes

    nonce_read :
        nonce_bytes < len
        → memcpy (os.uninit h nonce_bytes) 0 cipher 0 nonce_bytes ≡ some (take nonce_bytes cipher)
    nonce_read below =
        memcpy_start (os.uninit h nonce_bytes) cipher 0 nonce_bytes (omega arith)
          (omega (arith, n-size))
        ∙ rw (
          drop_all nonce_bytes (os.uninit h nonce_bytes) (omega (arith, n-size)),
          append-nil (take nonce_bytes cipher),
        )

    -- A box that opens has at least 32 bytes.
    tall :
        nonce_bytes < len
        → (message : List ℕ)
        → nacl.secretbox_open (carried cipher len) (take nonce_bytes cipher) node.mesh_key
          ≡ some message
        → 16 ≤ len - nonce_bytes
    tall below message e = elim (dec_lt (length (carried cipher len)) 32) [
      | yes tiny ↦
          absurd
            (cc (e, w.open_short (carried cipher len) (take nonce_bytes cipher) node.mesh_key tiny))
      | no big ↦ omega (arith, length-carried padded cipher len p-size below inside small)
    ]

    go :
        nonce_bytes < len
        → leb len nonce_bytes ≡ false
        → (r : Option (List ℕ))
        → nacl.secretbox_open (carried cipher len) (take nonce_bytes cipher) node.mesh_key ≡ r
        → decrypt_broadcast os nacl node cipher len plain h
          ≡ some (reported plain (opened_text nacl node cipher len), h)
    go below long none e = rw (
      long,
      nonce_read below,
      pad_zeros padded cipher len p-size below inside small,
      ct,
      pad_box padded cipher len p-size below inside small,
      ct,
      cut_box padded cipher len p-size below inside small,
      e,
      ◌>>=◌,
    )
    go below long (some message) e =
        let m-size : length message ≡ box_zero_bytes + (len - nonce_bytes) =
          w.open_size (carried cipher len) (take nonce_bytes cipher) node.mesh_key message e
          ∙ length-carried padded cipher len p-size below inside small in
        rw (
          long,
          nonce_read below,
          pad_zeros padded cipher len p-size below inside small,
          ct,
          pad_box padded cipher len p-size below inside small,
          ct,
          cut_box padded cipher len p-size below inside small,
          e,
          ct,
          unseal_into_lem (os.uninit h 533) message plain (len - nonce_bytes) (v.uninit_size h 533)
              m-size (tall below message e) (omega arith) size,
          ◌>>=◌,
        )
