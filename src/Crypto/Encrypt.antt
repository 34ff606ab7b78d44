-- ===== src/Crypto/Encrypt.antt =====
-- What `vex_crypto_encrypt_broadcast` produces.
use vexconnect.Prelude.{
  ℕ, ◌+◌, ◌-◌, ◌≤◌, ◌≡◌, refl, ap, ap₂, ◌∙◌, sym, List, [], ◌++◌, some, ok, arith, replicate,
  length, take, drop, length-append, length-take, length-drop, drop-drop, take_prefix, drop_within,
  take_all, le→ltb,
}
use vexconnect.Prelude.Memory.{
  memcpy, write_at, slice, write_at-append, memcpy-append, memcpy_start, slice_lem,
}
use vexconnect.Packet.{max_payload}
use vexconnect.Node.{Node}
use vexconnect.Nacl.{Nacl, IsNacl}
use vexconnect.System.{Os, IsOs, History, ◌>>=◌}
use vexconnect.Util.{randombytes}
use vexconnect.Util.Random.{randombytes-RunsTo}
use vexconnect.Crypto.{
  encrypt_broadcast, seal_into, max_plain, nonce_bytes, zero_bytes, box_zero_bytes,
}

-- 32 or 16 zero bytes, as NaCl wants them in front.
abbrev pub zeros : ℕ → List ℕ
zeros n = replicate n 0

-- The array that holds the message: zero bytes, then the text.
module _ (padded plain : List ℕ) (len : ℕ) (size : length padded ≡ 533) (small : len ≤ max_plain)
    (inside : len ≤ length plain) where
  pad_zeros :
      write_at padded 0 (zeros zero_bytes) ≡ some (zeros zero_bytes ++ drop zero_bytes padded)
  pad_zeros = write_at-append [] padded (zeros zero_bytes) 0 refl (omega (arith, size))

  pad_text :
      memcpy (zeros zero_bytes ++ drop zero_bytes padded) zero_bytes plain 0 len
      ≡ some ((zeros zero_bytes ++ take len plain) ++ drop len (drop zero_bytes padded))
  pad_text =
      memcpy-append (zeros zero_bytes) (drop zero_bytes padded) plain zero_bytes 0 len refl
        (omega arith) (omega (arith, size, length-drop zero_bytes padded))

  length-message : length (zeros zero_bytes ++ take len plain) ≡ zero_bytes + len
  length-message =
      omega (arith, length-append (zeros zero_bytes) (take len plain), length-take len plain)

  cut_message :
      slice
        ((zeros zero_bytes ++ take len plain) ++ drop len (drop zero_bytes padded))
        0
        (zero_bytes + len)
      ≡ some (zeros zero_bytes ++ take len plain)
  cut_message =
      slice_lem _ 0 (zero_bytes + len) (
        omega (
          arith,
          length-append (zeros zero_bytes ++ take len plain) (drop len (drop zero_bytes padded)),
          length-message,
        ))
      ∙ ap some (
          take_prefix (zero_bytes + len) (zeros zero_bytes ++ take len plain)
            (drop len (drop zero_bytes padded)) (sym length-message))

-- The nonce and the box, put together in the output.
seal_into_lem :
    (nonce encrypted box cipher : List ℕ) (len : ℕ)
    → length nonce ≡ nonce_bytes
    → length encrypted ≡ 533
    → length box ≡ zero_bytes + len
    → length cipher ≡ max_payload
    → len ≤ max_plain
    → seal_into nonce encrypted box len cipher
      ≡ some (ok ((nonce ++ drop box_zero_bytes box) ++ drop (len + 40) cipher, len + 40))
unfolding seal_into
seal_into_lem nonce encrypted box cipher len n-size e-size b-size c-size small =
    rw
      (
        write_at-append [] encrypted box 0 refl (omega arith),
        memcpy_start cipher nonce 0 nonce_bytes (omega arith) (omega arith),
        take_all nonce_bytes nonce (omega arith),
        memcpy-append nonce (drop nonce_bytes cipher) (box ++ drop (length box) encrypted)
            nonce_bytes box_zero_bytes (len + zero_bytes - box_zero_bytes) (sym n-size)
            (omega (arith, length-append box (drop (length box) encrypted)))
            (omega (arith, length-drop nonce_bytes cipher)),
        drop_within box_zero_bytes box (drop (length box) encrypted) (omega arith),
        take_prefix (len + zero_bytes - box_zero_bytes) (drop box_zero_bytes box)
            (drop (length box) encrypted) (omega (arith, length-drop box_zero_bytes box)),
        drop-drop (len + zero_bytes - box_zero_bytes) nonce_bytes cipher,
      )
      (ap₂ (λ a b. some (ok ((nonce ++ drop box_zero_bytes box) ++ drop a cipher, b))) (omega arith)
        (omega arith))

-- A broadcast that was encrypted: how the output is made up.
pub record Encrypted (os : Os) (nacl : Nacl) (node : Node) (plain : List ℕ) (len : ℕ)
    (cipher : List ℕ) (h : History) : Type 0 where
  pub nonce : List ℕ
  pub box : List ℕ
  pub h' : History
  pub runs :
      encrypt_broadcast os nacl node plain len cipher h
      ≡ some (ok ((nonce ++ drop box_zero_bytes box) ++ drop (len + 40) cipher, len + 40), h')
  pub drawn : randombytes os (os.uninit h nonce_bytes) nonce_bytes h ≡ some (nonce, h')
  pub nonce_size : length nonce ≡ nonce_bytes
  pub box_size : length box ≡ zero_bytes + len
  pub boxed : nacl.secretbox (zeros zero_bytes ++ take len plain) nonce node.mesh_key ≡ some box

encrypt_run :
    (os : Os) (nacl : Nacl) (node : Node) (plain : List ℕ) (len : ℕ) (cipher : List ℕ) (h : History)
    (nonce box : List ℕ) (h' : History)
    → IsOs os
    → len ≤ max_plain
    → len ≤ length plain
    → length cipher ≡ max_payload
    → randombytes os (os.uninit h nonce_bytes) nonce_bytes h ≡ some (nonce, h')
    → length nonce ≡ nonce_bytes
    → length box ≡ zero_bytes + len
    → nacl.secretbox (zeros zero_bytes ++ take len plain) nonce node.mesh_key ≡ some box
    → encrypt_broadcast os nacl node plain len cipher h
      ≡ some (ok ((nonce ++ drop box_zero_bytes box) ++ drop (len + 40) cipher, len + 40), h')
unfolding encrypt_broadcast
encrypt_run os nacl node plain len cipher h nonce box h' v small inside size drawn n-size b-size
      boxed =
    let padded = os.uninit h (zero_bytes + max_payload) in
    let p-size : length padded ≡ 533 = v.uninit_size h 533 in
    rw (
      le→ltb max_plain len small,
      drawn,
      pad_zeros padded plain len p-size small inside,
      pad_text padded plain len p-size small inside,
      cut_message padded plain len p-size small inside,
      boxed,
      seal_into_lem nonce padded box cipher len n-size p-size b-size size small,
      ◌>>=◌,
    )

-- A text of at most 461 bytes is encrypted with no access outside an array: the output is the nonce and
-- the box of the text without its zero bytes, 40 bytes longer than the text.
pub encrypt_broadcast-Encrypted :
    (os : Os) (nacl : Nacl) (node : Node) (plain : List ℕ) (len : ℕ) (cipher : List ℕ) (h : History)
    → IsOs os
    → IsNacl nacl
    → len ≤ max_plain
    → len ≤ length plain
    → length cipher ≡ max_payload
    → Encrypted os nacl node plain len cipher h
encrypt_broadcast-Encrypted os nacl node plain len cipher h v w small inside size =
    let p-size = v.uninit_size h (zero_bytes + max_payload) in
    let (nonce, h', drawn, full) =
      randombytes-RunsTo os (os.uninit h nonce_bytes) nonce_bytes h v
        (omega (arith, v.uninit_size h nonce_bytes)) in
    let n-size : length nonce ≡ nonce_bytes = full ∙ v.uninit_size h nonce_bytes in
    let message = zeros zero_bytes ++ take len plain in
    let m-size =
      length-message (os.uninit h (zero_bytes + max_payload)) plain len p-size small inside in
    let (box, boxed) = w.box_made message nonce node.mesh_key (omega (arith, m-size)) in
    let b-size : length box ≡ zero_bytes + len =
      w.box_size message nonce node.mesh_key box boxed ∙ m-size in
    record {
      nonce = nonce;
      box = box;
      h' = h';
      runs =
          encrypt_run os nacl node plain len cipher h nonce box h' v small inside size drawn n-size
            b-size boxed;
      drawn = drawn;
      nonce_size = n-size;
      box_size = b-size;
      boxed = boxed;
    }
