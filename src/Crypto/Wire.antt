-- ===== src/Crypto/Wire.antt =====
-- Keys and boxes: nothing is written to a socket.
use vexconnect.Prelude.{
  ℕ, ◌+◌, ◌-◌, ◌%◌, ◌^◌, ltb, leb, if◌then◌else◌, replicate, List, Option, none, some, err, Ret,
}
use vexconnect.Prelude.Memory.{memcpy, write_at, slice}
use vexconnect.Packet.{max_payload}
use vexconnect.Node.{Node}
use vexconnect.Nacl.{Nacl}
use vexconnect.System.{Os, Io, ◌>>=◌, return, lift}
use vexconnect.Util.{randombytes}
use vexconnect.Util.Wire.{randombytes-Makes}
use vexconnect.Transport.Speaks.{Makes, Makes-bind, Makes-bind_lift, Makes-if, makes_rules}
use vexconnect.Crypto.{
  sign_keypair, box_keypair, init, encrypt_broadcast, decrypt_broadcast, seal_into, nonce_bytes,
  zero_bytes, box_zero_bytes, max_plain, unseal_into,
}

module _ {Q : List ℕ → Type 0} (os : Os) (nacl : Nacl) where
  sign_keypair-Makes : Makes Q (sign_keypair os nacl)
  unfolding sign_keypair
  sign_keypair-Makes = search (makes_rules, randombytes-Makes)

  pub box_keypair-Makes : Makes Q (box_keypair os nacl)
  unfolding box_keypair
  box_keypair-Makes = search (makes_rules, randombytes-Makes)

  pub init-Makes : (node : Node) → Makes Q (init os nacl node)
  unfolding init
  init-Makes node = search (makes_rules, sign_keypair-Makes, box_keypair-Makes)

  pub encrypt_broadcast-Makes :
      (node : Node) (plain : List ℕ) (len : ℕ) (cipher : List ℕ)
      → Makes Q (encrypt_broadcast os nacl node plain len cipher)
  unfolding encrypt_broadcast
  encrypt_broadcast-Makes node plain len cipher = record {
    at = λ h.
        (tail (os.uninit h nonce_bytes) (os.uninit h (zero_bytes + max_payload))
            (os.uninit h (zero_bytes + max_payload))).at
          h;
  }
    where
      boxed :
          (nonce encrypted : List ℕ) (o : Option (List ℕ))
          → Makes Q (elim o as (λ u. Io (Ret (List ℕ × ℕ))) [
            | none ↦ return err
            | some box ↦ lift (seal_into nonce encrypted box len cipher)
          ])
      boxed nonce encrypted none = search makes_rules
      boxed nonce encrypted (some box) = search makes_rules

      tail :
          (nonce₀ padded₀ encrypted : List ℕ)
          → Makes Q (
              if ltb max_plain len then return err else do
                nonce ← randombytes os nonce₀ nonce_bytes
                padded₁ ← lift (write_at padded₀ 0 (replicate zero_bytes 0))
                padded ← lift (memcpy padded₁ zero_bytes plain 0 len)
                message ← lift (slice padded 0 (zero_bytes + len))
                elim (nacl.secretbox message nonce node.mesh_key) as (λ u. Io (Ret (List ℕ × ℕ))) [
                  | none ↦ return err
                  | some box ↦ lift (seal_into nonce encrypted box len cipher)
                ])
      tail nonce₀ padded₀ encrypted =
          Makes-if (ltb max_plain len) _ _ (λ long. search makes_rules)
            (λ fits.
              Makes-bind (randombytes os nonce₀ nonce_bytes) _
                (randombytes-Makes os nonce₀ nonce_bytes)
                (λ nonce.
                  Makes-bind_lift (write_at padded₀ 0 (replicate zero_bytes 0)) _ (λ padded₁ e₂.
                    Makes-bind_lift (memcpy padded₁ zero_bytes plain 0 len) _ (λ padded e₃.
                      Makes-bind_lift (slice padded 0 (zero_bytes + len)) _ (λ message e₄.
                        boxed nonce encrypted (nacl.secretbox message nonce node.mesh_key))))))

  pub decrypt_broadcast-Makes :
      (node : Node) (cipher : List ℕ) (len : ℕ) (plain : List ℕ)
      → Makes Q (decrypt_broadcast os nacl node cipher len plain)
  unfolding decrypt_broadcast
  decrypt_broadcast-Makes node cipher len plain = record {
    at = λ h.
        (tail (os.uninit h nonce_bytes) (os.uninit h (box_zero_bytes + max_payload))
            (os.uninit h (zero_bytes + max_payload))).at
          h;
  }
    where
      opened :
          (decrypted : List ℕ) (o : Option (List ℕ))
          → Makes Q (elim o as (λ u. Io (Ret (List ℕ × ℕ))) [
            | none ↦ return err
            | some message ↦
                lift (unseal_into decrypted message ((len - nonce_bytes) % 2 ^ 16) plain)
          ])
      opened decrypted none = search makes_rules
      opened decrypted (some message) = search makes_rules

      tail :
          (nonce₀ padded₀ decrypted : List ℕ)
          → Makes Q (
              if leb len nonce_bytes then return err else do
                nonce ← lift (memcpy nonce₀ 0 cipher 0 nonce_bytes)
                padded₁ ← lift (write_at padded₀ 0 (replicate box_zero_bytes 0))
                padded ← lift (
                    memcpy padded₁ box_zero_bytes cipher nonce_bytes ((len - nonce_bytes) % 2 ^ 16))
                box ← lift (slice padded 0 (box_zero_bytes + (len - nonce_bytes) % 2 ^ 16))
                elim (nacl.secretbox_open box nonce node.mesh_key) as (λ u. Io (Ret (List ℕ × ℕ))) [
                  | none ↦ return err
                  | some message ↦
                      lift (unseal_into decrypted message ((len - nonce_bytes) % 2 ^ 16) plain)
                ])
      tail nonce₀ padded₀ decrypted =
          Makes-if (leb len nonce_bytes) _ _ (λ short. search makes_rules)
            (λ long. Makes-bind_lift (memcpy nonce₀ 0 cipher 0 nonce_bytes) _ (λ nonce e₁.
              Makes-bind_lift (write_at padded₀ 0 (replicate box_zero_bytes 0)) _ (λ padded₁ e₂.
                Makes-bind_lift
                  (memcpy padded₁ box_zero_bytes cipher nonce_bytes ((len - nonce_bytes) % 2 ^ 16))
                  _
                  (λ padded e₃.
                    Makes-bind_lift (slice padded 0 (box_zero_bytes + (len - nonce_bytes) % 2 ^ 16))
                      _
                      (λ box e₄. opened decrypted (nacl.secretbox_open box nonce node.mesh_key))))))
