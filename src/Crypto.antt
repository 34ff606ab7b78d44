-- ===== src/Crypto.antt =====
-- src/crypto.c: the mesh key, the key pairs, and the encryption of broadcasts.
pub mod Encrypt
pub mod Decrypt
pub mod RoundTrip
pub mod Shared
pub mod KeySet
pub mod Wire
use vexconnect.Prelude.{
  ℕ, ◌+◌, ◌-◌, ◌%◌, ◌^◌, ◌<◌, ◌≡◌, List, Option, none, some, ltb, leb, if◌then◌else◌, Ret, ok, err,
  replicate, length,
}
use vexconnect.Prelude.Memory
use vexconnect.Prelude.Memory.{memcpy, write_at, slice}
use vexconnect.Prelude.Text.{codes}
use vexconnect.Packet.{max_payload}
use vexconnect.Node.{Node}
use vexconnect.Nacl.{Nacl}
use vexconnect.System.{Os, Io, ◌>>=◌, return, lift, uninit}
use vexconnect.Util.{randombytes}

abbrev pub nonce_bytes : ℕ
nonce_bytes = 24

abbrev pub zero_bytes : ℕ
zero_bytes = 32

abbrev pub box_zero_bytes : ℕ
box_zero_bytes = 16

-- `VEX_SERVICE_UUID`
abbrev pub service_uuid : List ℕ
service_uuid = codes "0000vc01-0000-1000-8000-00805f9b34fb"

-- The longest text that fits a payload: 461 bytes.
abbrev pub max_plain : ℕ
max_plain = max_payload - nonce_bytes - box_zero_bytes

-- `vex_crypto_encrypt_broadcast` from the box on: nonce, then the box without its 16 zero bytes.
pub seal_into : List ℕ → List ℕ → List ℕ → ℕ → List ℕ → Option (Ret (List ℕ × ℕ))
seal_into nonce encrypted box len cipher = Memory.◌>>=◌ (write_at encrypted 0 box) λ encrypted'.
    Memory.◌>>=◌ (memcpy cipher 0 nonce 0 nonce_bytes) λ cipher₁.
      Memory.◌>>=◌
        (memcpy cipher₁ nonce_bytes encrypted' box_zero_bytes (len + zero_bytes - box_zero_bytes))
        λ cipher₂. some (ok (cipher₂, (nonce_bytes + len + zero_bytes - box_zero_bytes) % 2 ^ 16))

-- `vex_crypto_decrypt_broadcast` behind the opening of the box.
pub unseal_into : List ℕ → List ℕ → ℕ → List ℕ → Option (Ret (List ℕ × ℕ))
unseal_into decrypted message ct_len plain =
    let plain_len = (ct_len + 2 ^ 16 - (zero_bytes - box_zero_bytes)) % 2 ^ 16 in
    Memory.◌>>=◌ (write_at decrypted 0 message) λ decrypted'.
      Memory.◌>>=◌ (memcpy plain 0 decrypted' zero_bytes plain_len)
        λ plain'. some (ok (plain', plain_len))

module _ (os : Os) (nacl : Nacl) where
  -- `vex_crypto_derive_mesh_key`
  pub derive_mesh_key : Node → Option Node
  derive_mesh_key node =
      Memory.◌>>=◌ (memcpy node.mesh_key 0 (nacl.hash service_uuid) 0 32)
        λ key. some (record node { mesh_key = key })

  -- `crypto_sign_keypair` and `crypto_box_keypair` draw 32 bytes by the program's `randombytes`.
  pub sign_keypair : Io (List ℕ × List ℕ)
  sign_keypair = do
    fresh ← uninit os 32
    seed ← randombytes os fresh 32
    return (nacl.sign_keypair seed)

  pub box_keypair : Io (List ℕ × List ℕ)
  box_keypair = do
    fresh ← uninit os 32
    seed ← randombytes os fresh 32
    return (nacl.box_keypair seed)

  -- `vex_crypto_init`, which always returns 0
  pub init : Node → Io Node
  init node = do
    signs ← sign_keypair
    boxes ← box_keypair
    lift (
        derive_mesh_key (record node {
          sign_pk = signs.0;
          sign_sk = signs.1;
          box_pk = boxes.0;
          box_sk = boxes.1;
        }))

  -- `vex_crypto_encrypt_broadcast`: the array `cipher` and the length that it sets.
  pub encrypt_broadcast : Node → List ℕ → ℕ → List ℕ → Io (Ret (List ℕ × ℕ))
  encrypt_broadcast node plain len cipher = do
    nonce₀ ← uninit os nonce_bytes
    padded₀ ← uninit os (zero_bytes + max_payload)
    encrypted ← uninit os (zero_bytes + max_payload)
    if ltb max_plain len then return err else do
      nonce ← randombytes os nonce₀ nonce_bytes
      padded₁ ← lift (write_at padded₀ 0 (replicate zero_bytes 0))
      padded ← lift (memcpy padded₁ zero_bytes plain 0 len)
      message ← lift (slice padded 0 (zero_bytes + len))
      elim (nacl.secretbox message nonce node.mesh_key) [
        | none ↦ return err
        | some box ↦ lift (seal_into nonce encrypted box len cipher)
      ]

  -- `vex_crypto_decrypt_broadcast`: the array `plain` and the length that it sets.
  pub decrypt_broadcast : Node → List ℕ → ℕ → List ℕ → Io (Ret (List ℕ × ℕ))
  decrypt_broadcast node cipher len plain = do
    nonce₀ ← uninit os nonce_bytes
    padded₀ ← uninit os (box_zero_bytes + max_payload)
    decrypted ← uninit os (zero_bytes + max_payload)
    if leb len nonce_bytes then return err else do
      let ct_len = (len - nonce_bytes) % 2 ^ 16
      nonce ← lift (memcpy nonce₀ 0 cipher 0 nonce_bytes)
      padded₁ ← lift (write_at padded₀ 0 (replicate box_zero_bytes 0))
      padded ← lift (memcpy padded₁ box_zero_bytes cipher nonce_bytes ct_len)
      box ← lift (slice padded 0 (box_zero_bytes + ct_len))
      elim (nacl.secretbox_open box nonce node.mesh_key) [
        | none ↦ return err
        | some message ↦ lift (unseal_into decrypted message ct_len plain)
      ]
