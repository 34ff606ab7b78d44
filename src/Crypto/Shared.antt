-- ===== src/Crypto/Shared.antt =====
-- The mesh key of `vex_crypto_derive_mesh_key`.
use vexconnect.Prelude.{ℕ, ◌≡◌, List, some, arith, length, take, length-take, drop_all, append-nil}
use vexconnect.Prelude.Memory.{memcpy_start}
use vexconnect.Node.{Node}
use vexconnect.Nacl.{Nacl, IsNacl}
use vexconnect.System.{Os}
use vexconnect.Crypto.{derive_mesh_key, service_uuid}

pub derive_mesh_key_lem :
    (os : Os) (nacl : Nacl) (node : Node)
    → IsNacl nacl
    → length node.mesh_key ≡ 32
    → derive_mesh_key os nacl node
      ≡ some (record node { mesh_key = take 32 (nacl.hash service_uuid) })
unfolding derive_mesh_key
derive_mesh_key_lem os nacl node w size = rw (
  memcpy_start node.mesh_key (nacl.hash service_uuid) 0 32 (omega (arith, w.hash_size service_uuid))
      (omega arith),
  drop_all 32 node.mesh_key (omega arith),
  append-nil (take 32 (nacl.hash service_uuid)),
)

-- Any two nodes derive the same mesh key of 32 bytes, whatever their own keys are, with no access outside
-- an array, and nothing else of them changes.
pub derive_mesh_key_shared :
    (os os' : Os) (nacl : Nacl) (a b : Node)
    → IsNacl nacl
    → length a.mesh_key ≡ 32
    → length b.mesh_key ≡ 32
    → (key : List ℕ) × (length key ≡ 32)
      × (derive_mesh_key os nacl a ≡ some (record a { mesh_key = key }))
      × (derive_mesh_key os' nacl b ≡ some (record b { mesh_key = key }))
derive_mesh_key_shared os os' nacl a b w a-size b-size = (
  take 32 (nacl.hash service_uuid),
  omega (arith, length-take 32 (nacl.hash service_uuid), w.hash_size service_uuid),
  derive_mesh_key_lem os nacl a w a-size,
  derive_mesh_key_lem os' nacl b w b-size,
)
