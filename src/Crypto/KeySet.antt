-- ===== src/Crypto/KeySet.antt =====
-- The keys of a node, and what `vex_crypto_init` of src/crypto.c makes them.
use vexconnect.Prelude.{ℕ, ◌≡◌, refl, List, some, arith, length, take, Bytes, length-take}
use vexconnect.Node.{Node}
use vexconnect.Nacl.{Nacl, IsNacl}
use vexconnect.System.{Os, IsOs, Io, History, ◌>>=◌}
use vexconnect.Util.Random.{randombytes-RunsTo}
use vexconnect.Crypto
use vexconnect.Crypto.{sign_keypair, box_keypair, derive_mesh_key, service_uuid}
use vexconnect.Crypto.Shared.{derive_mesh_key_lem}

pub record KeySet : Type 0 where
  pub sign_pk : List ℕ
  pub sign_sk : List ℕ
  pub box_pk : List ℕ
  pub box_sk : List ℕ
  pub mesh_key : List ℕ

-- The sizes of the arrays; the public key, which is shown, consists of bytes.
pub record IsKeySet (k : KeySet) : Type 0 where
  pub sign_pk_size : length k.sign_pk ≡ 32
  pub sign_pk_bytes : Bytes k.sign_pk
  pub sign_sk_size : length k.sign_sk ≡ 64
  pub box_pk_size : length k.box_pk ≡ 32
  pub box_sk_size : length k.box_sk ≡ 32
  pub mesh_key_size : length k.mesh_key ≡ 32

-- A node with other keys.
abbrev pub keyed : Node → KeySet → Node
keyed node k = record node {
  sign_pk = k.sign_pk;
  sign_sk = k.sign_sk;
  box_pk = k.box_pk;
  box_sk = k.box_sk;
  mesh_key = k.mesh_key;
}

-- The mesh key that every node derives.
abbrev pub shared_key : Nacl → List ℕ
shared_key nacl = take 32 (nacl.hash service_uuid)

-- A step that changes nothing but the keys.
abbrev pub Rekeys : (KeySet → Type 0) → (Node → Io Node) → Node → History → Type 0
Rekeys P m node h =
    (k : KeySet) × (h' : History) × (m node h ≡ some (keyed node k, h')) × IsKeySet k × P k

module _ (os : Os) (nacl : Nacl) (v : IsOs os) (w : IsNacl nacl) where
  pub length-shared_key : length (shared_key nacl) ≡ 32
  length-shared_key =
      omega (arith, length-take 32 (nacl.hash service_uuid), w.hash_size service_uuid)

  pub box_keypair_runs :
      (h : History)
      → (p s : List ℕ) × (h' : History) × (box_keypair os nacl h ≡ some ((p, s), h'))
        × (length p ≡ 32)
        × (length s ≡ 32)
  unfolding box_keypair
  box_keypair_runs h =
      let (seed, h', drawn, full) =
        randombytes-RunsTo os (os.uninit h 32) 32 h v (omega (arith, v.uninit_size h 32)) in
      let (p-size, s-size) = w.box_keypair_size seed in
      ((nacl.box_keypair seed).0, (nacl.box_keypair seed).1, h', rw (drawn, ◌>>=◌), p-size, s-size)

  sign_keypair_runs :
      (h : History)
      → (p s : List ℕ) × (h' : History) × (sign_keypair os nacl h ≡ some ((p, s), h'))
        × (length p ≡ 32)
        × Bytes p
        × (length s ≡ 64)
  unfolding sign_keypair
  sign_keypair_runs h =
      let (seed, h', drawn, full) =
        randombytes-RunsTo os (os.uninit h 32) 32 h v (omega (arith, v.uninit_size h 32)) in
      let (p-size, s-size) = w.sign_keypair_size seed in
      (
        (nacl.sign_keypair seed).0,
        (nacl.sign_keypair seed).1,
        h',
        rw (drawn, ◌>>=◌),
        p-size,
        w.sign_keypair_bytes seed,
        s-size,
      )

  -- New keys: all of them are set, and the mesh key is the shared one.
  pub init-Rekeys :
      (node : Node) (h : History)
      → length node.mesh_key ≡ 32
      → Rekeys (λ k. k.mesh_key ≡ shared_key nacl) (Crypto.init os nacl) node h
  unfolding Crypto.init
  init-Rekeys node h size =
      let (a, b, h₁, signs, a-size, a-bytes, b-size) = sign_keypair_runs h in
      let (p, s, h₂, boxes, p-size, s-size) = box_keypair_runs h₁ in
      let node' = record node { sign_pk = a; sign_sk = b; box_pk = p; box_sk = s } in
      (
        record { sign_pk = a; sign_sk = b; box_pk = p; box_sk = s; mesh_key = shared_key nacl },
        h₂,
        rw (signs, ◌>>=◌) (rw (boxes, ◌>>=◌) (rw (derive_mesh_key_lem os nacl node' w size))),
        record {
          sign_pk_size = a-size;
          sign_pk_bytes = a-bytes;
          sign_sk_size = b-size;
          box_pk_size = p-size;
          box_sk_size = s-size;
          mesh_key_size = length-shared_key;
        },
        refl,
      )
