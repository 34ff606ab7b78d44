-- ===== src/Tests/CryptoCases.antt =====
-- src/crypto.c at a concrete input.
use vexconnect.Prelude.{ℕ, ◌≡◌, refl, List, [], ◌∷◌, ◌++◌, some, ok, arith, replicate, length, drop}
use vexconnect.Packet.{max_payload}
use vexconnect.Node.{Node}
use vexconnect.Crypto.Shared.{derive_mesh_key_shared}
use vexconnect.Crypto.{derive_mesh_key, encrypt_broadcast, decrypt_broadcast}
use vexconnect.Crypto.Decrypt.{reported, opened_text, decrypt_broadcast_lem}
use vexconnect.Crypto.RoundTrip.{decrypt-encrypt}
use vexconnect.System.{History}
use vexconnect.Tests.Platform.{kernel, kernel-IsOs, plain_box, plain_box-IsNacl}
use vexconnect.Tests.Frames.{a_node}

abbrev text : List ℕ
text = 104 ∷ 105 ∷ []

abbrev empty : List ℕ
empty = replicate 501 0

decrypt_broadcast_lem_example :
    decrypt_broadcast (kernel []) plain_box a_node empty 42 empty []
    ≡ some (reported empty (opened_text plain_box a_node empty 42), [])
decrypt_broadcast_lem_example =
    decrypt_broadcast_lem (kernel []) plain_box a_node empty 42 empty [] (kernel-IsOs [] tt)
      plain_box-IsNacl (omega arith) (omega arith) refl

decrypt-encrypt_example :
    (payload : List ℕ) × (h' : History) × (encrypt_broadcast
        (kernel [])
        plain_box
        a_node
        text
        2
        empty
        []
      ≡ some (ok (payload, 42), h'))
    × (length payload ≡ max_payload)
    × (decrypt_broadcast (kernel []) plain_box a_node payload 42 empty []
        ≡ some (ok (text ++ drop 2 empty, 2), []))
decrypt-encrypt_example =
    decrypt-encrypt (kernel []) plain_box a_node a_node text empty empty 2 [] [] (kernel-IsOs [] tt)
      plain_box-IsNacl refl (omega arith) (omega arith) refl refl

abbrev other_node : Node
other_node = record a_node { mesh_key = replicate 32 9; box_pk = replicate 32 8 }

derive_mesh_key_shared_example :
    (key : List ℕ) × (length key ≡ 32)
    × (derive_mesh_key (kernel []) plain_box a_node ≡ some (record a_node { mesh_key = key }))
    × (derive_mesh_key (kernel []) plain_box other_node
        ≡ some (record other_node { mesh_key = key }))
derive_mesh_key_shared_example =
    derive_mesh_key_shared (kernel []) (kernel []) plain_box a_node other_node plain_box-IsNacl refl
      refl
