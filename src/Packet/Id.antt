-- ===== src/Packet/Id.antt =====
-- `vex_packet_make_id` of src/packet.c.
use vexconnect.Prelude.{
  some, append-nil, drop_all, take_all, take_prefix, sym, ◌∙◌, ℕ, ◌+◌, ◌≤◌, ◌≡◌, List, ◌++◌, arith,
  length, take, drop, length-append, length-take, length-drop,
}
use vexconnect.Prelude.Memory.{memcpy-append, memcpy, slice, memcpy_start, slice_lem}
use vexconnect.Nacl.{Nacl, IsNacl}
use vexconnect.System.{Os, IsOs, Io, History, ◌>>=◌, lift, uninit}
use vexconnect.Util.{randombytes}
use vexconnect.Util.Random.{randombytes-RunsTo}
use vexconnect.Util.Wire.{randombytes-Makes}
use vexconnect.Transport.Speaks.{Makes, makes_rules}
use vexconnect.Packet.{max_payload}

-- The array `id_out` afterwards. The bytes that are hashed are the payload and a random nonce.
pub make_id : Os → Nacl → List ℕ → ℕ → List ℕ → Io (List ℕ)
make_id os nacl payload len id_out = do
  input ← uninit os (max_payload + 16)
  nonce₀ ← uninit os 8
  nonce ← randombytes os nonce₀ 8
  input₁ ← lift (memcpy input 0 payload 0 len)
  input₂ ← lift (memcpy input₁ len nonce 0 8)
  hashed ← lift (slice input₂ 0 (len + 8))
  lift (memcpy id_out 0 (nacl.hash hashed) 0 8)

-- Of a payload that fits a packet the id is made with no access outside an array: it is the first 8
-- bytes of the hash of the payload and of 8 bytes that `randombytes` draws.
pub make_id_lem :
    (os : Os) (nacl : Nacl) (payload : List ℕ) (len : ℕ) (id_out : List ℕ) (h : History)
    → IsOs os
    → IsNacl nacl
    → len ≤ length payload
    → len ≤ max_payload
    → length id_out ≡ 8
    → (nonce : List ℕ) × (h' : History) × (randombytes os (os.uninit h 8) 8 h ≡ some (nonce, h'))
      × (length nonce ≡ 8)
      × (make_id os nacl payload len id_out h
          ≡ some (take 8 (nacl.hash (take len payload ++ nonce)), h'))
unfolding make_id
make_id_lem os nacl payload len id_out h v w inside small size =
    let (nonce, h', drawn, full) =
      randombytes-RunsTo os (os.uninit h 8) 8 h v (omega (arith, v.uninit_size h 8)) in
    let n-size : length nonce ≡ 8 = full ∙ v.uninit_size h 8 in
    let input = os.uninit h 517 in
    let i-size : length input ≡ 517 = v.uninit_size h 517 in
    let hashed = take len payload ++ nonce in
    let h-size : length hashed ≡ len + 8 =
      omega (arith, length-append (take len payload) nonce, length-take len payload) in
    (
      nonce,
      h',
      drawn,
      n-size,
      rw (
        drawn,
        memcpy_start input payload 0 len (omega arith) (omega arith),
        memcpy-append (take len payload) (drop len input) nonce len 0 8
            (omega (arith, length-take len payload)) (omega arith)
            (omega (arith, length-drop len input)),
        take_all 8 nonce (omega arith),
        slice_lem (hashed ++ drop 8 (drop len input)) 0 (len + 8)
            (omega (arith, length-append hashed (drop 8 (drop len input)))),
        take_prefix (len + 8) hashed (drop 8 (drop len input)) (sym h-size),
        memcpy_start id_out (nacl.hash hashed) 0 8 (omega (arith, w.hash_size hashed))
            (omega arith),
        drop_all 8 id_out (omega arith),
        append-nil (take 8 (nacl.hash hashed)),
        ◌>>=◌,
      ),
    )

-- The making of an id writes nothing to a socket.
pub make_id-Makes :
    {Q : List ℕ → Type 0} (os : Os) (nacl : Nacl) (payload : List ℕ) (len : ℕ) (id_out : List ℕ)
    → Makes Q (make_id os nacl payload len id_out)
unfolding make_id
make_id-Makes os nacl payload len id_out = search (makes_rules, randombytes-Makes) depth 10
