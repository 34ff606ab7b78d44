-- ===== src/Keys/Load.antt =====
-- The loading of the keys, on every answer of the kernel.
use vexconnect.Prelude.{
  ℕ, ◌≡◌, ◌⊎◌, inl, inr, refl, List, ◌∷◌, some, none, Option, Bool, true, false, Ret, ok, err,
  length, Bytes,
}
use vexconnect.Prelude.Text.{codes}
use vexconnect.Node.{Node}
use vexconnect.Nacl.{Nacl, IsNacl}
use vexconnect.System.{Os, IsOs, History, file_opened, file_closed, ◌>>=◌}
use vexconnect.Crypto.Shared.{derive_mesh_key_lem}
use vexconnect.Crypto.KeySet.{
  KeySet, IsKeySet, keyed, shared_key, box_keypair_runs, length-shared_key,
}
use vexconnect.Keys.{read_pair, load_box, load_keys, key_file}
use vexconnect.Keys.Pairs.{read_pair_runs}

module _ (os : Os) (nacl : Nacl) (v : IsOs os) (w : IsNacl nacl) where
  -- The keys for boxes are read, or drawn anew; nothing else of the node changes.
  load_box_runs :
      (node : Node) (path : List ℕ) (h : History)
      → Bytes node.box_pk
      → length node.box_pk ≡ 32
      → length node.box_sk ≡ 32
      → (p s : List ℕ) × (h' : History) × (load_box os nacl node path h
          ≡ some (record node { box_pk = p; box_sk = s }, h'))
        × (length p ≡ 32)
        × (length s ≡ 32)
  load_box_runs node path h clean p-size s-size = go (os.fopen h file false) refl
    where
      file : List ℕ
      file = key_file path (codes "/ephemeral.key")

      h₀ : History
      h₀ = file_opened file false ∷ h

      partial :
          (f : ℕ) (whole : Bool) (a b : List ℕ) (h₁ : History)
          → os.fopen h file false ≡ some f
          → read_pair os f 32 32 node.box_pk node.box_sk h₀ ≡ some ((whole, a, b), h₁)
          → length a ≡ 32
          → length b ≡ 32
          → (p s : List ℕ) × (h' : History) × (load_box os nacl node path h
              ≡ some (record node { box_pk = p; box_sk = s }, h'))
            × (length p ≡ 32)
            × (length s ≡ 32)
      partial f true a b h₁ e run a-size b-size =
          (a, b, file_closed f ∷ h₁, rw (e, ◌>>=◌) (rw (run, ◌>>=◌)), a-size, b-size)
      partial f false a b h₁ e run a-size b-size =
          let (p, s, h₂, drawn, p'-size, s'-size) =
            box_keypair_runs os nacl v w (file_closed f ∷ h₁) in
          (p, s, h₂, rw (e, ◌>>=◌) (rw (run, ◌>>=◌) (rw (drawn, ◌>>=◌))), p'-size, s'-size)

      go :
          (o : Option ℕ)
          → os.fopen h file false ≡ o
          → (p s : List ℕ) × (h' : History) × (load_box os nacl node path h
              ≡ some (record node { box_pk = p; box_sk = s }, h'))
            × (length p ≡ 32)
            × (length s ≡ 32)
      go none e =
          let (p, s, h₂, drawn, a-size, b-size) = box_keypair_runs os nacl v w h₀ in
          (p, s, h₂, rw (e, ◌>>=◌) (rw (drawn, ◌>>=◌)), a-size, b-size)
      go (some f) e =
          let (whole, a, b, h₁, run, a-size, clean', b-size) =
            read_pair_runs os v f 32 32 node.box_pk node.box_sk h₀ p-size clean s-size in
          partial f whole a b h₁ e run a-size b-size

  -- What loading leaves: only keys change, and a loaded mesh key is the shared one.
  abbrev pub LoadsKeys : Node → List ℕ → History → Type 0
  LoadsKeys node path h =
      (r : Ret ℕ) × (k : KeySet) × (h' : History) × (load_keys os nacl node path h
        ≡ some ((r, keyed node k), h'))
      × IsKeySet k
      × ((r ≡ err) ⊎ (k.mesh_key ≡ shared_key nacl))

  load_rest :
      (node : Node) (path : List ℕ) (h h₁ : History) (f : ℕ) (whole : Bool) (a b : List ℕ)
      → IsKeySet (record {
        sign_pk = a;
        sign_sk = b;
        box_pk = node.box_pk;
        box_sk = node.box_sk;
        mesh_key = node.mesh_key;
      })
      → Bytes node.box_pk
      → os.fopen h (key_file path (codes "/identity.key")) false ≡ some f
      → read_pair os f 32 64 node.sign_pk node.sign_sk
          (file_opened (key_file path (codes "/identity.key")) false ∷ h)
        ≡ some ((whole, a, b), h₁)
      → LoadsKeys node path h
  load_rest node path h h₁ f false a b is clean e run = (
    err,
    record {
      sign_pk = a;
      sign_sk = b;
      box_pk = node.box_pk;
      box_sk = node.box_sk;
      mesh_key = node.mesh_key;
    },
    file_closed f ∷ h₁,
    rw (e, ◌>>=◌) (rw (run, ◌>>=◌)),
    is,
    inl refl,
  )
  load_rest node path h h₁ f true a b is clean e run =
      let node' = record node { sign_pk = a; sign_sk = b } in
      let (p, s, h₂, boxed, p-size, s-size) =
        load_box_runs node' path (file_closed f ∷ h₁) clean is.box_pk_size is.box_sk_size in
      let key =
        derive_mesh_key_lem os nacl (record node' { box_pk = p; box_sk = s }) w is.mesh_key_size in
      (
        ok 0,
        record { sign_pk = a; sign_sk = b; box_pk = p; box_sk = s; mesh_key = shared_key nacl },
        h₂,
        rw (e, ◌>>=◌) (rw (run, ◌>>=◌) (rw (boxed, ◌>>=◌) (rw (key, ◌>>=◌)))),
        record {
          sign_pk_size = is.sign_pk_size;
          sign_pk_bytes = is.sign_pk_bytes;
          sign_sk_size = is.sign_sk_size;
          box_pk_size = p-size;
          box_sk_size = s-size;
          mesh_key_size = length-shared_key os nacl v w;
        },
        inr refl,
      )

  -- Whatever is in the files, loading changes only keys and leaves keys of the right sizes; if it
  -- succeeds, the mesh key is the shared one.
  pub load_keys_runs :
      (node : Node) (path : List ℕ) (h : History)
      → IsKeySet (record {
        sign_pk = node.sign_pk;
        sign_sk = node.sign_sk;
        box_pk = node.box_pk;
        box_sk = node.box_sk;
        mesh_key = node.mesh_key;
      })
      → Bytes node.box_pk
      → LoadsKeys node path h
  load_keys_runs node path h is clean = go (os.fopen h file false) refl
    where
      file : List ℕ
      file = key_file path (codes "/identity.key")

      go : (o : Option ℕ) → os.fopen h file false ≡ o → LoadsKeys node path h
      go none e = (
        err,
        record {
          sign_pk = node.sign_pk;
          sign_sk = node.sign_sk;
          box_pk = node.box_pk;
          box_sk = node.box_sk;
          mesh_key = node.mesh_key;
        },
        file_opened file false ∷ h,
        rw (e, ◌>>=◌),
        is,
        inl refl,
      )
      go (some f) e =
          let (whole, a, b, h₁, run, a-size, a-bytes, b-size) =
            read_pair_runs os v f 32 64 node.sign_pk node.sign_sk (file_opened file false ∷ h)
              is.sign_pk_size is.sign_pk_bytes is.sign_sk_size in
          load_rest node path h h₁ f whole a b
            (record {
              sign_pk_size = a-size;
              sign_pk_bytes = a-bytes;
              sign_sk_size = b-size;
              box_pk_size = is.box_pk_size;
              box_sk_size = is.box_sk_size;
              mesh_key_size = is.mesh_key_size;
            })
            clean e run
