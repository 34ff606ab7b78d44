-- ===== src/Keys/Saved.antt =====
-- Keys in a file store: what one run saves, a later one loads.
use vexconnect.Prelude.{
  ℕ, ◌≤◌, ◌≡◌, refl, ◌∙◌, ap, sym, List, ◌∷◌, ◌++◌, some, Bool, true, false, bytes_eq, ok, err,
  arith, length, length-append, take_all,
}
use vexconnect.Prelude.Text.{codes}
use vexconnect.Node.{Node}
use vexconnect.Nacl.{Nacl, IsNacl}
use vexconnect.System.{Os, History, file_opened, file_read, file_closed, made_directory, ◌>>=◌}
use vexconnect.Crypto.Shared.{derive_mesh_key_lem}
use vexconnect.Crypto.KeySet.{KeySet, IsKeySet, keyed, shared_key}
use vexconnect.Keys.Pairs.{save_pair_runs}
use vexconnect.Keys.{load_box, load_keys, save_pair, save_keys, key_file}
use vexconnect.Keys.Store.{
  content, IsFileStore, read_pair-sized, save_pair-content, bytes_eq-append,
}

-- The two files are different, and a path of the program is short enough to be kept whole.
abbrev pub identity : List ℕ → List ℕ
identity path = key_file path (codes "/identity.key")

abbrev pub ephemeral : List ℕ → List ℕ
ephemeral path = key_file path (codes "/ephemeral.key")

files_differ :
    (path : List ℕ) → length path ≤ 255 → bytes_eq (ephemeral path) (identity path) ≡ false
files_differ path short =
    rw
      (
        take_all 511 (path ++ codes "/ephemeral.key")
            (omega (arith, length-append path (codes "/ephemeral.key"), short)),
        take_all 511 (path ++ codes "/identity.key")
            (omega (arith, length-append path (codes "/identity.key"), short)),
        bytes_eq-append path (codes "/ephemeral.key") (codes "/identity.key"),
      )
      refl

-- The keys of a node.
abbrev pub keys_of : Node → KeySet
keys_of node = record {
  sign_pk = node.sign_pk;
  sign_sk = node.sign_sk;
  box_pk = node.box_pk;
  box_sk = node.box_sk;
  mesh_key = node.mesh_key;
}

module _ (os : Os) (store : IsFileStore os) (nacl : Nacl) (w : IsNacl nacl) where
  -- What the two files hold once the keys are saved.
  saved_keys :
      (node : Node) (path : List ℕ) (h h' : History)
      → length path ≤ 255
      → save_keys os node path h ≡ some (ok 0, h')
      → (content os.fopen (identity path) h' ≡ some (node.sign_pk ++ node.sign_sk))
        × (content os.fopen (ephemeral path) h' ≡ some (node.box_pk ++ node.box_sk))
  saved_keys node path h h' short saved =
      let (one, h₁, first) =
        save_pair_runs os (identity path) node.sign_pk node.sign_sk (made_directory path ∷ h) in
      let (two, h₂, second) = save_pair_runs os (ephemeral path) node.box_pk node.box_sk h₁ in
      both one two h₁ h₂ first second
    where
      both :
          (one two : Bool) (h₁ h₂ : History)
          → save_pair os (identity path) node.sign_pk node.sign_sk (made_directory path ∷ h)
            ≡ some (one, h₁)
          → save_pair os (ephemeral path) node.box_pk node.box_sk h₁ ≡ some (two, h₂)
          → (content os.fopen (identity path) h' ≡ some (node.sign_pk ++ node.sign_sk))
            × (content os.fopen (ephemeral path) h' ≡ some (node.box_pk ++ node.box_sk))
      both false two h₁ h₂ first second =
          let failed : save_keys os node path h ≡ some (err, h₁) = rw (first, ◌>>=◌) refl in
          absurd (cc (saved, failed))
      both true false h₁ h₂ first second =
          let failed : save_keys os node path h ≡ some (err, h₂) =
            rw (first, ◌>>=◌) (rw (second, ◌>>=◌) refl) in
          absurd (cc (saved, failed))
      both true true h₁ h₂ first second =
          let run : save_keys os node path h ≡ some (ok 0, h₂) =
            rw (first, ◌>>=◌) (rw (second, ◌>>=◌) refl) in
          let same : h₂ ≡ h' = cc (saved, run) in
          let one =
            save_pair-content os store (identity path) node.sign_pk node.sign_sk
              (made_directory path ∷ h) h₁ first in
          let two =
            save_pair-content os store (ephemeral path) node.box_pk node.box_sk h₁ h₂ second in
          (
            ap (content os.fopen (identity path)) (sym same)
                ∙ two.1 (identity path) (node.sign_pk ++ node.sign_sk) (files_differ path short)
                    one.0,
            ap (content os.fopen (ephemeral path)) (sym same) ∙ two.0,
          )

  -- The keys for boxes that a file holds are loaded.
  load_box-content :
      (p s : List ℕ) (reader : Node) (path : List ℕ) (k : History)
      → content os.fopen (ephemeral path) k ≡ some (p ++ s)
      → length p ≡ 32
      → length s ≡ 32
      → length reader.box_pk ≡ 32
      → length reader.box_sk ≡ 32
      → (k' : History) × (load_box os nacl reader path k
          ≡ some (record reader { box_pk = p; box_sk = s }, k'))
  load_box-content p s reader path k holds p-size s-size a-size b-size =
      let (f, opened) = store.found k (ephemeral path) (p ++ s) holds in
      let read =
        read_pair-sized os store (ephemeral path) p s reader.box_pk reader.box_sk f 32 32 k holds
          opened p-size s-size a-size b-size in
      (
        file_closed f ∷ file_read f 32 ∷ file_read f 32 ∷ file_opened (ephemeral path) false ∷ k,
        rw (opened, ◌>>=◌) (rw (read, ◌>>=◌) refl),
      )

  -- Keys that were saved without an error are the keys that are loaded, as long as the two files are not
  -- written again in between: a node that loads them has the keys of the node that saved them and the mesh key
  -- that every node has.
  pub load_keys-saved :
      (node reader : Node) (path : List ℕ) (h h' k : History)
      → length path ≤ 255
      → save_keys os node path h ≡ some (ok 0, h')
      → content os.fopen (identity path) k ≡ content os.fopen (identity path) h'
      → content os.fopen (ephemeral path) k ≡ content os.fopen (ephemeral path) h'
      → IsKeySet (keys_of node)
      → IsKeySet (keys_of reader)
      → (k' : History) × (load_keys os nacl reader path k
          ≡ some ((ok 0, keyed reader (record (keys_of node) { mesh_key = shared_key nacl })), k'))
  load_keys-saved node reader path h h' k short saved same same' is is' =
      let (one, two) = saved_keys node path h h' short saved in
      let (f, opened) = store.found k (identity path) (node.sign_pk ++ node.sign_sk) (same ∙ one) in
      let read =
        read_pair-sized os store (identity path) node.sign_pk node.sign_sk reader.sign_pk
          reader.sign_sk f 32 64 k (same ∙ one) opened is.sign_pk_size is.sign_sk_size
          is'.sign_pk_size is'.sign_sk_size in
      let signed : Node = record reader { sign_pk = node.sign_pk; sign_sk = node.sign_sk } in
      let (k', boxed) =
        load_box-content node.box_pk node.box_sk signed path
          (file_closed f ∷ file_read f 64 ∷ file_read f 32 ∷ file_opened (identity path) false ∷ k)
          (same' ∙ two) is.box_pk_size is.box_sk_size is'.box_pk_size is'.box_sk_size in
      let key =
        derive_mesh_key_lem os nacl (record signed { box_pk = node.box_pk; box_sk = node.box_sk }) w
          is'.mesh_key_size in
      (k', rw (opened, ◌>>=◌) (rw (read, ◌>>=◌) (rw (boxed, ◌>>=◌) (rw (key, ◌>>=◌) refl))))
