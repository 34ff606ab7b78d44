-- ===== src/Tests/KeyCases.antt =====
-- The key files at concrete inputs, over a kernel that keeps files.
use vexconnect.Prelude.{
  ℕ, ◌+◌, ◌≡◌, refl, ap, List, [], ◌∷◌, Option, none, some, Bool, true, ok, arith, take, drop,
}
use vexconnect.Prelude.Text.{codes}
use vexconnect.System.{
  Os, History, file_opened, file_read, file_wrote, file_closed, made_private, made_directory,
}
use vexconnect.Crypto.KeySet.{IsKeySet, keyed, shared_key}
use vexconnect.Keys.{empty_node, load_keys}
use vexconnect.Keys.Store.{content, IsFileStore}
use vexconnect.Keys.Saved.{keys_of, identity, ephemeral, load_keys-saved}
use vexconnect.Tests.Platform.{kernel, replicate-Bytes, plain_box, plain_box-IsNacl}
use vexconnect.Tests.Frames.{a_node}

-- Every file opens as stream 1.
abbrev open_all : History → List ℕ → Bool → Option ℕ
open_all h path writes = some 1

-- The file that was opened last, and how much of it was read.
abbrev current : History → List ℕ
current [] = []
current (file_opened path writes ∷ h) = path
current (e ∷ h) = current h

abbrev position : History → ℕ
position [] = 0
position (file_opened path writes ∷ h) = 0
position (file_read f n ∷ h) = n + position h
position (e ∷ h) = position h

abbrev bytes_of : Option (List ℕ) → List ℕ
bytes_of none = []
bytes_of (some bs) = bs

abbrev disk : Os
disk = record (kernel []) {
  fopen = open_all;
  fread = λ h f n. take n (drop (position h) (bytes_of (content open_all (current h) h)));
}

disk-IsFileStore : IsFileStore disk
disk-IsFileStore = record {
  found = λ h file bs e. (1, refl);
  first_read = λ h file bs f n e opened. rw e refl;
  second_read = λ h file bs f n m e opened. rw e (ap (λ i. take m (drop i bs)) (omega arith));
}

abbrev home_path : List ℕ
home_path = codes "/tmp/.vexconnect"

abbrev saved_at : History
saved_at =
    made_private (ephemeral home_path)
    ∷ file_closed 1
    ∷ file_wrote 1 a_node.box_sk
    ∷ file_wrote 1 a_node.box_pk
    ∷ file_opened (ephemeral home_path) true
    ∷ made_private (identity home_path)
    ∷ file_closed 1
    ∷ file_wrote 1 a_node.sign_sk
    ∷ file_wrote 1 a_node.sign_pk
    ∷ file_opened (identity home_path) true
    ∷ made_directory home_path
    ∷ []

a_node-IsKeySet : IsKeySet (keys_of a_node)
a_node-IsKeySet = record {
  sign_pk_size = refl;
  sign_pk_bytes = replicate-Bytes 32 1 (omega arith);
  sign_sk_size = refl;
  box_pk_size = refl;
  box_sk_size = refl;
  mesh_key_size = refl;
}

empty_node-IsKeySet : IsKeySet (keys_of empty_node)
empty_node-IsKeySet = record {
  sign_pk_size = refl;
  sign_pk_bytes = replicate-Bytes 32 0 (omega arith);
  sign_sk_size = refl;
  box_pk_size = refl;
  box_sk_size = refl;
  mesh_key_size = refl;
}

load_keys-saved_example :
    (k' : History) × (load_keys disk plain_box empty_node home_path saved_at
      ≡ some (
        (ok 0, keyed empty_node (record (keys_of a_node) { mesh_key = shared_key plain_box })),
        k',
      ))
load_keys-saved_example =
    load_keys-saved disk disk-IsFileStore plain_box plain_box-IsNacl a_node empty_node home_path []
      saved_at saved_at (omega arith) refl refl refl a_node-IsKeySet empty_node-IsKeySet
