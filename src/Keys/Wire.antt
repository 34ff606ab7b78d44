-- ===== src/Keys/Wire.antt =====
-- How a node comes up: nothing is written to a socket.
use vexconnect.Prelude.{
  ℕ, List, Option, none, some, Bool, true, false, not, if◌then◌else◌, Ret, ok, err,
}
use vexconnect.Node.{Node}
use vexconnect.Nacl.{Nacl}
use vexconnect.Crypto
use vexconnect.Crypto.Wire.{box_keypair-Makes, init-Makes}
use vexconnect.System.{
  Os, Io, file_wrote, file_closed, made_private, ◌>>=◌, ◌>>◌, return, lift, call,
}
use vexconnect.Transport.Speaks.{Makes, makes_rules}
use vexconnect.Crypto.{derive_mesh_key}
use vexconnect.Keys.{
  save_pair, save_keys, read_pair, fresh_box, load_box, load_keys, ensure_keys, name_node,
  mesh_init,
}

module _ {Q : List ℕ → Type 0} (os : Os) where
  save_pair-Makes : (file first second : List ℕ) → Makes Q (save_pair os file first second)
  save_pair-Makes file first second = search (makes_rules, saved)
    where
      saved :
          (f : Option ℕ)
          → Makes Q (elim f as (λ u. Io Bool) [
            | none ↦ return false
            | some s ↦ do
              call (file_wrote s first)
              call (file_wrote s second)
              call (file_closed s)
              call (made_private file)
              return true
          ])
      saved none = search makes_rules
      saved (some s) = search makes_rules depth 8

  save_keys-Makes : (node : Node) (path : List ℕ) → Makes Q (save_keys os node path)
  save_keys-Makes node path = search (save_pair-Makes, makes_rules) depth 10

  read_pair-Makes : (f n m : ℕ) (a b : List ℕ) → Makes Q (read_pair os f n m a b)
  read_pair-Makes f n m a b = search makes_rules depth 10

module _ {Q : List ℕ → Type 0} (os : Os) (nacl : Nacl) where
  name_node-Makes : (node : Node) → Makes Q (name_node os nacl node)
  name_node-Makes node = search makes_rules

  load_box-Makes : (node : Node) (path : List ℕ) → Makes Q (load_box os nacl node path)
  load_box-Makes node path = search (makes_rules, loaded)
    where
      loaded :
          (f : Option ℕ)
          → Makes Q (elim f as (λ u. Io Node) [
            | none ↦ fresh_box os nacl node
            | some s ↦ do
              r ← read_pair os s 32 32 node.box_pk node.box_sk
              call (file_closed s)
              let node' = record node { box_pk = r.1; box_sk = r.2 }
              if r.0 then return node' else fresh_box os nacl node'
          ])
      loaded none = search (makes_rules, box_keypair-Makes)
      loaded (some s) = search (read_pair-Makes, makes_rules, box_keypair-Makes) depth 8

  load_keys-Makes : (node : Node) (path : List ℕ) → Makes Q (load_keys os nacl node path)
  load_keys-Makes node path = search (makes_rules, loaded)
    where
      loaded :
          (f : Option ℕ)
          → Makes Q (elim f as (λ u. Io (Ret ℕ × Node)) [
            | none ↦ return (err, node)
            | some s ↦ do
              r ← read_pair os s 32 64 node.sign_pk node.sign_sk
              call (file_closed s)
              let node' = record node { sign_pk = r.1; sign_sk = r.2 }
              if not r.0 then return (err, node') else do
                boxed ← load_box os nacl node' path
                keyed ← lift (derive_mesh_key os nacl boxed)
                return (ok 0, keyed)
          ])
      loaded none = search makes_rules
      loaded (some s) = search (read_pair-Makes, load_box-Makes, makes_rules) depth 8

  ensure_keys-Makes : (node : Node) (path : List ℕ) → Makes Q (ensure_keys os nacl node path)
  ensure_keys-Makes node path = search (load_keys-Makes, makes_rules, made)
    where
      made :
          (r : Ret ℕ × Node)
          → Makes Q (elim r.0 as (λ u. Io Node) [
            | ok n ↦ return r.1
            | err ↦ do
              node' ← Crypto.init os nacl r.1
              saved ← save_keys os node' path
              return node'
          ])
      made (ok n, node₁) = search makes_rules
      made (err, node₁) = search (makes_rules, init-Makes, save_keys-Makes) depth 8

  pub mesh_init-Makes : Makes Q (mesh_init os nacl)
  mesh_init-Makes = search (ensure_keys-Makes, name_node-Makes, makes_rules)
