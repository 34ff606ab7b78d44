-- ===== src/Keys.antt =====
-- The key files of src/crypto.c and `vex_mesh_init` of src/mesh.c: how a node comes up.
-- `err` of `load_keys` is its -1; the node is then as it was left. A short `fread` leaves the rest of its
-- array. `mkdir`, `fwrite`, `fclose` and `chmod` have results that the source does not look at.
pub mod Pairs
pub mod Load
pub mod Start
pub mod Store
pub mod Saved
pub mod Wire
use vexconnect.Prelude.{
  ℕ, List, [], ◌++◌, Option, none, some, Bool, true, false, not, ◌==◌, if◌then◌else◌, Ret, ok, err,
  length, take, replicate,
}
use vexconnect.Prelude.Int.{pos, minus_one}
use vexconnect.Prelude.Memory.{write_at}
use vexconnect.Prelude.Text.{codes}
use vexconnect.Node.{Peer, Node, max_peers}
use vexconnect.Seen
use vexconnect.Packet.{default_ttl}
use vexconnect.Crypto
use vexconnect.Crypto.{box_keypair, derive_mesh_key}
use vexconnect.Util.{hex}
use vexconnect.Nacl.{Nacl}
use vexconnect.Mesh.{until_nul}
use vexconnect.System.{
  Os, Io, made_directory, file_wrote, file_closed, made_private, ◌>>=◌, ◌>>◌, return, lift, call,
  fopen, fread, time, uninit,
}

-- `snprintf(filepath, 512, "%s/…", path)` keeps 511 bytes, and that of the key path 255.
abbrev pub key_file : List ℕ → List ℕ → List ℕ
key_file path name = take 511 (path ++ name)

abbrev pub key_path : Option (List ℕ) → List ℕ
key_path none = codes "/tmp/.vexconnect"
key_path (some home) = take 255 (home ++ codes "/.vexconnect")

-- `VEX_SCAN_INTERVAL`
abbrev pub scan_interval : ℕ
scan_interval = 15

-- `memset(node, 0, sizeof(*node))`
abbrev pub empty_peer : Peer
empty_peer = record {
  fd = pos 0;
  name = [];
  pubkey = replicate 32 0;
  active = false;
  rssi = pos 0;
  last_seen = 0;
}

abbrev pub empty_node : Node
empty_node = record {
  sign_pk = replicate 32 0;
  sign_sk = replicate 64 0;
  box_pk = replicate 32 0;
  box_sk = replicate 32 0;
  node_name = [];
  mesh_key = replicate 32 0;
  peers = replicate max_peers empty_peer;
  peer_count = pos 0;
  seen = record { entries = replicate Seen.seen_capacity Seen.empty_entry; count = 0 };
  packets_sent = 0;
  packets_received = 0;
  packets_relayed = 0;
  packets_dropped = 0;
  started_at = 0;
  default_ttl = 0;
  scan_interval = 0;
  relay_enabled = false;
  lora_enabled = false;
  running = false;
  listen_fd = pos 0;
}

-- The writing of a pair of keys to a file; `false` if it does not open.
abbrev pub save_pair : Os → List ℕ → List ℕ → List ℕ → Io Bool
save_pair os file first second = do
  f ← fopen os file true
  elim f [
    | none ↦ return false
    | some s ↦ do
      call (file_wrote s first)
      call (file_wrote s second)
      call (file_closed s)
      call (made_private file)
      return true
  ]

-- `vex_crypto_save_keys`
abbrev pub save_keys : Os → Node → List ℕ → Io (Ret ℕ)
save_keys os node path = do
  call (made_directory path)
  identity ← save_pair os (key_file path (codes "/identity.key")) node.sign_pk node.sign_sk
  if not identity then return err else do
    ephemeral ← save_pair os (key_file path (codes "/ephemeral.key")) node.box_pk node.box_sk
    if not ephemeral then return err else return (ok 0)

-- `fread(a, 1, n, f) != n || fread(b, 1, m, f) != m`: whether both came whole, and the arrays.
abbrev pub read_pair : Os → ℕ → ℕ → ℕ → List ℕ → List ℕ → Io (Bool × List ℕ × List ℕ)
read_pair os f n m a b = do
  first ← fread os f n
  a' ← lift (write_at a 0 first)
  if not (length first == n) then return (false, a', b) else do
    second ← fread os f m
    b' ← lift (write_at b 0 second)
    return (length second == m, a', b')

module _ (os : Os) (nacl : Nacl) where
  -- The keys for boxes, drawn anew.
  abbrev pub fresh_box : Node → Io Node
  fresh_box node = do
    keys ← box_keypair os nacl
    return (record node { box_pk = keys.0; box_sk = keys.1 })

  -- The part of `vex_crypto_load_keys` that reads the keys for boxes.
  abbrev pub load_box : Node → List ℕ → Io Node
  load_box node path = do
    f ← fopen os (key_file path (codes "/ephemeral.key")) false
    elim f [
      | none ↦ fresh_box node
      | some s ↦ do
        r ← read_pair os s 32 32 node.box_pk node.box_sk
        call (file_closed s)
        let node' = record node { box_pk = r.1; box_sk = r.2 }
        if r.0 then return node' else fresh_box node'
    ]

  -- `vex_crypto_load_keys`
  abbrev pub load_keys : Node → List ℕ → Io (Ret ℕ × Node)
  load_keys node path = do
    f ← fopen os (key_file path (codes "/identity.key")) false
    elim f [
      | none ↦ return (err, node)
      | some s ↦ do
        r ← read_pair os s 32 64 node.sign_pk node.sign_sk
        call (file_closed s)
        let node' = record node { sign_pk = r.1; sign_sk = r.2 }
        if not r.0 then return (err, node') else do
          boxed ← load_box node' path
          keyed ← lift (derive_mesh_key os nacl boxed)
          return (ok 0, keyed)
    ]

  -- The generation of keys if there are none, by `vex_mesh_init`.
  abbrev pub ensure_keys : Node → List ℕ → Io Node
  ensure_keys node path = do
    r ← load_keys node path
    elim r.0 [
      | ok n ↦ return r.1
      | err ↦ do node' ← Crypto.init os nacl r.1; saved ← save_keys os node' path; return node'
    ]

  -- The name that `vex_mesh_init` makes of the public key; the array has 64 bytes.
  abbrev pub name_node : Node → Io Node
  name_node node = do
    out ← uninit os 9
    text ← lift (hex node.sign_pk 4 out)
    return (record node { node_name = take 63 (codes "vex-" ++ until_nul text) })

  -- `vex_mesh_init`, which always returns 0. The name is empty after the `memset`.
  abbrev pub mesh_init : Io Node
  mesh_init = do
    now ← time os
    node ←
        ensure_keys
          (record empty_node {
            default_ttl = default_ttl;
            scan_interval = scan_interval;
            relay_enabled = true;
            running = true;
            started_at = now;
            listen_fd = minus_one;
            seen = Seen.init;
          })
          (key_path os.home)
    name_node node
