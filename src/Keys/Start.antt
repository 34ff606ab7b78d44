-- ===== src/Keys/Start.antt =====
-- `vex_mesh_init` of src/mesh.c: the node that comes up.
use vexconnect.Prelude.{
  ◌/◌, ◌%◌, ℕ, ◌≡◌, inl, inr, refl, true, false, [], ◌<◌, ◌==◌, zero, suc, if◌then◌else◌, take_all,
  length-take, drop, ap, List, ◌++◌, ◌∷◌, some, ok, err, arith, take, replicate, Bytes, All-take,
}
use vexconnect.Prelude.Int.{minus_one}
use vexconnect.Prelude.Text.{codes}
use vexconnect.Node.{Node}
use vexconnect.Nacl.{Nacl, IsNacl}
use vexconnect.Packet.{default_ttl}
use vexconnect.System.{Os, IsOs, History, clocked, ◌>>=◌}
use vexconnect.Util.Hex.{hex_lem, encoded, digit, length-encoded}
use vexconnect.Mesh.{until_nul}
use vexconnect.Mesh.Show.{until_nul-stop}
use vexconnect.Prelude.Memory.{agree, agree_lem}
use vexconnect.Seen
use vexconnect.Crypto.KeySet.{KeySet, IsKeySet, keyed, shared_key, Rekeys, init-Rekeys}
use vexconnect.Keys.{empty_node, ensure_keys, key_path, name_node, mesh_init, scan_interval}
use vexconnect.Keys.Load.{LoadsKeys, load_keys_runs}
use vexconnect.Keys.Pairs.{save_keys_runs}

digit-ne-zero : (k : ℕ) → k < 16 → (digit k == 0) ≡ false
unfolding agree
digit-ne-zero k small =
    ground (arith, agree_lem (λ d. if digit d == 0 then 1 else 0) (λ d. 0) k 16 small refl)

until_nul-encoded : (bs : List ℕ) → Bytes bs → until_nul (encoded bs) ≡ encoded bs
until_nul-encoded [] c = refl
until_nul-encoded (b ∷ bs) c = rw (
  digit-ne-zero (b / 16) (omega (arith, c.0)),
  digit-ne-zero (b % 16) (omega arith),
  until_nul-encoded bs c.1,
)

zero-Bytes : (n : ℕ) → Bytes (replicate n 0)
zero-Bytes zero = tt
zero-Bytes (suc n) = (omega arith, zero-Bytes n)

empty-IsKeySet : IsKeySet (record {
  sign_pk = replicate 32 0;
  sign_sk = replicate 64 0;
  box_pk = replicate 32 0;
  box_sk = replicate 32 0;
  mesh_key = replicate 32 0;
})
empty-IsKeySet = record {
  sign_pk_size = refl;
  sign_pk_bytes = zero-Bytes 32;
  sign_sk_size = refl;
  box_pk_size = refl;
  box_sk_size = refl;
  mesh_key_size = refl;
}

-- The node of `vex_mesh_init`, but for its keys and its name.
abbrev pub online : ℕ → Node
online now = record empty_node {
  default_ttl = default_ttl;
  scan_interval = scan_interval;
  relay_enabled = true;
  running = true;
  started_at = now;
  listen_fd = minus_one;
  seen = Seen.init;
}

-- The name: `vex-` and the first four bytes of the public key in hexadecimal.
abbrev pub key_name : KeySet → List ℕ
key_name k = codes "vex-" ++ encoded (take 4 k.sign_pk)

module _ (os : Os) (nacl : Nacl) (v : IsOs os) (w : IsNacl nacl) where
  ensured :
      (node : Node) (path : List ℕ) (h : History)
      → LoadsKeys os nacl v w node path h
      → Rekeys (λ k. k.mesh_key ≡ shared_key nacl) (λ n. ensure_keys os nacl n path) node h
  ensured node path h (ok n, k, h₁, run, is, inl bad) = absurd (cc bad)
  ensured node path h (ok n, k, h₁, run, is, inr shared) = (k, h₁, rw (run, ◌>>=◌), is, shared)
  ensured node path h (err, k, h₁, run, is, which) =
      let (k', h₂, made, is', shared) =
        init-Rekeys os nacl v w (keyed node k) h₁ is.mesh_key_size in
      let (r, h₃, saved) = save_keys_runs os (keyed node k') path h₂ in
      (k', h₃, rw (run, ◌>>=◌) (rw (made, ◌>>=◌) (rw (saved, ◌>>=◌))), is', shared)

  name_node_runs :
      (node : Node) (k : KeySet) (h : History)
      → IsKeySet k
      → name_node os nacl (keyed node k) h
        ≡ some (record (keyed node k) { node_name = key_name k }, h)
  name_node_runs node k h is =
      let out = os.uninit h 9 in
      let four = take 4 k.sign_pk in
      let (run, back) =
        hex_lem k.sign_pk out 4 is.sign_pk_bytes (omega (arith, is.sign_pk_size))
          (omega (arith, v.uninit_size h 9)) in
      rw
        (
          run,
          until_nul-stop (encoded four) (drop 9 out),
          until_nul-encoded four (All-take (λ b. b < 256) 4 k.sign_pk is.sign_pk_bytes),
        )
        (ap (λ t. some (record (keyed node k) { node_name = t }, h))
          (take_all 63 (key_name k) (omega (arith, length-encoded four, length-take 4 k.sign_pk))))

  -- Whatever the kernel answers and whatever is in the key files, a node comes up with no access outside
  -- an array: it has no peers and an empty cache, it relays, its keys have their sizes, its mesh key is the
  -- one that every node has, and its name is made of its public key.
  pub mesh_init_lem :
      (h : History)
      → (k : KeySet) × (h' : History) × (mesh_init os nacl h
          ≡ some (record (keyed (online (os.time h)) k) { node_name = key_name k }, h'))
        × IsKeySet k
        × (k.mesh_key ≡ shared_key nacl)
  mesh_init_lem h =
      let node = online (os.time h) in
      let path = key_path os.home in
      let (k, h', run, is, shared) =
        ensured node path (clocked ∷ h)
          (load_keys_runs os nacl v w node path (clocked ∷ h) empty-IsKeySet (zero-Bytes 32)) in
      (k, h', rw (run, ◌>>=◌) (name_node_runs node k h' is), is, shared)
