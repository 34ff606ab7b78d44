-- ===== src/Program/Start.antt =====
-- The start of the program, up to the main loop.
use vexconnect.Prelude.{
  ℕ, ◌≤◌, ◌≡◌, refl, subst, sym, ◌∙◌, List, ◌∷◌, Option, none, some, true, Ret, ok, err, arith,
  length, Bytes,
}
use vexconnect.Node.{Node}
use vexconnect.Nacl.{Nacl, IsNacl}
use vexconnect.Seen.History.{init-IsCache}
use vexconnect.Util.{hex}
use vexconnect.Util.Hex.{hex_lem}
use vexconnect.Transport.{unix_init}
use vexconnect.Transport.Listen.{unix_init_lem}
use vexconnect.Crypto.KeySet.{keyed}
use vexconnect.Keys.Start.{online, key_name, mesh_init_lem}
use vexconnect.Options.{Settings}
use vexconnect.Console.Commands.{IsNode, Returns, Returns-seq}
use vexconnect.System.{Os, IsOs, Io, History, clocked, ◌>>=◌, return, lift, time, uninit}
use vexconnect.Program.{Loop, configured, connect_all, start}
use vexconnect.Program.Upkeep.{connect_all_runs}

-- The start fails, or it leads to a loop over a well-formed node that runs.
abbrev pub IsStart : Option Loop → Type 0
IsStart none = Unit {0}
IsStart (some l) = IsNode l.node × (l.node.running ≡ true)

module _ (os : Os) (nacl : Nacl) (v : IsOs os) (w : IsNacl nacl) where
  -- Behind the listening socket.
  joined :
      (paths : List (List ℕ)) (node : Node) (h : History)
      → IsNode node
      → node.running ≡ true
      → 4 ≤ length node.sign_pk
      → Bytes node.sign_pk
      → Returns IsStart (
          (do
            node' ← connect_all os paths node
            out ← uninit os 9
            id_hex ← lift (hex node'.sign_pk 4 out)
            last_stats ← time os
            last_prune ← time os
            return
                (some (record { node = node'; last_stats = last_stats; last_prune = last_prune })))
            h)
  joined paths node h is on size bytes =
      Returns-seq (λ n. IsNode n × (n.running ≡ node.running) × (n.sign_pk ≡ node.sign_pk)) IsStart
        _ (connect_all_runs os paths node h is)
        (λ node' h' same.
          let (run, back) =
            hex_lem node'.sign_pk (os.uninit h' 9) 4 (subst Bytes (sym same.2) bytes)
              (subst (λ k. 4 ≤ length k) (sym same.2) size) (omega (arith, v.uninit_size h' 9)) in
          rw run (
            some (record {
              node = node';
              last_stats = os.time h';
              last_prune = os.time (clocked ∷ h');
            }),
            clocked ∷ clocked ∷ h',
            refl,
            (same.0, same.1 ∙ on),
          ))

  listening :
      (paths : List (List ℕ)) (path : List ℕ) (node : Node) (h : History)
      → IsNode node
      → node.running ≡ true
      → 4 ≤ length node.sign_pk
      → Bytes node.sign_pk
      → Returns IsStart (
          (do
            r ← unix_init os node path
            elim r.0 as (λ x. Io (Option Loop)) [
              | err ↦ return none
              | ok status ↦ do
                node' ← connect_all os paths r.1
                out ← uninit os 9
                id_hex ← lift (hex node'.sign_pk 4 out)
                last_stats ← time os
                last_prune ← time os
                return (
                    some
                      (record { node = node'; last_stats = last_stats; last_prune = last_prune }))
            ])
            h)
  listening paths path node h is on size bytes =
      let (reply, h', run, which) = unix_init_lem os node path h in
      rw (run, ◌>>=◌) (opened reply h')
    where
      opened :
          (reply : Ret ℕ) (h' : History)
          → Returns IsStart (
              (elim reply as (λ x. Io (Option Loop)) [
                | err ↦ return none
                | ok status ↦ do
                  node' ← connect_all os paths (record node { listen_fd = os.socket h })
                  out ← uninit os 9
                  id_hex ← lift (hex node'.sign_pk 4 out)
                  last_stats ← time os
                  last_prune ← time os
                  return (
                      some
                        (record { node = node'; last_stats = last_stats; last_prune = last_prune }))
              ])
                h')
      opened err h' = (none, h', refl, tt)
      opened (ok status) h' =
          joined paths (record node { listen_fd = os.socket h }) h'
            (record { slots = is.slots; cache = is.cache }) on size bytes

  -- Whatever the kernel answers, the start has no access outside an array; it fails, or it leads to a loop over
  -- a well-formed node that runs.
  pub start_runs :
      (s : Settings) (path : List ℕ) (h : History) → Returns IsStart (start os nacl s path h)
  unfolding start
  start_runs s path h =
      let (k, h₁, made, is, shared) = mesh_init_lem os nacl v w h in
      let node = record (keyed (online (os.time h)) k) { node_name = key_name k } in
      rw (made, ◌>>=◌)
        (listening s.peer_paths path (configured s node) h₁
          (record { slots = refl; cache = init-IsCache }) refl (omega (arith, is.sign_pk_size))
          is.sign_pk_bytes)
