-- ===== src/Program/Output.antt =====
-- What the program writes to its sockets, from its start to its end.
use vexconnect.Prelude.{ℕ, ◌≡◌, List, Option, none, some, Bool, Ret, ok, err, subst}
use vexconnect.Node.{Node}
use vexconnect.Nacl.{Nacl, IsNacl}
use vexconnect.Packet.Encoded.{IsFrame}
use vexconnect.Util.{hex}
use vexconnect.Keys.Wire.{mesh_init-Makes}
use vexconnect.Options.{Choice, Parsed, Settings, exits, runs}
use vexconnect.System.{Os, IsOs, Io, History, ◌>>=◌, return, lift, time, uninit}
use vexconnect.Transport.Speaks.{Speaks, Makes, Finds, makes_rules, Makes-bind}
use vexconnect.Transport.Wire.{unix_init-Makes}
use vexconnect.Program.Safe.{main_safe}
use vexconnect.Program.{Loop, connect_all, rounds, start, finish, main}
use vexconnect.Program.Wire.{connect_all-Makes, cleanup-Makes, rounds-Makes}

module _ (Q : List ℕ → Type 0) (os : Os) (nacl : Nacl) (v : IsOs os)
    (every : (f : List ℕ) → IsFrame f → Q f) where
  finish-Makes : (l : Loop) → Makes Q (finish os nacl l)
  unfolding finish
  finish-Makes l = search (makes_rules, cleanup-Makes)

  start-Makes : (s : Settings) (path : List ℕ) → Makes Q (start os nacl s path)
  unfolding start
  start-Makes s path = search (mesh_init-Makes, unix_init-Makes, makes_rules, opened)
    where
      opened :
          (r : Ret ℕ × Node)
          → Makes Q (elim r.0 as (λ u. Io (Option Loop)) [
            | err ↦ return none
            | ok status ↦ do
              node ← connect_all os s.peer_paths r.1
              out ← uninit os 9
              id_hex ← lift (hex node.sign_pk 4 out)
              last_stats ← time os
              last_prune ← time os
              return
                  (some (record { node = node; last_stats = last_stats; last_prune = last_prune }))
          ])
      opened (err, node) = search makes_rules
      opened (ok n, node) = search (connect_all-Makes, makes_rules) depth 8

  pub main-Makes : (n : ℕ) (choices : List Choice) → Makes Q (main os nacl n choices)
  unfolding main
  main-Makes n choices = search (makes_rules, parsed)
    where
      looped :
          (show_stats : Bool) (started : Option Loop)
          → Makes Q (elim started as (λ u. Io (Option ℕ)) [
            | none ↦ return (some 1)
            | some l ↦ do l' ← rounds os nacl n show_stats l; finish os nacl l'
          ])
      looped show_stats none = search makes_rules
      looped show_stats (some l) =
          search (makes_rules, rounds-Makes Q os nacl v every, finish-Makes)

      opened :
          (s : Settings) (listen_path : Option (List ℕ))
          → Makes Q (elim listen_path as (λ u. Io (Option ℕ)) [
            | none ↦ return (some 1)
            | some path ↦ do
              started ← start os nacl s path
              elim started as (λ u. Io (Option ℕ)) [
                | none ↦ return (some 1)
                | some l ↦ do l' ← rounds os nacl n s.show_stats l; finish os nacl l'
              ]
          ])
      opened s none = search makes_rules
      opened s (some path) =
          Makes-bind (start os nacl s path) _ (start-Makes s path) (looped s.show_stats)

      parsed :
          (p : Parsed)
          → Makes Q (elim p as (λ u. Io (Option ℕ)) [
            | exits code ↦ return (some code)
            | runs s ↦ elim s.listen_path as (λ u. Io (Option ℕ)) [
              | none ↦ return (some 1)
              | some path ↦ do
                started ← start os nacl s path
                elim started as (λ u. Io (Option ℕ)) [
                  | none ↦ return (some 1)
                  | some l ↦ do l' ← rounds os nacl n s.show_stats l; finish os nacl l'
                ]
            ]
          ])
      parsed (exits code) = search makes_rules
      parsed (runs s) = opened s s.listen_path

module _ (os : Os) (nacl : Nacl) (v : IsOs os) (w : IsNacl nacl) where
  -- Whatever the options, whatever the kernel answers and whatever bytes come in, each write of `main` to a
  -- socket is the length of a frame or the frame itself: at most 512 bytes that `vex_packet_decode` accepts, right
  -- behind the write of their number, as two bytes, to the same descriptor; or the descriptor is closed at
  -- once behind a length whose frame does not follow.
  pub main-Speaks :
      (n : ℕ) (choices : List Choice) (h : History)
      → (code : Option ℕ) × (h' : History) × (main os nacl n choices h ≡ some (code, h'))
        × Speaks IsFrame h h'
  main-Speaks n choices h =
      let (code, h', run, status) = main_safe os nacl v w n choices h in
      let whole = (main-Makes IsFrame os nacl v (λ f is. is) n choices).at h in
      (code, h', run, subst (Finds IsFrame h) run whole)
