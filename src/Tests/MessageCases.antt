-- ===== src/Tests/MessageCases.antt =====
-- `vex_mesh_send` of src/mesh.c and a line of the console at a concrete message.
use vexconnect.Prelude.{
  if◌then◌else◌, ltb, Bool-cases, inl, inr, sym, ap, ◌∙◌, ◌<◌, false, none, ℕ, ◌≡◌, refl, List, [],
  ◌∷◌, some, true, ok, arith, length, take, drop, get_or,
}
use vexconnect.Prelude.Int.{pos, minus_one}
use vexconnect.Prelude.Text.{codes}
use vexconnect.Node.{Peer}
use vexconnect.Seen
use vexconnect.Packet.Decode.{accepts}
use vexconnect.Transport.Send.{deliveries}
use vexconnect.Console.{read_command}
use vexconnect.Console.Typed.{typed-shown}
use vexconnect.System.{Os, IsOs, History, clocked}
use vexconnect.Mesh.{send, receive}
use vexconnect.Transport.Speaks.{Speaks}
use vexconnect.Mesh.Message.Sent.{send_any}
use vexconnect.Mesh.Reaches.{arrival, send-shown}
use vexconnect.Transport.Broadcast.{Broadcasts}
use vexconnect.Seen.History.{init-IsCache}
use vexconnect.Tests.Platform.{
  kernel, kernel-IsOs, kernel-WritesWhole, refusing, refusing-IsOs, plain_box, plain_box-IsNacl,
}
use vexconnect.Tests.Frames.{a_node}

abbrev hello : List ℕ
hello = codes "hello"

send_any_example :
    (id : List ℕ) × (h₁ : History) × (frame : List ℕ) × (count : ℕ) × (peers : List Peer)
    × (h₂ : History) × (send refusing plain_box a_node hello []
        ≡ some (
          (
            ok count,
            record a_node { peers = peers; seen = Seen.add Seen.init id 100; packets_sent = 1 },
          ),
          h₂,
        ))
    × Speaks (λ f. ⊥) [] h₁
    × (length id ≡ 8)
    × (take 8 (drop 1 frame) ≡ id)
    × (get_or frame 9 0 ≡ 7)
    × (accepts frame (length frame) ≡ true)
    × Broadcasts refusing minus_one (length frame) frame a_node.peers peers (clocked ∷ h₁) h₂ count
send_any_example =
    send_any refusing plain_box a_node hello [] refusing-IsOs plain_box-IsNacl (omega arith)

send-shown_example :
    (id : List ℕ) × (h₁ : History) × (frame : List ℕ) × (send (kernel []) plain_box a_node hello []
      ≡ some (
        (ok 2, record a_node { seen = Seen.add Seen.init id 100; packets_sent = 1 }),
        deliveries minus_one frame a_node.peers (clocked ∷ h₁),
      ))
    × (take 8 (drop 1 frame) ≡ id)
    × (get_or frame 9 0 ≡ 7)
    × (accepts frame (length frame) ≡ true)
    × (receive (kernel []) plain_box a_node frame (length frame) (pos 4) []
        ≡ arrival (kernel []) a_node frame hello 7 (pos 4) [])
send-shown_example =
    send-shown (kernel []) (kernel []) plain_box a_node a_node hello (pos 4) [] []
      (kernel-IsOs [] tt) (kernel-IsOs [] tt) plain_box-IsNacl (omega arith) (ground arith)
      (omega arith) (kernel-WritesWhole []) refl init-IsCache

-- A console at which the user types the message.
abbrev chatting : Os
chatting = record (kernel []) { fgets = λ h n. if ltb 10 n then some (codes "hello\n") else none }

short_line :
    (n : ℕ) (line : List ℕ)
    → (if ltb 10 n then some (codes "hello\n") else none) ≡ some line
    → length line < n
short_line n line e = elim (Bool-cases (ltb 10 n)) [
  | inl room ↦
      let e' : some (codes "hello\n") ≡ some line =
        sym (ap (λ b. if b then some (codes "hello\n") else none) room) ∙ e in
      let same : codes "hello\n" ≡ line = cc e' in
      let size : length line ≡ 6 = ap length (sym same) in ground arith
  | inr small ↦
      let e' : none ≡ some line =
        sym (ap (λ b. if b then some (codes "hello\n") else none) small) ∙ e in
      absurd (cc e')
]

chatting-IsOs : IsOs chatting
chatting-IsOs = record {
  read_bound = quiet.read_bound;
  read_bytes = quiet.read_bytes;
  fread_bound = quiet.fread_bound;
  fread_bytes = quiet.fread_bytes;
  uninit_size = quiet.uninit_size;
  uninit_bytes = quiet.uninit_bytes;
  fgets_bound = λ h. short_line;
}
  where
    quiet : IsOs (kernel [])
    quiet = kernel-IsOs [] tt

typed-shown_example :
    (id : List ℕ) × (h₁ : History) × (frame : List ℕ) × (read_command chatting plain_box a_node []
      ≡ some (
        (false, record a_node { seen = Seen.add Seen.init id 100; packets_sent = 1 }),
        deliveries minus_one frame a_node.peers (clocked ∷ h₁),
      ))
    × (take 8 (drop 1 frame) ≡ id)
    × (get_or frame 9 0 ≡ 7)
    × (accepts frame (length frame) ≡ true)
    × (receive (kernel []) plain_box a_node frame (length frame) (pos 4) []
        ≡ arrival (kernel []) a_node frame hello 7 (pos 4) [])
typed-shown_example =
    typed-shown chatting (kernel []) plain_box a_node a_node hello (pos 4) [] [] chatting-IsOs
      (kernel-IsOs [] tt) plain_box-IsNacl refl (ground arith, ground arith) (ground arith)
      (omega arith) (omega arith) (λ h fd bytes. refl) refl init-IsCache
