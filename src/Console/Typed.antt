-- ===== src/Console/Typed.antt =====
-- A line that the user types, on its way to the screens of the other nodes.
use vexconnect.Prelude.{
  ◌≢◌, ℕ, ◌≤◌, ◌<◌, Bytes, ◌≡◌, refl, ap, sym, ◌∙◌, List, [], ◌∷◌, ◌++◌, some, true, false, ◌==◌,
  arith, length, length-append, append_assoc, append-nil, take, drop, get_or, All, bytes_eq,
}
use vexconnect.Prelude.Int.{ℤ, minus_one}
use vexconnect.Prelude.Text.{codes}
use vexconnect.Prelude.Memory.{write_at, write_at-append}
use vexconnect.Node.{Node, count_up}
use vexconnect.Nacl.{Nacl, IsNacl}
use vexconnect.Seen
use vexconnect.Seen.{IsCache}
use vexconnect.Packet.Decode.{accepts}
use vexconnect.Transport.Send.{deliveries}
use vexconnect.Transport.Deliver.{WritesWhole}
use vexconnect.Mesh
use vexconnect.Mesh.{until_nul, max_message, receive}
use vexconnect.Mesh.Show.{until_nul-stop}
use vexconnect.Mesh.Reaches.{arrival, send-shown}
use vexconnect.System.{Os, IsOs, return, History, asked_line, clocked, ◌>>=◌}
use vexconnect.Console.{strip, command, read_command}

-- A text that is no command and has no zero byte.
abbrev pub IsText : List ℕ → Type 0
IsText text =
    All (λ b. b ≢ 0) text
    × All (λ c. bytes_eq text c ≡ false)
        (codes "" ∷ codes "/quit" ∷ codes "/q" ∷ codes "/peers" ∷ codes "/stats" ∷ [])

strip-append : (text : List ℕ) → strip (text ++ (10 ∷ [])) ≡ text
strip-append [] = refl
strip-append (b ∷ []) = refl
strip-append (b ∷ c ∷ text) = ap (◌∷◌ b) (strip-append (c ∷ text))

until_nul-text :
    (text rest : List ℕ) → All (λ b. b ≢ 0) text → until_nul (text ++ rest) ≡ text ++ until_nul rest
until_nul-text [] rest c = refl
until_nul-text (b ∷ text) rest c = ground (arith, c.0, until_nul-text text rest c.1)

whole_text : (text : List ℕ) → All (λ b. b ≢ 0) text → until_nul text ≡ text
whole_text text c =
    ap until_nul (sym (append-nil text)) ∙ until_nul-text text [] c ∙ append-nil text

not_empty : (text : List ℕ) → bytes_eq text [] ≡ false → (length text == 0) ≡ false
not_empty [] e = absurd (cc e)
not_empty (b ∷ text) e = ground arith

module _ (os : Os) (nacl : Nacl) (node : Node) (text : List ℕ) (h : History) where
  command-text :
      IsText text
      → command os nacl node text h
        ≡ (do sent ← Mesh.send os nacl node text; return (false, sent.1)) h
  unfolding command
  command-text is = rw (empty_no, is.1.1.0, is.1.1.1.0, is.1.1.1.1.0, is.1.1.1.1.1.0) refl
    where
      empty_no : (length text == 0) ≡ false
      empty_no = not_empty text is.1.0

module _ (os : Os) (nacl : Nacl) (v : IsOs os) (w : IsNacl nacl) (node : Node) (text : List ℕ)
    (h : History) where
  -- The text of a line is sent.
  read_command-text :
      os.fgets h 512 ≡ some (text ++ (10 ∷ []))
      → IsText text
      → read_command os nacl node h ≡ command os nacl node text (asked_line 512 ∷ h)
  unfolding read_command
  read_command-text typed is =
      rw (typed, ◌>>=◌)
        (rw filled (ap (λ t. command os nacl node t (asked_line 512 ∷ h)) (read_back is.0)))
    where
      line : List ℕ
      line = text ++ (10 ∷ [])

      rest : List ℕ
      rest = drop (length (line ++ (0 ∷ []))) (os.uninit h 512)

      filled : write_at (os.uninit h 512) 0 (line ++ (0 ∷ [])) ≡ some ((line ++ (0 ∷ [])) ++ rest)
      filled = write_at-append [] (os.uninit h 512) (line ++ (0 ∷ [])) 0 refl (
          omega (
            arith,
            v.uninit_size h 512,
            v.fgets_bound h 512 line typed,
            length-append line (0 ∷ []),
          ))

      read_back : All (λ b. b ≢ 0) text → strip (until_nul ((line ++ (0 ∷ [])) ++ rest)) ≡ text
      read_back clean =
          ap (λ t. strip (until_nul t)) (append_assoc line (0 ∷ []) rest)
          ∙ ap strip (until_nul-stop line rest ∙ until_nul-text text (10 ∷ []) clean)
          ∙ strip-append text

-- What a user types reaches the screens of the others: where the kernel takes every write, a line of at most
-- 401 bytes that is no command goes to every open peer in one frame, which carries the node's TTL. A node with the
-- same mesh key and a well-formed cache that gets this frame, on any kernel, shows the text of the line, if it has
-- not recorded the id, and relays the frame if it relays; or else it drops the frame.
pub typed-shown :
    (os os' : Os) (nacl : Nacl) (node receiver : Node) (text : List ℕ) (fd : ℤ) (h h' : History)
    → IsOs os
    → IsOs os'
    → IsNacl nacl
    → os.fgets h 512 ≡ some (text ++ (10 ∷ []))
    → IsText text
    → Bytes text
    → length text ≤ max_message
    → node.default_ttl < 256
    → WritesWhole os
    → receiver.mesh_key ≡ node.mesh_key
    → IsCache receiver.seen
    → (id : List ℕ) × (h₁ : History) × (frame : List ℕ) × (read_command os nacl node h
        ≡ some (
          (
            false,
            record node {
              seen = Seen.add node.seen id (os.time h₁);
              packets_sent = count_up node.packets_sent;
            },
          ),
          deliveries minus_one frame node.peers (clocked ∷ h₁),
        ))
      × (take 8 (drop 1 frame) ≡ id)
      × (get_or frame 9 0 ≡ node.default_ttl)
      × (accepts frame (length frame) ≡ true)
      × (receive os' nacl receiver frame (length frame) fd h'
          ≡ arrival os' receiver frame text node.default_ttl fd h')
typed-shown os os' nacl node receiver text fd h h' v v' w typed is clean small ttl whole same
      cache =
    let (id, h₁, frame, sent, identified, timed, accepted, seen) =
      send-shown os os' nacl node receiver text fd (asked_line 512 ∷ h) h' v v' w small clean ttl
        whole same cache in
    (
      id,
      h₁,
      frame,
      read_command-text os nacl v w node text h typed is
          ∙ command-text os nacl node text (asked_line 512 ∷ h) is
          ∙ rw (sent, ◌>>=◌) refl,
      identified,
      timed,
      accepted,
      seen ∙ ap (λ t. arrival os' receiver frame t node.default_ttl fd h') (whole_text text is.0),
    )
