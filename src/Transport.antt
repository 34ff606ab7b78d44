-- ===== src/Transport.antt =====
-- src/transport_unix.c: frames over Unix sockets. A log line is not modelled.
pub mod Send
pub mod Deliver
pub mod Broadcast
pub mod Rounds
pub mod ReadLoop
pub mod Read
pub mod Pipe
pub mod Accept
pub mod Listen
pub mod Speaks
pub mod Wire
pub mod Clock
use vexconnect.Prelude.{
  ℕ, zero, suc, ◌+◌, ◌-◌, ◌*◌, ◌/◌, ◌%◌, ◌^◌, List, [], ◌∷◌, ◌++◌, Option, none, some, Bool, true,
  false, not, ◌&&◌, ◌||◌, ltb, ◌==◌, if◌then◌else◌, Ret, ok, err, take, length, get_or,
}
use vexconnect.Prelude.Int.{ℤ, pos, negsuc, is_negative, int_eq, increment}
use vexconnect.Prelude.Memory.{slice, write_at}
use vexconnect.Prelude.Text.{codes}
use vexconnect.Packet.{max_packet}
use vexconnect.Node.{Peer, Node}
use vexconnect.System.{
  Os, Io, ReadReply, got, AcceptReply, peer_at, ◌>>=◌, ◌>>◌, return, lift, call, closed, unlinked,
  set_nonblocking, time, read, write, accept, socket, connect, bind, listen,
}

-- The two bytes in front of a frame: its length, high byte first.
abbrev pub frame_header : ℕ → List ℕ
frame_header len = (len / 2 ^ 8 % 2 ^ 8) ∷ (len % 2 ^ 8) ∷ []

-- `n == m` for a result of `read` or `write` and a size.
abbrev pub is_size : ℤ → ℕ → Bool
is_size n m = int_eq n (pos m)

-- `peer->active = 0; close(peer->fd); return -1;` of a send
abbrev pub drop_peer : Peer → Io (Bool × Peer)
drop_peer p = do call (closed p.fd); return (false, record p { active = false })

-- `snprintf(name, 64, …)` keeps 63 bytes, and `strncpy` into `sun_path` 107.
abbrev pub name_size : ℕ
name_size = 64

abbrev pub sun_path_size : ℕ
sun_path_size = 108

-- The decimal digits of a number, in front of those that are there, with fuel.
pub digits_onto : ℕ → ℕ → List ℕ → List ℕ
digits_onto zero n acc = acc
digits_onto (suc fuel) n acc =
    let acc' = (48 + n % 10) ∷ acc in
    let rest = digits_onto fuel (n / 10) acc' in if n / 10 == 0 then acc' else rest

-- `%d`
abbrev pub decimal : ℤ → List ℕ
decimal (pos n) = digits_onto (suc n) n []
decimal (negsuc n) = b'-' ∷ digits_onto (n + 2) (n + 1) []

-- What a read has found: a frame of some bytes (0 if there is none yet), or -1.
abbrev pub ReadResult : Type 0
ReadResult = Ret ℕ × Peer × List ℕ

-- `peer->active = 0; close(peer->fd); return -1;` of a read
abbrev pub drop_reader : Peer → List ℕ → Io ReadResult
drop_reader p buf = do call (closed p.fd); return (err, record p { active = false }, buf)

module _ (os : Os) where
  -- The body of `vex_transport_send_to_peer` behind its guard, from the second write on.
  pub send_body : Peer → List ℕ → ℕ → Io (Bool × Peer)
  send_body p bytes len = do
    body ← lift (slice bytes 0 len)
    n ← write os p.fd body
    if not (is_size n len) then drop_peer p else return (true, p)

  -- `vex_transport_send_to_peer`: `true` for its 0, `false` for its -1. A write is taken to be answered: the
  -- default action of SIGPIPE, which the program leaves in place, is not modelled.
  pub send_to_peer : Peer → List ℕ → ℕ → Io (Bool × Peer)
  unfolding send_body
  send_to_peer p bytes len = if not p.active || is_negative p.fd then return (false, p) else do
    n ← write os p.fd (frame_header len)
    if not (is_size n 2) then drop_peer p else send_body p bytes len

  -- The loop of `vex_transport_send_to_all`, over the peers that are left.
  pub send_loop : List Peer → List ℕ → ℕ → ℤ → ℕ → Io (ℕ × List Peer)
  send_loop [] bytes len except_fd sent = return (sent, [])
  send_loop (p ∷ ps) bytes len except_fd sent = do
    r ←
        if p.active && not (int_eq p.fd except_fd)
        then send_to_peer p bytes len
        else return (false, p)
    rest ← send_loop ps bytes len except_fd (if r.0 then sent + 1 else sent)
    return (rest.0, r.1 ∷ rest.1)

  -- `vex_transport_send_to_all`
  pub send_to_all : Node → List ℕ → ℕ → ℤ → Io (ℕ × Node)
  send_to_all node bytes len except_fd = do
    r ← send_loop node.peers bytes len except_fd 0
    return (r.0, record node { peers = r.1 })

  -- `total == pkt_len`: the frame is complete.
  abbrev pub finish_read : Peer → List ℕ → ℕ → Io ReadResult
  finish_read p buf pkt_len = do
    now ← time os
    return (ok pkt_len, record p { last_seen = now }, buf)

  -- The loop that reads the payload, with fuel for its rounds; out of fuel it faults.
  pub read_loop : ℕ → Peer → List ℕ → ℕ → ℕ → Io ReadResult
  read_loop zero p buf total pkt_len = λ h. none
  read_loop (suc fuel) p buf total pkt_len = elim (ltb total pkt_len) [
    | false ↦ finish_read p buf pkt_len
    | true ↦ do
      reply ← read os p.fd (pkt_len - total)
      elim reply [
        | got [] ↦ drop_reader p buf
        | got (b ∷ bs) ↦ do
          buf' ← lift (write_at buf total (b ∷ bs))
          read_loop fuel p buf' (total + length (b ∷ bs)) pkt_len
        | ReadReply.again ↦ drop_reader p buf
        | ReadReply.failed ↦ drop_reader p buf
      ]
  ]

  -- What follows a complete header: the checks of the frame's length and the loop.
  pub read_frame : Peer → List ℕ → ℕ → List ℕ → Io ReadResult
  read_frame p buf buf_len header =
      let pkt_len = get_or header 0 0 * 2 ^ 8 + get_or header 1 0 in
      if ltb buf_len pkt_len || ltb max_packet pkt_len
      then return (err, p, buf)
      else read_loop (suc pkt_len) p buf 0 pkt_len

  -- `vex_transport_unix_read`. A header of one byte is an error that keeps the peer.
  pub unix_read : Peer → List ℕ → ℕ → Io ReadResult
  unix_read p buf buf_len = if not p.active then return (err, p, buf) else do
    reply ← read os p.fd 2
    elim reply [
      | got [] ↦ drop_reader p buf
      | got (b ∷ bs) ↦
          if not (length (b ∷ bs) == 2)
          then return (err, p, buf)
          else read_frame p buf buf_len (b ∷ bs)
      | ReadReply.again ↦ return (ok 0, p, buf)
      | ReadReply.failed ↦ drop_reader p buf
    ]

  -- The loop over the peer slots of `vex_transport_unix_accept` and `vex_transport_unix_connect`:
  -- the slots with the first free one taken, or `none`.
  pub take_slot : ℤ → List ℕ → List Peer → Io (Option (List Peer))
  take_slot fd name [] = return none
  take_slot fd name (p ∷ ps) = elim p.active [
    | false ↦ do
      now ← time os
      call (set_nonblocking fd)
      return (
          some (
            record p { fd = fd; active = true; last_seen = now; name = take (name_size - 1) name }
            ∷ ps))
    | true ↦ do
      rest ← take_slot fd name ps
      return (elim rest [ none ↦ none | some ps' ↦ some (p ∷ ps') ])
  ]

  -- `vex_transport_unix_accept`
  pub unix_accept : Node → Io (Ret ℕ × Node)
  unix_accept node = do
    reply ← accept os node.listen_fd
    elim reply [
      | AcceptReply.again ↦ return (ok 0, node)
      | AcceptReply.failed ↦ return (err, node)
      | peer_at fd ↦ do
        slots ← take_slot fd (codes "peer-" ++ decimal fd) node.peers
        elim slots [
          | some ps ↦
              return (ok 1, record node { peers = ps; peer_count = increment node.peer_count })
          | none ↦ do call (closed fd); return (ok 0, node)
        ]
    ]

  -- What `vex_transport_unix_connect` does with a connected socket.
  pub keep_connection : Node → List ℕ → ℤ → Io (Ret ℕ × Node)
  keep_connection node sock_path fd = do
    slots ← take_slot fd (codes "peer@" ++ sock_path) node.peers
    elim slots [
      | some ps ↦ return (ok 0, record node { peers = ps; peer_count = increment node.peer_count })
      | none ↦ do call (closed fd); return (err, node)
    ]

  abbrev close_with : ℤ → Node → Io (Ret ℕ × Node)
  close_with fd node = do call (closed fd); return (err, node)

  -- `vex_transport_unix_connect`
  pub unix_connect : Node → List ℕ → Io (Ret ℕ × Node)
  unfolding keep_connection
  unix_connect node sock_path = do
    fd ← socket os
    if is_negative fd then return (err, node) else do
      status ← connect os fd (take (sun_path_size - 1) sock_path)
      if is_negative status then close_with fd node else keep_connection node sock_path fd

  -- `vex_transport_unix_init`
  pub unix_init : Node → List ℕ → Io (Ret ℕ × Node)
  unix_init old sock_path = do
    fd ← socket os
    let node = record old { listen_fd = fd }
    if is_negative fd then return (err, node) else do
      call (unlinked sock_path)
      bound_status ← bind os fd (take (sun_path_size - 1) sock_path)
      if is_negative bound_status then close_with fd node else do
        listen_status ← listen os fd 5
        if is_negative listen_status
            then close_with fd node
            else do call (set_nonblocking fd); return (ok 0, node)
