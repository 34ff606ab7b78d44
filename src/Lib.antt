-- ===== src/Lib.antt =====
-- A model of the VexConnect mesh node, the C program under `src/`, with the theorems about it.
--
-- A node holds a table of peers, a cache of packet ids, and keys. Frames come from peers through
-- `src/transport_unix.c`; `src/mesh.c` decodes them (`src/packet.c`), drops those whose id the cache
-- knows (`src/seen.c`), shows the text of an encrypted one (`src/crypto.c`), and sends the frame on to
-- the other peers with its TTL lowered. A message of the user is encrypted, gets an id, and is sent to
-- all peers. `src/main.c` reads the options, starts the node, and then waits, round by round, for a line of
-- the user, a connection or a frame.
--
-- Files:
--   Prelude.antt and its children: lists, Boolean tests, C integers, and memory. `slice`, `write_at`,
--     `memcpy`, `store` and `load` of Prelude/Memory.antt are `none` outside an array.
--   System.antt: the kernel and the C library. A call is an event; an answer is a function of the
--     calls before; `Io` carries the calls along. `IsOs` says what a kernel promises.
--   Nacl.antt: the calls of TweetNaCl, which the repository carries a copy of, with what it promises.
--   Node.antt: `vex_peer_t` and `vex_node_t` of src/vex.h.
--   Packet.antt: `vex_packet_t`, `vex_packet_encode` (encode), `vex_packet_decode` (decode);
--     Packet/Id.antt: `vex_packet_make_id` (make_id).
--   Seen.antt: `vex_seen_init`, `vex_seen_check`, `vex_seen_add` and `vex_seen_prune` of src/seen.c, by
--     the names init, check, add and prune. The clock is an argument.
--   Util.antt: `vex_hex` and `randombytes` of src/util.c; Util/Millis.antt: `vex_time_ms` (time_ms), over
--     an answer of `gettimeofday`, which is its argument.
--   Crypto.antt: `vex_crypto_derive_mesh_key`, `vex_crypto_init`, `vex_crypto_encrypt_broadcast` and
--     `vex_crypto_decrypt_broadcast` of src/crypto.c.
--   Transport.antt: src/transport_unix.c; each function has its name without `vex_transport_`.
--     Transport/Speaks.antt: which writes to the sockets a computation makes (`Makes`), with a rule for each
--     way to build one; the files called Wire, Mesh/Speech.antt and Program/Output.antt go by these rules
--     through the whole program. Transport/Clock.antt: a clock that does not run backwards.
--     Transport/Broadcast.antt: a broadcast call by call on any kernel, as a relation (`Broadcasts`).
--     Transport/Pipe.antt: what recv(2) says of a stream socket (`IsPipe`).
--   Mesh.antt: `vex_mesh_send`, `vex_mesh_receive` and `vex_mesh_relay` of src/mesh.c.
--     Mesh/Traffic.antt: one node over a time, as a relation of steps (`Hears`); Mesh/Network.antt: a
--     frame over many nodes, as another (`Spreads`); Mesh/Across.antt: a message from its sender to a screen;
--     Mesh/Reaches.antt: to the screens next to it; Mesh/Branches.antt: every branch of the handler.
--   Keys.antt: the key files, `vex_crypto_save_keys` and `vex_crypto_load_keys` of src/crypto.c, and
--     `vex_mesh_init` of src/mesh.c. `IsFileStore` of Keys/Store.antt says what a file store promises.
--   Options.antt: the option loop of `main` in src/main.c.
--   Console.antt: `print_stats`, `print_peers` and the handling of a line (read_command) of src/main.c.
--   Program.antt: `handle_signal` and the rest of `main`: start, main loop (rounds, round) and end (finish).
--     The array that a round polls and that of the peer paths (Options.antt) are as long as in the source, and
--     a write behind their end is a fault (`put` of Prelude/Memory.antt); Program/Watched.antt is about the room.
--     Program/Halts.antt: how many rounds are enough once a signal has come.
--   Tests.antt and its children: the theorems at concrete frames, nodes and kernels.
--
-- State is passed explicitly: a function takes the node and returns the changed one, an array that is
-- written through a pointer is taken and returned. `err` is the C result -1, `none` an access outside
-- an array. Bytes are numbers below 256; `uint16_t` and `uint64_t` wrap around as written.
--
-- Fuel: `read_loop` has one round for each byte of the frame and one more, since each round that goes
-- on reads at least a byte; `unix_read-Reads` shows that it does not run out. `digits_onto` divides a
-- number by ten and has as much fuel as the number. The main loop runs until it is stopped, so `main` takes
-- a bound on the rounds, and its theorems hold for each bound; `main_halts` says which bound is enough.
--
-- Not modelled: SIGPIPE. A write to a socket that its other end has closed raises it, and `main` leaves its
-- default action in place, which ends the process; in the model each write is answered, with a failure if
-- need be, so the theorems speak of a process that no SIGPIPE ends. Nor are usage, banner, prompt and the lines
-- that src/main.c prints at the start and the end; a signal outside the rounds of the main loop (in a
-- round, it counts as one in the round's `poll`); the log lines (`vex_log` of src/util.c), which change no
-- state; TweetNaCl itself; the mobile app under app/ and the site under site/.
pub mod Prelude
pub mod Packet
pub mod Seen
pub mod System
pub mod Nacl
pub mod Util
pub mod Node
pub mod Transport
pub mod Crypto
pub mod Mesh
pub mod Keys
pub mod Options
pub mod Console
pub mod Program
pub mod Tests
