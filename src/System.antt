-- ===== src/System.antt =====
-- What the program calls and does not implement: the kernel and the C library.
-- The answer to a call is a function of the calls made before it, newest first, so that an answer may
-- depend on anything that the program has done. A run carries this history along.
use vexconnect.Prelude.{ℕ, ◌≤◌, ◌<◌, ◌≡◌, Bool, List, ◌∷◌, Option, none, some, length, Bytes}
use vexconnect.Prelude.Int.{ℤ}

-- What the console shows on request: the lines of `/stats` and of `/peers`.
pub data Report : Type 0 where
  -- name, hours and minutes, the packets sent, received, relayed and dropped, and the open peers
  stats : List ℕ → ℤ → ℤ → ℕ → ℕ → ℕ → ℕ → ℕ → Report
  -- name, descriptor, and the seconds since the last frame
  peer_line : List ℕ → ℤ → ℤ → Report
  no_peers : Report

-- The calls. A byte string stands for each text.
pub data Event : Type 0 where
  clocked : Event
  opened : List ℕ → Event
  has_read : ℤ → ℕ → Event
  wrote : ℤ → List ℕ → Event
  closed : ℤ → Event
  accepted : ℤ → Event
  made_socket : Event
  connected : ℤ → List ℕ → Event
  bound : ℤ → List ℕ → Event
  listened : ℤ → ℕ → Event
  unlinked : List ℕ → Event
  set_nonblocking : ℤ → Event
  made_directory : List ℕ → Event
  file_opened : List ℕ → Bool → Event
  file_read : ℕ → ℕ → Event
  file_wrote : ℕ → List ℕ → Event
  file_closed : ℕ → Event
  made_private : List ℕ → Event
  waited : List ℤ → Event
  asked_line : ℕ → Event
  reported : Report → Event
  -- the line that shows a message: its text, its TTL, and the two terms of its hop count
  displayed : List ℕ → ℕ → ℕ → Event

abbrev pub History : Type 0
History = List Event

-- `read` and `accept` fail with EAGAIN or EWOULDBLOCK, or in another way.
pub data ReadReply : Type 0 where
  got : List ℕ → ReadReply
  again : ReadReply
  failed : ReadReply

pub data AcceptReply : Type 0 where
  peer_at : ℤ → AcceptReply
  again : AcceptReply
  failed : AcceptReply

-- `poll` fails, or tells for each descriptor whether something can be read.
pub data PollReply : Type 0 where
  ready : List Bool → PollReply
  failed : PollReply

pub record Os : Type 0 where
  pub time : History → ℕ
  pub open_file : History → List ℕ → ℤ
  pub read : History → ℤ → ℕ → ReadReply
  pub write : History → ℤ → List ℕ → ℤ
  pub accept : History → ℤ → AcceptReply
  pub socket : History → ℤ
  pub connect : History → ℤ → List ℕ → ℤ
  pub bind : History → ℤ → List ℕ → ℤ
  pub listen : History → ℤ → ℕ → ℤ
  -- `fopen` of a path, to write or to read: a stream; and the bytes that `fread` stores
  pub fopen : History → List ℕ → Bool → Option ℕ
  pub fread : History → ℕ → ℕ → List ℕ
  -- whether SIGINT or SIGTERM has come by the end of a `poll`, and its reply
  pub poll : History → List ℤ → Bool × PollReply
  -- the bytes of a line of the console
  pub fgets : History → ℕ → Option (List ℕ)
  pub atoi : List ℕ → ℤ
  -- the variable HOME of the environment
  pub home : Option (List ℕ)
  -- the bytes that an array of automatic storage holds before it is written
  pub uninit : History → ℕ → List ℕ

-- Documented: `read` and `fread` store at most as many bytes as they are asked for,
-- and `fgets` one byte less.
pub record IsOs (os : Os) : Type 0 where
  pub read_bound :
      (h : History) (fd : ℤ) (n : ℕ) (bs : List ℕ) → os.read h fd n ≡ got bs → length bs ≤ n
  pub read_bytes : (h : History) (fd : ℤ) (n : ℕ) (bs : List ℕ) → os.read h fd n ≡ got bs → Bytes bs
  pub fread_bound : (h : History) (f n : ℕ) → length (os.fread h f n) ≤ n
  pub fread_bytes : (h : History) (f n : ℕ) → Bytes (os.fread h f n)
  pub fgets_bound :
      (h : History) (n : ℕ) (line : List ℕ) → os.fgets h n ≡ some line → length line < n
  pub uninit_size : (h : History) (n : ℕ) → length (os.uninit h n) ≡ n
  pub uninit_bytes : (h : History) (n : ℕ) → Bytes (os.uninit h n)

-- A computation that makes calls. `none` is an access outside an array.
abbrev pub Io : Type 0 → Type 0
Io A = History → Option (A × History)

infixl 5 ◌>>=◌ ◌>>◌
abbrev pub ◌>>=◌ : {A B : Type 0} → Io A → (A → Io B) → Io B
◌>>=◌ m f h = elim (m h) [ none ↦ none | some (a, h') ↦ f a h' ]

abbrev pub ◌>>◌ : {B : Type 0} → Io (Unit {0}) → Io B → Io B
◌>>◌ m k h = elim (m h) [ none ↦ none | some (a, h') ↦ k h' ]

abbrev pub return : {A : Type 0} → A → Io A
return a h = some (a, h)

-- An access to memory makes no call.
abbrev pub lift : {A : Type 0} → Option A → Io A
lift m h = elim m [ none ↦ none | some a ↦ some (a, h) ]

abbrev pub call : Event → Io (Unit {0})
call e h = some (tt, e ∷ h)

module _ (os : Os) where
  abbrev pub time : Io ℕ
  time h = some (os.time h, clocked ∷ h)

  abbrev pub open_file : List ℕ → Io ℤ
  open_file path h = some (os.open_file h path, opened path ∷ h)

  abbrev pub read : ℤ → ℕ → Io ReadReply
  read fd n h = some (os.read h fd n, has_read fd n ∷ h)

  abbrev pub write : ℤ → List ℕ → Io ℤ
  write fd bs h = some (os.write h fd bs, wrote fd bs ∷ h)

  abbrev pub accept : ℤ → Io AcceptReply
  accept fd h = some (os.accept h fd, accepted fd ∷ h)

  abbrev pub socket : Io ℤ
  socket h = some (os.socket h, made_socket ∷ h)

  abbrev pub connect : ℤ → List ℕ → Io ℤ
  connect fd path h = some (os.connect h fd path, connected fd path ∷ h)

  abbrev pub bind : ℤ → List ℕ → Io ℤ
  bind fd path h = some (os.bind h fd path, bound fd path ∷ h)

  abbrev pub listen : ℤ → ℕ → Io ℤ
  listen fd n h = some (os.listen h fd n, listened fd n ∷ h)

  abbrev pub uninit : ℕ → Io (List ℕ)
  uninit n h = some (os.uninit h n, h)

  abbrev pub poll : List ℤ → Io (Bool × PollReply)
  poll fds h = some (os.poll h fds, waited fds ∷ h)

  abbrev pub fgets : ℕ → Io (Option (List ℕ))
  fgets n h = some (os.fgets h n, asked_line n ∷ h)

  -- `true` opens to write.
  abbrev pub fopen : List ℕ → Bool → Io (Option ℕ)
  fopen path writes h = some (os.fopen h path writes, file_opened path writes ∷ h)

  abbrev pub fread : ℕ → ℕ → Io (List ℕ)
  fread f n h = some (os.fread h f n, file_read f n ∷ h)
