-- ===== src/Tests/Platform.antt =====
-- Kernels whose answers are simple functions of the calls before, and a box that hides nothing.
use vexconnect.Prelude.{
  append-nil, false, ◌%◌, subst, ℕ, zero, suc, ◌≤◌, ◌<◌, ◌≡◌, refl, ◌∙◌, sym, ap, List, [], ◌∷◌,
  ◌++◌, Option, none, some, leb, if◌then◌else◌, arith, length, take, drop, replicate,
  length-replicate, length-take, length-drop, length-append, drop-drop, take-append-drop, Bytes,
  All-take, All-drop, All-append, Bool-cases, inl, inr, le→leb, lt→leb_false,
}
use vexconnect.Prelude.Int.{ℤ, pos, minus_one}
use vexconnect.Nacl.{Nacl, IsNacl}
use vexconnect.System.{Os, IsOs, History, got, peer_at, has_read, ready}
use vexconnect.Transport.Deliver.{WritesWhole, WritesFail}
use vexconnect.Transport.Pipe.{IsPipe}

-- A stream of which the reads take bytes off the front.
abbrev pub content : List ℕ → History → List ℕ
content stream [] = stream
content stream (has_read fd n ∷ h) = drop n (content stream h)
content stream (e ∷ h) = content stream h

-- A kernel over a stream that takes every write, and whose clock stands at 100.
abbrev pub kernel : List ℕ → Os
kernel stream = record {
  time = λ h. 100;
  open_file = λ h path. minus_one;
  read = λ h fd n. got (take n (content stream h));
  write = λ h fd bytes. pos (length bytes);
  accept = λ h fd. peer_at (pos 9);
  socket = λ h. pos 8;
  connect = λ h fd path. pos 0;
  bind = λ h fd path. pos 0;
  listen = λ h fd n. pos 0;
  fopen = λ h path writes. some 1;
  fread = λ h f n. replicate n 7;
  poll = λ h fds. (false, ready []);
  fgets = λ h n. none;
  atoi = λ text. pos 7;
  home = none;
  uninit = λ h n. replicate n 0;
}

pub replicate-Bytes : (n b : ℕ) → b < 256 → Bytes (replicate n b)
replicate-Bytes zero b h = tt
replicate-Bytes (suc n) b h = (h, replicate-Bytes n b h)

content-Bytes : (stream : List ℕ) (h : History) → Bytes stream → Bytes (content stream h)
content-Bytes stream [] b = b
content-Bytes stream (has_read fd n ∷ h) b =
    All-drop (λ x. x < 256) n (content stream h) (content-Bytes stream h b)
content-Bytes stream (e ∷ h) b = content-Bytes stream h b

taken_small : (n : ℕ) (xs bs : List ℕ) → take n xs ≡ bs → length bs ≤ n
taken_small n xs bs e = omega (arith, ap length e, length-take n xs)

pub kernel-IsOs : (stream : List ℕ) → Bytes stream → IsOs (kernel stream)
kernel-IsOs stream b = record {
  read_bound = λ h fd n bs e. taken_small n (content stream h) bs (cc e);
  read_bytes = λ h fd n bs e.
      subst Bytes (cc e) (All-take (λ x. x < 256) n (content stream h) (content-Bytes stream h b));
  fread_bound = λ h f n. omega (arith, length-replicate {A = ℕ} n 7);
  fread_bytes = λ h f n. replicate-Bytes n 7 (omega arith);
  fgets_bound = λ h n line e. absurd (cc e);
  uninit_size = λ h n. length-replicate n 0;
  uninit_bytes = λ h n. replicate-Bytes n 0 (omega arith);
}

pub kernel-WritesWhole : (stream : List ℕ) → WritesWhole (kernel stream)
kernel-WritesWhole stream h fd bytes = refl

pub kernel-IsPipe : (stream : List ℕ) (fd : ℤ) → IsPipe (kernel stream) fd (content stream)
kernel-IsPipe stream fd = record {
  takes = λ h n. take_some n (content stream h);
  whole_header =
      λ h a b rest e. ([], ap (λ xs. got (take 2 xs)) e, ap (drop 2) e ∙ sym (append-nil rest));
}
  where
    take_some :
        (n : ℕ) (xs : List ℕ)
        → 0 < n
        → 0 < length xs
        → (b : ℕ) × (bs rest more : List ℕ) × (got (take n xs) ≡ got (b ∷ bs))
          × (xs ≡ (b ∷ bs) ++ rest)
          × (drop n xs ≡ rest ++ more)
    take_some zero xs h k = absurd (omega arith)
    take_some (suc n) [] h k = absurd (omega arith)
    take_some (suc n) (x ∷ xs) h k = (
      x,
      take n xs,
      drop n xs,
      [],
      refl,
      ap (◌∷◌ x) (sym (take-append-drop n xs)),
      sym (append-nil (drop n xs)),
    )

-- A kernel that refuses every write.
abbrev pub refusing : Os
refusing = record (kernel []) { write = λ h fd bytes. minus_one }

pub refusing-IsOs : IsOs refusing
refusing-IsOs = record {
  read_bound = quiet.read_bound;
  read_bytes = quiet.read_bytes;
  fread_bound = quiet.fread_bound;
  fread_bytes = quiet.fread_bytes;
  uninit_size = quiet.uninit_size;
  uninit_bytes = quiet.uninit_bytes;
  fgets_bound = quiet.fgets_bound;
}
  where
    quiet : IsOs (kernel [])
    quiet = kernel-IsOs [] tt

pub refusing-WritesFail : WritesFail refusing
refusing-WritesFail h fd bytes = refl

-- What the two box functions do: some leading bytes become zero, if there are 32.
abbrev padded : ℕ → List ℕ → Option (List ℕ)
padded k m = if leb 32 (length m) then some (replicate k 0 ++ drop k m) else none

-- A box that is the text itself, with zeros in front.
abbrev pub plain_box : Nacl
plain_box = record {
  hash = λ m. replicate 64 (length m % 256);
  secretbox = λ m n k. padded 16 m;
  secretbox_open = λ c n k. padded 32 c;
  sign_keypair = λ seed. (replicate 32 1, replicate 64 2);
  box_keypair = λ seed. (replicate 32 3, replicate 32 4);
}

padded-some :
    (k : ℕ) (m c : List ℕ) → padded k m ≡ some c → (32 ≤ length m) × (c ≡ replicate k 0 ++ drop k m)
padded-some k m c e = elim (Bool-cases (leb 32 (length m))) [
  | inl t ↦
      let e' : some (replicate k 0 ++ drop k m) ≡ some c =
        sym (ap (λ b. if b then some (replicate k 0 ++ drop k m) else none) t) ∙ e in
      (ground arith, cc e')
  | inr f ↦
      let e' : none ≡ some c =
        sym (ap (λ b. if b then some (replicate k 0 ++ drop k m) else none) f) ∙ e in
      absurd (cc e')
]

padded_size : (k : ℕ) (m c : List ℕ) → k ≤ 32 → padded k m ≡ some c → length c ≡ length m
padded_size k m c h e =
    let (long, same) = padded-some k m c e in
    omega (
      arith,
      ap length same,
      length-append (replicate k 0) (drop k m),
      length-replicate {A = ℕ} k 0,
      length-drop k m,
    )

open_again :
    (m c : List ℕ) → take 32 m ≡ replicate 32 0 → padded 16 m ≡ some c → padded 32 c ≡ some m
open_again m c z e =
    let (long, same) = padded-some 16 m c e in
    let size = padded_size 16 m c (omega arith) e in
    let tail : drop 32 c ≡ drop 32 m = ap (drop 32) same ∙ drop-drop 16 16 m in
    rw (le→leb 32 (length c) (omega arith), tail)
      (ap some (ap (λ t. t ++ drop 32 m) (sym z) ∙ take-append-drop 32 m))

pub plain_box-IsNacl : IsNacl plain_box
plain_box-IsNacl = record {
  hash_size = λ m. length-replicate 64 (length m % 256);
  hash_bytes = λ m. replicate-Bytes 64 (length m % 256) (omega arith);
  box_made = λ m n k h. (replicate 16 0 ++ drop 16 m, rw (le→leb 32 (length m) h));
  box_size = λ m n k c e. padded_size 16 m c (omega arith) e;
  box_zeros = λ m n k c e. ap (take 16) (padded-some 16 m c e).1;
  box_bytes = λ m n k c e b. subst Bytes (sym (padded-some 16 m c e).1) (
      All-append (λ x. x < 256) (replicate 16 0) (drop 16 m) (replicate-Bytes 16 0 (omega arith))
        (All-drop (λ x. x < 256) 16 m b));
  open_box = λ m n k c z e. open_again m c z e;
  open_size = λ c n k m e. padded_size 32 c m (omega arith) e;
  open_short = λ c n k h. rw (lt→leb_false 32 (length c) h);
  sign_keypair_size = λ seed. (refl, refl);
  sign_keypair_bytes = λ seed. replicate-Bytes 32 1 (omega arith);
  box_keypair_size = λ seed. (refl, refl);
}
