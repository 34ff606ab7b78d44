-- ===== src/Transport/Speaks.antt =====
-- What a node writes to its sockets: rules for each way to build a computation, and their ruleset.
use vexconnect.Prelude.{
  ◌≡◌, refl, ℕ, List, ◌∷◌, Option, none, some, Bool, true, false, if◌then◌else◌, length,
}
use vexconnect.Prelude.Int.{ℤ}
use vexconnect.System.{
  Os, Io, History, Event, wrote, closed, return, lift, call, time, open_file, read, accept, socket,
  connect, bind, listen, uninit, poll, fgets, fopen, fread, ◌>>=◌, ◌>>◌,
}
use vexconnect.Transport.{frame_header}

-- Not a write to a socket.
abbrev pub IsQuiet : Event → Type 0
IsQuiet (wrote fd bs) = ⊥
IsQuiet e = Unit {0}

-- The calls after a history: each write is a frame of Q, behind the write of its length to the same
-- descriptor, or the write of a length alone, and then the descriptor is closed at once.
pub data Speaks (Q : List ℕ → Type 0) (h₀ : History) : History → Type 0 where
  silent : Speaks Q h₀ h₀
  quiet : (e : Event) {h : History} → IsQuiet e → Speaks Q h₀ h → Speaks Q h₀ (e ∷ h)
  framed :
      (fd : ℤ) (f : List ℕ) {h : History}
      → Q f
      → Speaks Q h₀ h
      → Speaks Q h₀ (wrote fd f ∷ wrote fd (frame_header (length f)) ∷ h)
  cut :
      (fd : ℤ) (f : List ℕ) {h : History}
      → Q f
      → Speaks Q h₀ h
      → Speaks Q h₀ (closed fd ∷ wrote fd (frame_header (length f)) ∷ h)

pub Speaks-trans :
    {Q : List ℕ → Type 0} {h₀ h₁ h₂ : History} → Speaks Q h₀ h₁ → Speaks Q h₁ h₂ → Speaks Q h₀ h₂
Speaks-trans s silent = s
Speaks-trans s (quiet e q t) = quiet e q (Speaks-trans s t)
Speaks-trans s (framed fd f q t) = framed fd f q (Speaks-trans s t)
Speaks-trans s (cut fd f q t) = cut fd f q (Speaks-trans s t)

pub Speaks-map :
    {Q Q' : List ℕ → Type 0} {h₀ h : History}
    → ((f : List ℕ) → Q f → Q' f)
    → Speaks Q h₀ h
    → Speaks Q' h₀ h
Speaks-map g silent = silent
Speaks-map g (quiet e q s) = quiet e q (Speaks-map g s)
Speaks-map g (framed fd f q s) = framed fd f (g f q) (Speaks-map g s)
Speaks-map g (cut fd f q s) = cut fd f (g f q) (Speaks-map g s)

abbrev pub Finds : {A : Type 0} → (List ℕ → Type 0) → History → Option (A × History) → Type 0
Finds Q h₀ none = Unit {0}
Finds Q h₀ (some (a, h)) = Speaks Q h₀ h

-- A computation that writes nothing but frames of Q.
pub record Makes {A : Type 0} (Q : List ℕ → Type 0) (m : Io A) : Type 0 where
  pub at : (h : History) → Finds Q h (m h)

-- The rest of a block behind an access to memory.
pub Finds-lift :
    (Q : List ℕ → Type 0) {A B : Type 0} (o : Option A) (f : A → Io B) (h : History)
    → ((a : A) → o ≡ some a → Finds Q h (f a h))
    → Finds Q h ((lift o >>= f) h)
Finds-lift Q none f h g = tt
Finds-lift Q (some a) f h g = g a refl

module _ {Q : List ℕ → Type 0} where
  pub Finds-from :
      {A : Type 0} {h₀ h : History} (r : Option (A × History))
      → Speaks Q h₀ h
      → Finds Q h r
      → Finds Q h₀ r
  Finds-from none s t = tt
  Finds-from (some (a, h')) s t = Speaks-trans s t

  pub Finds-seq :
      {A B : Type 0} (f : A → Io B) (h₀ : History) (r : Option (A × History))
      → Finds Q h₀ r
      → ((a : A) → Makes Q (f a))
      → Finds Q h₀ (elim r [ none ↦ none | some (a, h) ↦ f a h ])
  Finds-seq f h₀ none s g = tt
  Finds-seq f h₀ (some (a, h)) s g = Finds-from (f a h) s ((g a).at h)

  pub Makes-bind :
      {A B : Type 0} (m : Io A) (f : A → Io B)
      → Makes Q m
      → ((a : A) → Makes Q (f a))
      → Makes Q (m >>= f)
  Makes-bind m f k g = record { at = λ h. Finds-seq f h (m h) (k.at h) g }

  pub Makes-then :
      {B : Type 0} (m : Io (Unit {0})) (k : Io B) → Makes Q m → Makes Q k → Makes Q (m >> k)
  Makes-then m k s g = record { at = λ h. Finds-seq (λ u. k) h (m h) (s.at h) (λ u. g) }

  pub Makes-return : {A : Type 0} (a : A) → Makes Q (return a)
  Makes-return a = record { at = λ h. silent }

  pub Makes-call : (e : Event) → IsQuiet e → Makes Q (call e)
  Makes-call e q = record { at = λ h. quiet e q silent }

  pub Makes-lift : {A : Type 0} (o : Option A) → Makes Q (lift o)
  Makes-lift none = record { at = λ h. tt }
  Makes-lift (some a) = record { at = λ h. silent }

  -- The rest of the block may use what the access gave.
  pub Makes-bind_lift :
      {A B : Type 0} (o : Option A) (f : A → Io B)
      → ((a : A) → o ≡ some a → Makes Q (f a))
      → Makes Q (lift o >>= f)
  Makes-bind_lift o f g = record { at = λ h. Finds-lift Q o f h (λ a e. (g a e).at h) }

module _ {Q : List ℕ → Type 0} {A : Type 0} where
  pub Makes-if :
      (b : Bool) (m m' : Io A)
      → (b ≡ true → Makes Q m)
      → (b ≡ false → Makes Q m')
      → Makes Q (if b then m else m')
  Makes-if true m m' f g = f refl
  Makes-if false m m' f g = g refl

module _ {Q : List ℕ → Type 0} (os : Os) where
  pub Makes-time : Makes Q (time os)
  Makes-time = record { at = λ h. quiet _ tt silent }

  pub Makes-open_file : (path : List ℕ) → Makes Q (open_file os path)
  Makes-open_file path = record { at = λ h. quiet _ tt silent }

  pub Makes-read : (fd : ℤ) (n : ℕ) → Makes Q (read os fd n)
  Makes-read fd n = record { at = λ h. quiet _ tt silent }

  pub Makes-accept : (fd : ℤ) → Makes Q (accept os fd)
  Makes-accept fd = record { at = λ h. quiet _ tt silent }

  pub Makes-socket : Makes Q (socket os)
  Makes-socket = record { at = λ h. quiet _ tt silent }

  pub Makes-connect : (fd : ℤ) (path : List ℕ) → Makes Q (connect os fd path)
  Makes-connect fd path = record { at = λ h. quiet _ tt silent }

  pub Makes-bound : (fd : ℤ) (path : List ℕ) → Makes Q (bind os fd path)
  Makes-bound fd path = record { at = λ h. quiet _ tt silent }

  pub Makes-listen : (fd : ℤ) (n : ℕ) → Makes Q (listen os fd n)
  Makes-listen fd n = record { at = λ h. quiet _ tt silent }

  pub Makes-uninit : (n : ℕ) → Makes Q (uninit os n)
  Makes-uninit n = record { at = λ h. silent }

  pub Makes-poll : (fds : List ℤ) → Makes Q (poll os fds)
  Makes-poll fds = record { at = λ h. quiet _ tt silent }

  pub Makes-fgets : (n : ℕ) → Makes Q (fgets os n)
  Makes-fgets n = record { at = λ h. quiet _ tt silent }

  pub Makes-fopen : (path : List ℕ) (writes : Bool) → Makes Q (fopen os path writes)
  Makes-fopen path writes = record { at = λ h. quiet _ tt silent }

  pub Makes-fread : (f n : ℕ) → Makes Q (fread os f n)
  Makes-fread f n = record { at = λ h. quiet _ tt silent }

pub ruleset makes_rules = (
  Makes-return, Makes-call, Makes-time, Makes-open_file, Makes-read, Makes-accept, Makes-socket,
  Makes-connect, Makes-bound, Makes-listen, Makes-uninit, Makes-poll, Makes-fgets, Makes-fopen,
  Makes-fread, Makes-lift, Makes-if, Makes-bind, Makes-then,
)
