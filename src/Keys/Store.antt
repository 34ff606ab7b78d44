-- ===== src/Keys/Store.antt =====
-- A file store, and the pairs of keys in its files.
use vexconnect.Prelude.{
  ℕ, ◌+◌, ◌≡◌, refl, ◌∙◌, ap, subst, sym, List, [], ◌∷◌, ◌++◌, Option, none, some, Bool, true,
  false, ◌==◌, le→leb, bytes_eq, bytes_eq_refl, ==_refl, Option-cases, inl, inr, arith, length,
  take, drop, drop_all, take_all, take_prefix, drop_prefix, append-nil, if◌then◌else◌,
}
use vexconnect.Prelude.Memory.{write_at}
use vexconnect.System.{
  Os, History, unlinked, file_opened, file_read, file_wrote, file_closed, made_private,
}
use vexconnect.Keys.{read_pair, save_pair}

-- The file that a stream was last opened on to write, where `fopen` answers so.
abbrev pub target : (History → List ℕ → Bool → Option ℕ) → ℕ → History → Option (List ℕ)
target fopen s [] = none
target fopen s (file_opened path writes ∷ h) = elim (fopen h path writes) [
  | none ↦ target fopen s h
  | some t ↦ if s == t then (if writes then some path else none) else target fopen s h
]
target fopen s (e ∷ h) = target fopen s h

abbrev pub appended : Option (List ℕ) → List ℕ → Option (List ℕ)
appended none bs = none
appended (some before) bs = some (before ++ bs)

-- What a file holds after some calls: `fopen` to write empties it, and a write is added at its end.
abbrev pub content : (History → List ℕ → Bool → Option ℕ) → List ℕ → History → Option (List ℕ)
content fopen file [] = none
content fopen file (file_opened path true ∷ h) = elim (fopen h path true) [
  | none ↦ content fopen file h
  | some s ↦ if bytes_eq path file then some [] else content fopen file h
]
content fopen file (unlinked path ∷ h) = if bytes_eq path file then none else content fopen file h
content fopen file (file_wrote s bs ∷ h) = elim (target fopen s h) [
  | none ↦ content fopen file h
  | some path ↦
      if bytes_eq path file then appended (content fopen file h) bs else content fopen file h
]
content fopen file (e ∷ h) = content fopen file h

-- Documented: a file that was written can be opened, and reading it gives its bytes in order. No write is
-- taken to fail.
pub record IsFileStore (os : Os) : Type 0 where
  pub found :
      (h : History) (file bs : List ℕ)
      → content os.fopen file h ≡ some bs
      → (f : ℕ) × (os.fopen h file false ≡ some f)
  pub first_read :
      (h : History) (file bs : List ℕ) (f n : ℕ)
      → content os.fopen file h ≡ some bs
      → os.fopen h file false ≡ some f
      → os.fread (file_opened file false ∷ h) f n ≡ take n bs
  pub second_read :
      (h : History) (file bs : List ℕ) (f n m : ℕ)
      → content os.fopen file h ≡ some bs
      → os.fopen h file false ≡ some f
      → os.fread (file_read f n ∷ file_opened file false ∷ h) f m ≡ take m (drop n bs)

write_at-whole : (dst bs : List ℕ) → length dst ≡ length bs → write_at dst 0 bs ≡ some bs
unfolding write_at
write_at-whole dst bs e =
    rw
      (
        le→leb (0 + length bs) (length dst) (omega arith),
        drop_all (0 + length bs) dst (omega arith),
      )
      (ap some (append-nil bs))

pub bytes_eq-append : (pre a b : List ℕ) → bytes_eq (pre ++ a) (pre ++ b) ≡ bytes_eq a b
bytes_eq-append [] a b = refl
bytes_eq-append (x ∷ pre) a b = ground (arith, bytes_eq-append pre a b)

-- A pair of keys that is read from a file is the pair that the file holds.
module _ (os : Os) (store : IsFileStore os) where
  read_pair-content :
      (file first second a b : List ℕ) (f : ℕ) (h : History)
      → content os.fopen file h ≡ some (first ++ second)
      → os.fopen h file false ≡ some f
      → length a ≡ length first
      → length b ≡ length second
      → read_pair os f (length first) (length second) a b (file_opened file false ∷ h)
        ≡ some (
          (true, first, second),
          file_read f (length second) ∷ file_read f (length first) ∷ file_opened file false ∷ h,
        )
  read_pair-content file first second a b f h holds opened a-size b-size =
      rw
        (
          store.first_read h file (first ++ second) f (length first) holds opened,
          take_prefix (length first) first second refl,
          write_at-whole a first a-size,
          ==_refl (length first),
          store.second_read h file (first ++ second) f (length first) (length second) holds opened,
          drop_prefix (length first) first second refl,
          take_all (length second) second (omega arith),
          write_at-whole b second b-size,
          ==_refl (length second),
        )
        refl

  pub read_pair-sized :
      (file first second a b : List ℕ) (f n m : ℕ) (h : History)
      → content os.fopen file h ≡ some (first ++ second)
      → os.fopen h file false ≡ some f
      → length first ≡ n
      → length second ≡ m
      → length a ≡ n
      → length b ≡ m
      → read_pair os f n m a b (file_opened file false ∷ h)
        ≡ some ((true, first, second), file_read f m ∷ file_read f n ∷ file_opened file false ∷ h)
  read_pair-sized file first second a b f n m h holds opened first-size second-size a-size b-size =
      subst
        (λ i.
          read_pair os f i m a b (file_opened file false ∷ h)
          ≡ some
              ((true, first, second), file_read f m ∷ file_read f i ∷ file_opened file false ∷ h))
        first-size
        (subst
          (λ j.
            read_pair os f (length first) j a b (file_opened file false ∷ h)
            ≡ some (
              (true, first, second),
              file_read f j ∷ file_read f (length first) ∷ file_opened file false ∷ h,
            ))
          second-size
          (read_pair-content file first second a b f h holds opened (a-size ∙ sym first-size)
            (b-size ∙ sym second-size)))

  content_written :
      (file first second other : List ℕ) (s : ℕ) (h : History)
      → os.fopen h file true ≡ some s
      → content os.fopen other (
          made_private file
          ∷ file_closed s
          ∷ file_wrote s second
          ∷ file_wrote s first
          ∷ file_opened file true
          ∷ h)
        ≡ (if bytes_eq file other then some (first ++ second) else content os.fopen other h)
  content_written file first second other s h opened =
      written s second file other (file_wrote s first ∷ file_opened file true ∷ h) opened_last
      ∙ ap (λ c. if bytes_eq file other then appended c second else c)
          (written s first file other (file_opened file true ∷ h) opened_last)
      ∙ ap
          (λ c.
            let d = if bytes_eq file other then appended c first else c in
            if bytes_eq file other then appended d second else d)
          emptied
      ∙ both (bytes_eq file other)
    where
      emptied :
          content os.fopen other (file_opened file true ∷ h)
          ≡ (if bytes_eq file other then some [] else content os.fopen other h)
      emptied = rw (content, opened) refl

      opened_last : target os.fopen s (file_opened file true ∷ h) ≡ some file
      opened_last = rw (target, opened, ==_refl s) refl

      written :
          (s : ℕ) (bs path other : List ℕ) (g : History)
          → target os.fopen s g ≡ some path
          → content os.fopen other (file_wrote s bs ∷ g) ≡ (
              if bytes_eq path other
              then appended (content os.fopen other g) bs
              else content os.fopen other g)
      written s bs path other g e = rw (content, e) refl

      both :
          (b : Bool)
          → (if b
              then appended
                  (if b
                    then appended (if b then some [] else content os.fopen other h) first
                    else (if b then some [] else content os.fopen other h))
                  second
              else (if b
                  then appended (if b then some [] else content os.fopen other h) first
                  else (if b then some [] else content os.fopen other h)))
            ≡ (if b then some (first ++ second) else content os.fopen other h)
      both true = refl
      both false = refl

  -- What a file holds once a pair of keys is saved in it, and what another file holds.
  pub save_pair-content :
      (file first second : List ℕ) (h h' : History)
      → save_pair os file first second h ≡ some (true, h')
      → (content os.fopen file h' ≡ some (first ++ second))
        × ((other bs : List ℕ)
            → bytes_eq file other ≡ false
            → content os.fopen other h ≡ some bs
            → content os.fopen other h' ≡ some bs)
  save_pair-content file first second h h' saved = elim (Option-cases (os.fopen h file true)) [
    | inl missing ↦
        let failed : save_pair os file first second h ≡ some (false, file_opened file true ∷ h) =
          rw missing in
        absurd (cc (saved, failed))
    | inr (s, opened) ↦
        let run : save_pair os file first second h
            ≡ some (
              true,
              (made_private file
                  ∷ file_closed s
                  ∷ file_wrote s second
                  ∷ file_wrote s first
                  ∷ file_opened file true
                  ∷ h),
            ) =
          rw opened in
        let same : (made_private file
              ∷ file_closed s
              ∷ file_wrote s second
              ∷ file_wrote s first
              ∷ file_opened file true
              ∷ h)
            ≡ h' =
          cc (saved, run) in
        (
          ap (content os.fopen file) (sym same)
              ∙ content_written file first second file s h opened
              ∙ rw (bytes_eq_refl file) refl,
          (λ other bs ne holds.
              ap (content os.fopen other) (sym same)
              ∙ content_written file first second other s h opened
              ∙ rw ne holds),
        )
  ]
