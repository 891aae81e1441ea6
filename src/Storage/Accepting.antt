-- ===== src/Storage/Accepting.antt =====
-- internal/storage/storage.go, SaveStream: which sources it accepts.
use mathlib.Core.List.{append_assoc, append-nil}
use mathlib.Core.Path.{subst}
use model_lib.Base.{
  any_of, any_of-append, length-append, ◌⊎◌, inl, inr, ℕ, ◌+◌, ◌-◌, ◌≤◌, ◌<◌, ◌≡◌, refl, sym, ap,
  ◌∙◌, arith, true, false, not, ◌||◌, ◌==◌, ltb, leb, List, [], ◌∷◌, ◌++◌, Bytes, length, is_empty,
  if_cases,
}
use model_lib.Storage.{
  Disk, Stored, ok, is_nul, is_visible, more, eof, after_read, Chunk, Progress, SavedFile, limited,
  noted, counted, appended, called, fails, conclude, save_each, save_stream,
}

-- All the bytes of a reader.
abbrev pub whole : List Chunk → Bytes
whole [] = []
whole (c ∷ rest) = c.bytes ++ whole rest

-- No read fails, and only the last one can bring io.EOF, with or without bytes.
abbrev pub IsUnbroken : List Chunk → Type 0
IsUnbroken [] = Unit
IsUnbroken (c ∷ rest) = ((c.end ≡ more) × IsUnbroken rest) ⊎ ((c.end ≡ eof) × (rest ≡ []))

length-limited :
    (n : ℕ) (reader : List Chunk) → length (whole reader) < n → limited n reader ≡ reader
unfolding limited
length-limited n [] h = refl
length-limited n (c ∷ rest) h =
    if_cases (λ (r : List Chunk). r ≡ c ∷ rest) (n == 0) (λ e. absurd (ground arith))
      λ _.
        if_cases (λ (r : List Chunk). r ≡ c ∷ rest) (leb (length c.bytes) n)
          (λ _.
            ap (λ r. c ∷ r)
              (length-limited (n - length c.bytes) rest
                (omega (arith, length-append c.bytes (whole rest)))))
          (λ e. absurd (ground (arith, length-append c.bytes (whole rest))))

none_of : (b : Bytes) → is_empty b ≡ true → b ≡ []
none_of [] h = refl
none_of (x ∷ xs) h = cc

module _ (sha : Bytes → Bytes) (max_size : ℕ) (temp : Bytes) (content : Bytes) where
  abbrev answer : SavedFile
  answer = record { path = temp; size = length content; digest = sha content }

  -- What is read so far, with what is still to come.
  record Towards (p : Progress) (rest : Bytes) : Type 0 where
    parts : p.hashed ++ rest ≡ content
    counts : p.total ≡ length p.hashed
    nul : p.has_nul ≡ any_of is_nul p.hashed
    visible : p.has_content ≡ any_of is_visible p.hashed

  conclude-accepts :
      (p : Progress) (d : Disk)
      → d.faults ≡ []
      → any_of is_nul content ≡ false
      → any_of is_visible content ≡ true
      → 0 < length content
      → Towards p []
      → (conclude sha max_size temp p d).0 ≡ ok answer
  unfolding conclude
  conclude-accepts p d calm no_nul visible some_bytes t =
      let read : p.hashed ≡ content = sym (append-nil p.hashed) ∙ t.parts in
      let shown : p.has_content ≡ true = t.visible ∙ ap (any_of is_visible) read ∙ visible in
      let clean : p.has_nul ≡ false = t.nul ∙ ap (any_of is_nul) read ∙ no_nul in
      let size : p.total ≡ length content = t.counts ∙ ap (λ (h : Bytes). length h) read in
      if_cases Q ((p.total == 0) || not p.has_content) (λ e. absurd (ground arith))
        λ _.
          if_cases Q p.has_nul (λ e. cc (e, clean))
            λ _.
              if_cases Q (fails d.faults) (λ e. cc (e, ap fails calm))
                λ _. rw t.counts (
                  ap (λ (h : Bytes). ok (record { path = temp; size = length h; digest = sha h }))
                    read)
    where
      Q : Stored SavedFile × Disk → Type 0
      Q y = y.0 ≡ ok answer

  save_each-accepts :
      (reader : List Chunk) (p : Progress) (d : Disk)
      → IsUnbroken reader
      → d.faults ≡ []
      → length content ≤ max_size
      → any_of is_nul content ≡ false
      → any_of is_visible content ≡ true
      → 0 < length content
      → Towards p (whole reader)
      → (save_each sha max_size temp reader p d).0 ≡ ok answer
  unfolding save_each
  save_each-accepts [] p d unbroken calm fits no_nul visible some_bytes t =
      conclude-accepts p d calm no_nul visible some_bytes t
  save_each-accepts (c ∷ rest) p d unbroken calm fits no_nul visible some_bytes t =
      let goes_on : GoesOn = λ p d unbroken calm t.
        save_each-accepts rest p d unbroken calm fits no_nul visible some_bytes t in
      if_cases Q (is_empty c.bytes) (λ none_here. later goes_on p d calm unbroken (same none_here))
        λ _.
          if_cases Q (ltb max_size (p.total + length c.bytes)) (λ e. absurd (too_long e))
            λ _.
              if_cases Q (fails d.faults) (λ e. cc (e, ap fails calm))
                λ _.
                  later goes_on (counted c.bytes (noted c.bytes p))
                    (appended temp c.bytes (called d)) (rw calm refl) unbroken grown
    where
      Q : Stored SavedFile × Disk → Type 0
      Q y = y.0 ≡ ok answer

      GoesOn : Type 0
      GoesOn =
          (p : Progress) (d : Disk)
          → IsUnbroken rest
          → d.faults ≡ []
          → Towards p (whole rest)
          → Q (save_each sha max_size temp rest p d)

      later :
          GoesOn
          → (p : Progress) (d : Disk) → d.faults ≡ []
          → IsUnbroken (c ∷ rest)
          → Towards p (whole rest)
          → Q (after_read sha max_size temp c.end p d (save_each sha max_size temp rest))
      later go p d calm (inl (open_end, unbroken)) t = rw open_end (go p d unbroken calm t)
      later go p d calm (inr (ended, last)) t = rw ended (
          conclude-accepts p d calm no_nul visible some_bytes
            (subst (λ r. Towards p (whole r)) last t))

      same : is_empty c.bytes ≡ true → Towards p (whole rest)
      same e = record {
        parts =
            ap (λ (b : Bytes). p.hashed ++ (b ++ whole rest)) (sym (none_of c.bytes e)) ∙ t.parts;
        counts = t.counts;
        nul = t.nul;
        visible = t.visible;
      }

      too_long : ltb max_size (p.total + length c.bytes) ≡ true → ⊥
      too_long e =
          let all : length (p.hashed ++ (c.bytes ++ whole rest)) ≡ length content =
            ap (λ (b : Bytes). length b) t.parts in
          ground (
            arith,
            length-append p.hashed (c.bytes ++ whole rest),
            length-append c.bytes (whole rest),
            t.counts,
          )

      grown : Towards (counted c.bytes (noted c.bytes p)) (whole rest)
      grown = record {
        parts = append_assoc p.hashed c.bytes (whole rest) ∙ t.parts;
        counts = omega (arith, length-append p.hashed c.bytes, t.counts);
        nul =
            ap (λ b. b || any_of is_nul c.bytes) t.nul
            ∙ sym (any_of-append is_nul p.hashed c.bytes);
        visible =
            ap (λ b. b || any_of is_visible c.bytes) t.visible
            ∙ sym (any_of-append is_visible p.hashed c.bytes);
      }

some_of : (c : Bytes) → any_of is_visible c ≡ true → 0 < length c
unfolding any_of
some_of [] h = absurd (ground arith)
some_of (x ∷ xs) h = omega arith

-- On a disk without faults, SaveStream accepts every source within the size limit that is neither
-- blank nor has a NUL byte, from a reader that gives it in any pieces and ends, with its last bytes
-- or behind them, with the size and the digest of the whole source. No read of the reader fails.
pub save_stream-accepts :
    (sha : Bytes → Bytes) (max_size : ℕ) (temp : Bytes) (reader : List Chunk) (d : Disk)
    → IsUnbroken reader
    → d.faults ≡ []
    → length (whole reader) ≤ max_size
    → any_of is_nul (whole reader) ≡ false
    → any_of is_visible (whole reader) ≡ true
    → (save_stream sha max_size temp reader d).0
      ≡ ok (record { path = temp; size = length (whole reader); digest = sha (whole reader) })
unfolding save_stream any_of
save_stream-accepts sha max_size temp reader d unbroken calm fits no_nul visible =
    if_cases Q (fails d.faults) (λ e. cc (e, ap fails calm))
      λ _. rw (length-limited (max_size + 1) reader (omega arith)) (
        save_each-accepts sha max_size temp (whole reader) reader _ _ unbroken (rw calm refl) fits
          no_nul visible (some_of (whole reader) visible)
          (record { parts = refl; counts = refl; nul = refl; visible = refl }))
  where
    Q : Stored SavedFile × Disk → Type 0
    Q y =
        y.0 ≡ ok (record { path = temp; size = length (whole reader); digest = sha (whole reader) })
