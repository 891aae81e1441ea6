-- ===== src/Submissions/Readers.antt =====
-- internal/submissions/submissions.go: stripBOM.
use mathlib.Core.List.{append_assoc, append-nil}
use model_lib.Base.{
  ℕ, zero, suc, ◌-◌, ◌≤◌, ◌≡◌, refl, ap, sym, ◌∙◌, arith, if◌then◌else◌, leb, List, [], ◌∷◌, ◌++◌,
  Bytes, str_eq, str_eq_iff, Bool-cases, inl, inr, length, take, drop, if_cases,
}
use model_lib.Storage.{Chunk, ReadEnd, more, eof, read_failed}
use model_lib.Storage.Accepting.{whole, IsUnbroken}

abbrev pub peeked : Bytes → ReadEnd → List Chunk → Bytes → List Chunk → Bytes × List Chunk
peeked bytes more rest front others = (bytes ++ front, others)
peeked bytes eof rest front others = (bytes, record { bytes = []; end = eof } ∷ rest)
peeked bytes read_failed rest front others =
    (bytes, record { bytes = []; end = read_failed } ∷ rest)

-- The bytes that io.ReadAtLeast gets, `n` at most, and the reader behind them. A reader that ended, or
-- failed, goes on doing so.
unfoldable pub peek : ℕ → List Chunk → Bytes × List Chunk
peek zero reader = ([], reader)
peek (suc n) [] = ([], [])
peek (suc n) (c ∷ rest) =
    let (front, others) = peek (suc n - length c.bytes) rest in
    if leb (suc n) (length c.bytes)
    then (take (suc n) c.bytes, record { bytes = drop (suc n) c.bytes; end = c.end } ∷ rest)
    else peeked c.bytes c.end rest front others

abbrev pub bom : Bytes
bom = 0xef ∷ 0xbb ∷ 0xbf ∷ []

-- stripBOM
unfoldable pub strip_bom : List Chunk → List Chunk
strip_bom reader =
    let (front, others) = peek 3 reader in
    if str_eq front bom then others else record { bytes = front; end = more } ∷ others

take-append :
    (n : ℕ) (xs ys : Bytes) → length xs ≤ n → take n (xs ++ ys) ≡ xs ++ take (n - length xs) ys
take-append n [] ys h = ap (λ (m : ℕ). take m ys) (omega arith)
take-append zero (x ∷ xs) ys h = absurd (omega arith)
take-append (suc n) (x ∷ xs) ys h =
    let same : n - length xs ≡ suc n - suc (length xs) = omega arith in
    ap (λ (r : Bytes). x ∷ r)
      (take-append n xs ys (omega arith) ∙ ap (λ (m : ℕ). xs ++ take m ys) same)

take_front : (n : ℕ) (xs ys : Bytes) → n ≤ length xs → take n (xs ++ ys) ≡ take n xs
take_front zero xs ys h = refl
take_front (suc n) [] ys h = absurd (omega arith)
take_front (suc n) (x ∷ xs) ys h = ap (λ (r : Bytes). x ∷ r) (take_front n xs ys (omega arith))

take-drop : (n : ℕ) (xs : Bytes) → take n xs ++ drop n xs ≡ xs
take-drop zero xs = refl
take-drop (suc n) [] = refl
take-drop (suc n) (x ∷ xs) = ap (λ (r : Bytes). x ∷ r) (take-drop n xs)

take_all : (n : ℕ) (xs : Bytes) → length xs ≤ n → take n xs ≡ xs
take_all zero [] h = refl
take_all zero (x ∷ xs) h = absurd (omega arith)
take_all (suc n) [] h = refl
take_all (suc n) (x ∷ xs) h = ap (λ (r : Bytes). x ∷ r) (take_all n xs (omega arith))

-- What is peeked of a reader is its front, and nothing is lost.
record PeekFacts (n : ℕ) (reader : List Chunk) (x : Bytes × List Chunk) : Type 0 where
  front : x.0 ≡ take n (whole reader)
  all : x.0 ++ whole x.1 ≡ whole reader
  goes_on : IsUnbroken x.1

peek-PeekFacts :
    (n : ℕ) (reader : List Chunk) → IsUnbroken reader → PeekFacts n reader (peek n reader)
unfolding peek
peek-PeekFacts zero reader h = record { front = refl; all = refl; goes_on = h }
peek-PeekFacts (suc n) [] h = record { front = refl; all = refl; goes_on = h }
peek-PeekFacts (suc n) (c ∷ rest) h =
    if_cases (PeekFacts (suc n) (c ∷ rest)) (leb (suc n) (length c.bytes))
      (λ enough. record {
        front = sym (take_front (suc n) c.bytes (whole rest) (ground arith));
        all =
            sym (append_assoc (take (suc n) c.bytes) (drop (suc n) c.bytes) (whole rest))
            ∙ ap (λ (b : Bytes). b ++ whole rest) (take-drop (suc n) c.bytes);
        goes_on = h;
      })
      (λ short. on_short (peek-PeekFacts (suc n - length c.bytes) rest) (ground arith) h)
  where
    on_short :
        (IsUnbroken rest
          → PeekFacts (suc n - length c.bytes) rest (peek (suc n - length c.bytes) rest))
        → length c.bytes ≤ suc n
        → IsUnbroken (c ∷ rest)
        → PeekFacts (suc n) (c ∷ rest) (
            peeked c.bytes c.end rest
              (peek (suc n - length c.bytes) rest).0
              (peek (suc n - length c.bytes) rest).1)
    on_short deeper short (inl (open_end, h)) =
        let later = deeper h in
        rw open_end (record {
          front =
              ap (λ (b : Bytes). c.bytes ++ b) later.front
              ∙ sym (take-append (suc n) c.bytes (whole rest) short);
          all =
              append_assoc c.bytes (peek (suc n - length c.bytes) rest).0 _
              ∙ ap (λ (b : Bytes). c.bytes ++ b) later.all;
          goes_on = later.goes_on;
        })
    on_short deeper short (inr (ended, last)) =
        rw (ended, last)
          (record {
            front =
                sym (take_all (suc n) c.bytes short)
                ∙ ap (λ (b : Bytes). take (suc n) b) (sym (append-nil c.bytes));
            all = refl;
            goes_on = inr (refl, refl);
          })

-- The bytes behind a byte order mark.
unfoldable pub without_bom : Bytes → Bytes
without_bom s = if str_eq (take 3 s) bom then drop 3 s else s

-- A reader without failing reads, in any pieces, which ends with its last bytes or behind them,
-- loses a byte order mark at its front, and nothing else, and goes on to have no failing reads.
pub strip_bom-without_bom :
    (reader : List Chunk)
    → IsUnbroken reader
    → (whole (strip_bom reader) ≡ without_bom (whole reader)) × IsUnbroken (strip_bom reader)
unfolding strip_bom without_bom
strip_bom-without_bom reader h = stripped (peek 3 reader) (peek-PeekFacts 3 reader h)
  where
    stripped :
        (x : Bytes × List Chunk)
        → PeekFacts 3 reader x
        → (whole (if str_eq x.0 bom then x.1 else record { bytes = x.0; end = more } ∷ x.1)
            ≡ (if str_eq (take 3 (whole reader)) bom then drop 3 (whole reader) else whole reader))
          × IsUnbroken (if str_eq x.0 bom then x.1 else record { bytes = x.0; end = more } ∷ x.1)
    stripped (front, others) facts = elim (Bool-cases (str_eq front bom)) [
      | inl marked ↦
          let same : front ≡ bom = (str_eq_iff front bom).0 marked in
          let parts : bom ++ whole others ≡ whole reader =
            sym (ap (λ (f : Bytes). f ++ whole others) same) ∙ facts.all in
          rw⁻¹ facts.front (rw marked (ap (λ (t : Bytes). drop 3 t) parts, facts.goes_on))
      | inr unmarked ↦ rw⁻¹ facts.front (rw unmarked (facts.all, inl (refl, facts.goes_on)))
    ]
