-- ===== src/Storage/Saving.antt =====
-- internal/storage/storage.go, SaveStream: what it leaves on the disk on each branch.
use mathlib.Core.Path.{subst}
use model_lib.Base.{
  any_of, any_of-append, length-append, ℕ, ◌+◌, ◌≤◌, ◌≡◌, ◌≢◌, refl, sym, ap, ◌∙◌, arith, Bool,
  true, false, not, ◌||◌, ◌==◌, ltb, Option, none, some, List, [], ◌∷◌, ◌++◌, Bytes, length,
  str_eq_refl, str_eq_distinct, is_empty, if_cases,
}
use model_lib.Storage.Removing.{remove-gone, remove-other, remove-still}
use model_lib.Storage.{
  Disk, StorageError, Stored, ok, err, is_nul, is_visible, ReadEnd, more, eof, read_failed, Chunk,
  remove, Progress, SavedFile, noted, counted, contents, appended, put, called, fails, conclude,
  after_read, save_each, save_stream, io_failed, size_exceeded, empty_source, contains_nul,
}

shown : (n : ℕ) (b : Bool) → ((n == 0) || not b) ≡ false → b ≡ true
shown n b h = ground arith

abbrev file_of : SavedFile → Stored SavedFile → SavedFile
file_of v (ok w) = w
file_of v (err e) = v

module _ (sha : Bytes → Bytes) (max_size : ℕ) (temp : Bytes) where
  -- The kept file, by what is on the disk.
  pub record KeptFacts (v : SavedFile) (d : Disk) : Type 0 where
    pub content : Bytes
    pub here : d.files temp ≡ some content
    pub path : v.path ≡ temp
    pub size : v.size ≡ length content
    pub fits : v.size ≤ max_size
    pub digest : v.digest ≡ sha content
    pub no_nul : any_of is_nul content ≡ false
    pub visible : any_of is_visible content ≡ true

  pub record SaveFacts (before : Disk) (x : Stored SavedFile × Disk) : Type 0 where
    pub others : (k : Bytes) → temp ≢ k → x.1.files k ≡ before.files k
    pub cleaned :
        (e : StorageError)
        → x.0 ≡ err e
        → before.removals ≡ []
        → before.files temp ≡ none
        → x.1.files temp ≡ none
    pub still : before.removals ≡ [] → x.1.removals ≡ []
    pub kept : (v : SavedFile) → x.0 ≡ ok v → KeptFacts v x.1

  -- The loop's invariant.
  record Current (before : Disk) (p : Progress) (d : Disk) : Type 0 where
    others : (k : Bytes) → temp ≢ k → d.files k ≡ before.files k
    still : before.removals ≡ [] → d.removals ≡ []
    written : d.files temp ≡ some p.hashed
    counts : p.total ≡ length p.hashed
    fits : p.total ≤ max_size
    nul : p.has_nul ≡ any_of is_nul p.hashed
    visible : p.has_content ≡ any_of is_visible p.hashed

  put-here : (c : Option Bytes) (d : Disk) → (put temp c d).files temp ≡ c
  put-here c d = rw (str_eq_refl temp) refl

  put-other :
      (c : Option Bytes) (d : Disk) (k : Bytes) → temp ≢ k → (put temp c d).files k ≡ d.files k
  put-other c d k h = rw (str_eq_distinct temp k h) refl

  cleanup-SaveFacts :
      (before : Disk) (e : StorageError) (d : Disk)
      → ((k : Bytes) → temp ≢ k → d.files k ≡ before.files k)
      → (before.removals ≡ [] → d.removals ≡ [])
      → SaveFacts before (err e, remove temp d)
  cleanup-SaveFacts before e d others still = record {
    others = λ k h. remove-other temp k d h ∙ others k h;
    cleaned = λ x same calm none_before. remove-gone temp d (still calm);
    still = λ calm. remove-still temp d (still calm);
    kept = λ v same. cc;
  }

  conclude-SaveFacts :
      (before : Disk) (p : Progress) (d : Disk)
      → Current before p d
      → SaveFacts before (conclude sha max_size temp p d)
  unfolding conclude
  conclude-SaveFacts before p d c =
      if_cases (SaveFacts before) ((p.total == 0) || not p.has_content)
        (λ _. cleanup-SaveFacts before empty_source d c.others c.still)
        λ full.
          if_cases (SaveFacts before) p.has_nul
            (λ _. cleanup-SaveFacts before contains_nul d c.others c.still)
            λ clean.
              if_cases (SaveFacts before) (fails d.faults)
                (λ _. cleanup-SaveFacts before io_failed (called d) c.others c.still)
                λ _. record {
                  others = c.others;
                  cleaned = λ e same calm none_before. cc;
                  still = c.still;
                  kept = λ v same. kept_by v same full clean;
                }
    where
      saved : SavedFile
      saved = record { path = temp; size = p.total; digest = sha p.hashed }

      kept_by :
          (v : SavedFile)
          → ok saved ≡ ok v
          → ((p.total == 0) || not p.has_content) ≡ false
          → p.has_nul ≡ false
          → KeptFacts v (called d)
      kept_by v same full clean =
          subst (λ (w : SavedFile). KeptFacts w (called d)) (ap (file_of saved) same)
            (record {
              content = p.hashed;
              here = c.written;
              path = refl;
              size = c.counts;
              fits = c.fits;
              digest = refl;
              no_nul = sym c.nul ∙ clean;
              visible = sym c.visible ∙ shown p.total p.has_content full;
            })

  following :
      (before : Disk) (rest : List Chunk) (e : ReadEnd) (q : Progress) (f : Disk)
      → ((q : Progress) (f : Disk)
          → Current before q f
          → SaveFacts before (save_each sha max_size temp rest q f))
      → Current before q f
      → SaveFacts before (after_read sha max_size temp e q f (save_each sha max_size temp rest))
  following before rest more q f go h = go q f h
  following before rest eof q f go h = conclude-SaveFacts before q f h
  following before rest read_failed q f go h = cleanup-SaveFacts before io_failed f h.others h.still

  save_each-SaveFacts :
      (before : Disk) (reader : List Chunk) (p : Progress) (d : Disk)
      → Current before p d
      → SaveFacts before (save_each sha max_size temp reader p d)
  unfolding save_each
  save_each-SaveFacts before [] p d c = conclude-SaveFacts before p d c
  save_each-SaveFacts before (r ∷ rest) p d c =
      if_cases (SaveFacts before) (is_empty r.bytes)
        (λ _. following before rest r.end p d (λ q f h. save_each-SaveFacts before rest q f h) c)
        λ _.
          if_cases (SaveFacts before) (ltb max_size (p.total + length r.bytes))
            (λ _. cleanup-SaveFacts before size_exceeded d c.others c.still)
            λ room.
              if_cases (SaveFacts before) (fails d.faults)
                (λ _. cleanup-SaveFacts before io_failed (called d) c.others c.still)
                λ _.
                  following before rest r.end (counted r.bytes (noted r.bytes p))
                    (appended temp r.bytes (called d))
                    (λ q f h. save_each-SaveFacts before rest q f h) (grown room)
    where
      grown :
          ltb max_size (p.total + length r.bytes) ≡ false
          → Current before (counted r.bytes (noted r.bytes p)) (appended temp r.bytes (called d))
      grown room = record {
        others = λ k h. put-other _ (called d) k h ∙ c.others k h;
        still = c.still;
        written = put-here _ (called d) ∙ ap (λ o. some (contents o ++ r.bytes)) c.written;
        counts = omega (arith, length-append p.hashed r.bytes, c.counts);
        fits = ground arith;
        nul =
            ap (λ b. b || any_of is_nul r.bytes) c.nul
            ∙ sym (any_of-append is_nul p.hashed r.bytes);
        visible =
            ap (λ b. b || any_of is_visible r.bytes) c.visible
            ∙ sym (any_of-append is_visible p.hashed r.bytes);
      }

  -- SaveStream touches no file but its temporary one. If it answers with an error and no removal
  -- fails, that file, which was new, is gone. If it answers with a file, the file is within the
  -- size limit, is neither blank nor has a NUL byte, and the size and the digest in the answer are
  -- those of its content.
  pub save_stream-SaveFacts :
      (reader : List Chunk) (d : Disk) → SaveFacts d (save_stream sha max_size temp reader d)
  unfolding save_stream any_of
  save_stream-SaveFacts reader d =
      if_cases (SaveFacts d) (fails d.faults)
        (λ _. record {
          others = λ k h. refl;
          cleaned = λ e same calm none_before. none_before;
          still = λ calm. calm;
          kept = λ v same. cc;
        })
        (λ _. save_each-SaveFacts d _ _ _ (record {
          others = λ k h. put-other (some []) (called d) k h;
          still = λ calm. calm;
          written = put-here (some []) (called d);
          counts = refl;
          fits = omega arith;
          nul = refl;
          visible = refl;
        }))
