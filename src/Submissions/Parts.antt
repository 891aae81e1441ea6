-- ===== src/Submissions/Parts.antt =====
-- The loop of CreateSubmission: which bodies it takes, and what it leaves on the disk.
use model_lib.Base.{
  ℕ, ◌≡◌, ◌≢◌, refl, sym, ap, ◌∙◌, arith, true, false, ◌||◌, none, List, [], ◌∷◌, Bytes, codes,
  str_eq, Bool-cases, inl, inr, ◌⊎◌, str_eq_iff, is_empty, if_cases,
}
use model_lib.Storage.Removing.{remove-gone, remove-other}
use model_lib.Storage.{remove, Disk, SavedFile, validate_extension}
use model_lib.Storage.Saving.{KeptFacts}
use model_lib.Submissions.{
  Answer, ok, err, SubmissionError, World, Act, Part, NextPart, part, too_large, broken, Upload,
  no_upload, give_up, cleanup_temp, multiple_text, both_sources, multiple_files, unknown_part,
  take_text, take_file, take_part, read_parts, filename_of,
}
use model_lib.Submissions.Chains.{bind_rule}
use model_lib.Submissions.Filenames.{sanitize_filename}

abbrev pub text_name : Bytes
text_name = codes "source_text"

abbrev pub file_name : Bytes
file_name = codes "source_file"

-- A text, which is on_stored without a name, or a file with the suffix .c.
pub data KindFacts (x : Part) (u : Upload) : Type 0 where
  text : x.form_name ≡ codes "source_text" → filename_of u ≡ [] → KindFacts x u
  file :
      x.form_name ≡ codes "source_file"
      → validate_extension x.file_name ≡ true
      → filename_of u ≡ sanitize_filename x.file_name
      → KindFacts x u

-- Temporary files have new names.
abbrev pub IsFresh : Disk → NextPart → Type 0
IsFresh d (part x) = (is_empty x.temp ≡ false) × (d.files x.temp ≡ none)
IsFresh d too_large = Unit
IsFresh d broken = Unit

-- What a failing removal cannot change: every file where none fails, and a file that was there.
abbrev pub IsSafe : Disk → Bytes → Type 0
IsSafe d k = (d.removals ≡ []) ⊎ (d.files k ≢ none)

abbrev pub saved_file : Upload → SavedFile
saved_file u = record { path = u.tmp_path; size = u.source_size; digest = u.source_sha256 }

pub true_is_not_false : true ≡ false → ⊥
true_is_not_false h = cc h

module _ (sha : Bytes → Bytes) (max_source : ℕ) (start : World) where
  -- An error that leaves every file, those of failing removals aside, and the database as they were.
  pub record CleanFacts {A : Type 0} (y : Answer A × World) : Type 0 where
    pub error : SubmissionError
    pub failed : y.0 ≡ err error
    pub files : (k : Bytes) → IsSafe start.disk k → y.1.disk.files k ≡ start.disk.files k
    pub db : y.1.db ≡ start.db

  -- One part is saved, in its temporary file.
  pub record HoldingFacts (x : Part) (u : Upload) (w : World) : Type 0 where
    pub seen : (u.seen_text || u.seen_file) ≡ true
    pub kind : KindFacts x u
    pub named : is_empty u.tmp_path ≡ false
    pub place : u.tmp_path ≡ x.temp
    pub new : start.disk.files x.temp ≡ none
    pub others : (k : Bytes) → x.temp ≢ k → w.disk.files k ≡ start.disk.files k
    pub still : start.disk.removals ≡ [] → w.disk.removals ≡ []
    pub kept : KeptFacts sha max_source x.temp (saved_file u) w.disk
    pub db : w.db ≡ start.db

  pub data ReadFacts (parts : List NextPart) (y : Answer Upload × World) : Type 0 where
    refused : CleanFacts y → ReadFacts parts y
    empty : parts ≡ [] → y.0 ≡ ok no_upload → y.1 ≡ start → ReadFacts parts y
    held :
        (x : Part) (u : Upload)
        → parts ≡ part x ∷ []
        → y.0 ≡ ok u
        → HoldingFacts x u y.1
        → ReadFacts parts y

  pub removed_files :
      (x : Part) (u : Upload) (d : Disk)
      → is_empty u.tmp_path ≡ false
      → u.tmp_path ≡ x.temp
      → start.disk.files x.temp ≡ none
      → (start.disk.removals ≡ [] → d.removals ≡ [])
      → (k : Bytes) → IsSafe start.disk k
      → (x.temp ≢ k → d.files k ≡ start.disk.files k)
      → (cleanup_temp u.tmp_path d).files k ≡ start.disk.files k
  removed_files x u d named place new still k safe others =
      rw named (elim (Bool-cases (str_eq u.tmp_path k)) [
        | inl same ↦ at_temp ((str_eq_iff u.tmp_path k).0 same) safe
        | inr other ↦
            let differs : u.tmp_path ≢ k =
              λ e. true_is_not_false (sym ((str_eq_iff u.tmp_path k).1 e) ∙ other) in
            remove-other u.tmp_path k d differs ∙ others (λ e. differs (place ∙ e))
      ])
    where
      absent : u.tmp_path ≡ k → start.disk.files k ≡ none
      absent here = ap start.disk.files (sym here ∙ place) ∙ new

      at_temp :
          u.tmp_path ≡ k → IsSafe start.disk k → (remove u.tmp_path d).files k ≡ start.disk.files k
      at_temp here (inl calm) =
          ap (remove u.tmp_path d).files (sym here)
          ∙ remove-gone u.tmp_path d (still calm)
          ∙ sym (absent here)
      at_temp here (inr there) = absurd (there (absent here))

  -- cleanupTemp takes the temporary file away, if it can, and nothing else.
  pub give_up-CleanFacts :
      {A : Type 0} (x : Part) (u : Upload) (w : World) (e : SubmissionError)
      → HoldingFacts x u w
      → CleanFacts (give_up {A = A} u e w)
  give_up-CleanFacts x u w e h = record {
    error = e;
    failed = refl;
    files = λ k safe. removed_files x u w.disk h.named h.place h.new h.still k safe (h.others k);
    db = h.db;
  }

  module _ (x : Part) (u : Upload) (w : World) (h : HoldingFacts x u w) where
    -- Any further part is refused.
    second-CleanFacts : (y : Part) → CleanFacts (take_part sha max_source y u w)
    unfolding take_part take_text take_file
    second-CleanFacts y =
        if_cases (λ (f : Act Upload). CleanFacts (f w)) (str_eq y.form_name text_name)
          (λ _.
            if_cases (λ (f : Act Upload). CleanFacts (f w)) u.seen_text (λ _. clean multiple_text)
              (λ no_text.
                if_cases (λ (f : Act Upload). CleanFacts (f w)) u.seen_file
                  (λ _. clean both_sources) (λ no_file. absurd (unseen no_text no_file))))
          (λ _.
            if_cases (λ (f : Act Upload). CleanFacts (f w)) (str_eq y.form_name file_name)
              (λ _.
                if_cases (λ (f : Act Upload). CleanFacts (f w)) u.seen_file
                  (λ _. clean multiple_files)
                  (λ no_file.
                    if_cases (λ (f : Act Upload). CleanFacts (f w)) u.seen_text
                      (λ _. clean both_sources) (λ no_text. absurd (unseen no_text no_file))))
              (λ _.
                if_cases (λ (f : Act Upload). CleanFacts (f w)) (u.seen_text || u.seen_file)
                  (λ _. clean unknown_part) (λ none_seen. cc (h.seen, none_seen))))
      where
        clean : (e : SubmissionError) → CleanFacts (give_up {A = Upload} u e w)
        clean e = give_up-CleanFacts x u w e h

        unseen : u.seen_text ≡ false → u.seen_file ≡ false → ⊥
        unseen no_text no_file = ground (arith, h.seen)

    -- What follows a part is refused.
    pub more-CleanFacts :
        (n : NextPart) (rest : List NextPart)
        → CleanFacts (read_parts sha max_source (n ∷ rest) u w)
    unfolding read_parts
    more-CleanFacts too_large rest = give_up-CleanFacts x u w _ h
    more-CleanFacts broken rest = give_up-CleanFacts x u w _ h
    more-CleanFacts (part y) rest =
        let second = second-CleanFacts y in
        bind_rule CleanFacts (take_part sha max_source y u) (λ v. read_parts sha max_source rest v)
          w (λ e failed. record { error = e; failed = refl; files = second.files; db = second.db })
          (λ v done. cc (done, second.failed))
