-- ===== src/Submissions/Reading.antt =====
-- The loop of CreateSubmission over the parts of a body.
use mathlib.Core.Path.{subst}
use model_lib.Base.{
  ℕ, ◌≡◌, refl, sym, ap, ◌∙◌, ◌⊎◌, inl, inr, true, ◌||◌, List, [], ◌∷◌, Bytes, str_eq, str_eq_iff,
  is_empty, if_cases, Bool-cases, All,
}
use model_lib.Storage.{Disk, Stored, SavedFile, validate_extension}
use model_lib.Storage.Saving.{KeptFacts, SaveFacts, save_stream-SaveFacts}
use model_lib.Submissions.{
  Answer, ok, err, SubmissionError, World, Act, Part, NextPart, part, too_large, broken, Upload,
  no_upload, unknown_part, invalid_extension, body_too_large, part_unreadable, store_failed,
  save_part, on_stored, take_saved, take_text, take_file, take_part, read_parts,
}
use model_lib.Submissions.Chains.{bind_rule}
use model_lib.Submissions.Readers.{strip_bom}
use model_lib.Submissions.Parts.{
  text_name, file_name, KindFacts, text, file, IsFresh, IsSafe, true_is_not_false, refused, empty,
  held, CleanFacts, HoldingFacts, ReadFacts, more-CleanFacts,
}

module _ (sha : Bytes → Bytes) (max_source : ℕ) (start : World) where
  -- The first part: an error, or the part saved.
  abbrev FirstFacts : Part → Answer Upload × World → Type 0
  FirstFacts x y =
      CleanFacts sha max_source start y
      ⊎ ((u : Upload) × (y.0 ≡ ok u) × HoldingFacts sha max_source start x u y.1)

  abbrev with_place : Upload → SavedFile → Upload
  with_place u v = record u { tmp_path = v.path; source_size = v.size; source_sha256 = v.digest }

  with_place-KindFacts :
      (x : Part) (u : Upload) (v : SavedFile) → KindFacts x u → KindFacts x (with_place u v)
  with_place-KindFacts x u v (text is name) = text is name
  with_place-KindFacts x u v (file is extension name) = file is extension name

  on_stored-FirstFacts :
      (x : Part) (u : Upload) (r : Stored SavedFile) (d : Disk)
      → (u.seen_text || u.seen_file) ≡ true
      → is_empty u.tmp_path ≡ true
      → KindFacts x u
      → IsFresh start.disk (part x)
      → SaveFacts sha max_source x.temp start.disk (r, d)
      → FirstFacts x (on_stored no_upload (take_saved u) (r, record start { disk = d }))
  on_stored-FirstFacts x u (Stored.err e) d seen none_yet kind (named, new) facts = inl (record {
    error = store_failed e;
    failed = refl;
    files = λ k safe. elim (Bool-cases (str_eq x.temp k)) [
      | inl same ↦ at_temp ((str_eq_iff x.temp k).0 same) safe
      | inr other ↦
          facts.others k λ here. true_is_not_false (sym ((str_eq_iff x.temp k).1 here) ∙ other)
    ];
    db = refl;
  })
    where
      at_temp : {k : Bytes} → x.temp ≡ k → IsSafe start.disk k → d.files k ≡ start.disk.files k
      at_temp here (inl calm) =
          ap d.files (sym here) ∙ facts.cleaned e refl calm new ∙ sym new ∙ ap start.disk.files here
      at_temp here (inr there) = absurd (there (ap start.disk.files (sym here) ∙ new))
  on_stored-FirstFacts x u (Stored.ok v) d seen none_yet kind (named, new) facts =
      let kept : KeptFacts sha max_source x.temp v d = facts.kept v refl in
      rw none_yet (
        inr (
          with_place u v,
          refl,
          record {
            seen = seen;
            kind = with_place-KindFacts x u v kind;
            named = ap (λ (t : Bytes). is_empty t) kept.path ∙ named;
            place = kept.path;
            new = new;
            others = facts.others;
            still = facts.still;
            kept = kept;
            db = refl;
          },
        ))

  save-FirstFacts :
      (x : Part) (u : Upload)
      → (u.seen_text || u.seen_file) ≡ true
      → is_empty u.tmp_path ≡ true
      → KindFacts x u
      → IsFresh start.disk (part x)
      → FirstFacts x (save_part sha max_source x no_upload u start)
  unfolding save_part
  save-FirstFacts x u seen none_yet kind fresh =
      on_stored-FirstFacts x u _ _ seen none_yet kind fresh
        (save_stream-SaveFacts sha max_source x.temp (strip_bom x.content) start.disk)

  untouched : (e : SubmissionError) → CleanFacts sha max_source start {A = Upload} (err e, start)
  untouched e = record { error = e; failed = refl; files = λ k _. refl; db = refl }

  first-FirstFacts :
      (x : Part)
      → IsFresh start.disk (part x)
      → FirstFacts x (take_part sha max_source x no_upload start)
  unfolding take_part take_text take_file
  first-FirstFacts x fresh =
      if_cases (λ (f : Act Upload). FirstFacts x (f start)) (str_eq x.form_name text_name)
        (λ is.
          save-FirstFacts x _ refl refl (text ((str_eq_iff x.form_name text_name).0 is) refl) fresh)
        (λ _.
          if_cases (λ (f : Act Upload). FirstFacts x (f start)) (str_eq x.form_name file_name)
            (λ is.
              if_cases (λ (f : Act Upload). FirstFacts x (f start)) (validate_extension x.file_name)
                (λ extension.
                  save-FirstFacts x _ refl refl
                    (file ((str_eq_iff x.form_name file_name).0 is) extension refl) fresh)
                (λ _. inl (untouched invalid_extension)))
            (λ _. inl (untouched unknown_part)))

  -- The loop from its start: it refuses, and changes no file but where a removal fails, or the body has
  -- no part, or it has one part, which is saved.
  pub read_parts-ReadFacts :
      (parts : List NextPart)
      → All (IsFresh start.disk) parts
      → ReadFacts sha max_source start parts (read_parts sha max_source parts no_upload start)
  unfolding read_parts
  read_parts-ReadFacts [] fresh = empty refl refl refl
  read_parts-ReadFacts (too_large ∷ rest) fresh = refused (untouched body_too_large)
  read_parts-ReadFacts (broken ∷ rest) fresh = refused (untouched part_unreadable)
  read_parts-ReadFacts (part x ∷ rest) (new, _) = elim (first-FirstFacts x new) [
    | inl first ↦ refused (
        bind_rule (CleanFacts sha max_source start) (take_part sha max_source x no_upload) _ start
          (λ e failed. record { error = e; failed = refl; files = first.files; db = first.db })
          (λ v done. cc (done, first.failed)))
    | inr (u, done, h) ↦
        bind_rule (ReadFacts sha max_source start (part x ∷ rest))
          (take_part sha max_source x no_upload) _ start (λ e failed. cc (done, failed))
          (λ v again.
            let same : u ≡ v = ok_same u v (sym done ∙ again) in
            go rest v (
              subst
                (λ (z : Upload).
                  HoldingFacts sha max_source start x z
                    (take_part sha max_source x no_upload start).1)
                same h))
  ]
    where
      ok_same : (u v : Upload) → Answer.ok u ≡ ok v → u ≡ v
      ok_same u v h = cc h

      go :
          (rest : List NextPart) (v : Upload)
          → HoldingFacts sha max_source start x v (take_part sha max_source x no_upload start).1
          → ReadFacts sha max_source start
              (part x ∷ rest)
              (read_parts sha max_source rest v (take_part sha max_source x no_upload start).1)
      go [] v h = held x v refl refl h
      go (n ∷ rest) v h = refused (more-CleanFacts sha max_source start x v _ h n rest)
