-- ===== src/Submissions/Taking.antt =====
-- The loop of CreateSubmission takes every valid source.
use mathlib.Core.Path.{subst}
use model_lib.Base.{
  ℕ, ◌≤◌, ◌≡◌, refl, sym, ap, ◌∙◌, true, false, [], ◌∷◌, Bytes, codes, length, any_of, str_eq_iff,
  str_eq, is_empty,
}
use model_lib.Storage.{Disk, Stored, SavedFile, is_nul, is_visible, save_stream, validate_extension}
use model_lib.Storage.Accepting.{whole, IsUnbroken, save_stream-accepts}
use model_lib.Storage.Calm.{save_stream-Calm}
use model_lib.Submissions.{
  Answer, ok, World, Part, part, Upload, no_upload, save_part, on_stored, take_saved, resume,
  return, take_text, take_file, take_part, read_parts,
}
use model_lib.Submissions.Filenames.{sanitize_filename}
use model_lib.Submissions.Readers.{strip_bom, without_bom, strip_bom-without_bom}

-- A text, or a file with the suffix .c
pub data AcceptedKind (x : Part) : Type 0 where
  text : x.form_name ≡ codes "source_text" → AcceptedKind x
  file : x.form_name ≡ codes "source_file" → validate_extension x.file_name ≡ true → AcceptedKind x

different : str_eq (codes "source_file") (codes "source_text") ≡ false
unfolding str_eq
different = refl

module _ (sha : Bytes → Bytes) (max_source : ℕ) (w : World) where
  -- The loop ends with the source in the part's temporary file.
  pub record TakenFacts (x : Part) (source : Bytes) (y : Answer Upload × World) : Type 0 where
    pub u : Upload
    pub done : y.0 ≡ ok u
    pub calm : y.1.disk.faults ≡ []
    pub place : u.tmp_path ≡ x.temp
    pub size : u.source_size ≡ length source
    pub digest : u.source_sha256 ≡ sha source

  saved :
      (x : Part) (u : Upload) (source : Bytes) (r : Stored SavedFile) (d : Disk)
      → is_empty u.tmp_path ≡ true
      → d.faults ≡ []
      → r ≡ Stored.ok (record { path = x.temp; size = length source; digest = sha source })
      → TakenFacts x source (
          resume
            (on_stored no_upload (take_saved u) (r, record w { disk = d })).0
            (on_stored no_upload (take_saved u) (r, record w { disk = d })).1
            (λ v. return v))
  saved x u source r d none_yet calm e = rw e (
      rw none_yet
        (record { u = _; done = refl; calm = calm; place = refl; size = refl; digest = refl }))

  -- On a disk without faults, a body that is one part, a text or a file with the suffix .c, is
  -- taken, whatever pieces it comes in, with io.EOF on its last bytes or behind them, if no read of
  -- it fails and its source, without a byte order mark, is within the limit, has no NUL byte and is
  -- not blank. The loop ends with the size and the digest of that source.
  pub read_parts-TakenFacts :
      (x : Part)
      → AcceptedKind x
      → IsUnbroken x.content
      → w.disk.faults ≡ []
      → length (without_bom (whole x.content)) ≤ max_source
      → any_of is_nul (without_bom (whole x.content)) ≡ false
      → any_of is_visible (without_bom (whole x.content)) ≡ true
      → TakenFacts x
          (without_bom (whole x.content))
          (read_parts sha max_source (part x ∷ []) no_upload w)
  unfolding read_parts take_part take_text take_file save_part
  read_parts-TakenFacts x kind unbroken calm fits no_nul visible = by_kind kind
    where
      settled : (save_stream sha max_source x.temp (strip_bom x.content) w.disk).1.faults ≡ []
      settled = save_stream-Calm sha max_source x.temp (strip_bom x.content) w.disk calm

      same : whole (strip_bom x.content) ≡ without_bom (whole x.content)
      same = (strip_bom-without_bom x.content unbroken).0

      accepted :
          (save_stream sha max_source x.temp (strip_bom x.content) w.disk).0
          ≡ Stored.ok (record {
            path = x.temp;
            size = length (without_bom (whole x.content));
            digest = sha (without_bom (whole x.content));
          })
      accepted =
          save_stream-accepts sha max_source x.temp (strip_bom x.content) w.disk
            (strip_bom-without_bom x.content unbroken).1 calm
            (subst (λ (s : Bytes). length s ≤ max_source) (sym same) fits)
            (ap (any_of is_nul) same ∙ no_nul) (ap (any_of is_visible) same ∙ visible)
          ∙ ap
              (λ (s : Bytes). Stored.ok (record { path = x.temp; size = length s; digest = sha s }))
              same

      by_kind :
          AcceptedKind x
          → TakenFacts x
              (without_bom (whole x.content))
              (read_parts sha max_source (part x ∷ []) no_upload w)
      by_kind (text is) = rw ((str_eq_iff x.form_name (codes "source_text")).1 is) (
          saved x (record no_upload { seen_text = true }) (without_bom (whole x.content)) _
            (save_stream sha max_source x.temp (strip_bom x.content) w.disk).1 refl settled
            accepted)
      by_kind (file is extension) =
          rw (not_a_text, (str_eq_iff x.form_name (codes "source_file")).1 is, extension)
            (saved x
              (record no_upload {
                source_file_name = sanitize_filename x.file_name;
                seen_file = true;
              })
              (without_bom (whole x.content)) _
              (save_stream sha max_source x.temp (strip_bom x.content) w.disk).1 refl settled
              accepted)
        where
          not_a_text : str_eq x.form_name (codes "source_text") ≡ false
          not_a_text = ap (λ (n : Bytes). str_eq n (codes "source_text")) is ∙ different
