-- ===== src/Submissions/Creating.antt =====
-- CreateSubmission behind the limits: what an upload leaves, on every branch.
use mathlib.Core.Path.{subst}
use model_lib.Base.{
  ◌≤◌, ◌≡◌, ◌≢◌, refl, sym, ap, ◌∙◌, true, false, not, ◌||◌, Option, none, some, List, [], ◌∷◌,
  ◌++◌, Bytes, length, any_of, str_eq_distinct, if_cases,
}
use model_lib.Database.{Session, Tables, SubmissionRow, Result, queued}
use model_lib.Database.Statements.{admissible, new_submission, with_event}
use model_lib.Database.Change.{with_rows}
use model_lib.Database.Creating.{RowFacts, create_submission_queued-RowFacts}
use model_lib.Storage.{Disk, Stored, fails, exists, delete, safe_path, is_nul, is_visible}
use model_lib.Submissions.{
  Answer, ok, err, SubmissionError, World, Part, NextPart, part, Upload, Service, Submit,
  CreateResult, storage_key, filename_of, created, queue_submission,
}
use model_lib.Submissions.Parts.{KindFacts, IsSafe}

-- The parts of a body.
abbrev pub body_parts : Option (List NextPart) → List NextPart
body_parts none = []
body_parts (some parts) = parts

-- A temporary file is not where the source goes.
abbrev pub IsElsewhere : Bytes → NextPart → Type 0
IsElsewhere path (part x) = path ≢ x.temp
IsElsewhere path n = Unit

pub true_is_not_false : true ≡ false → ⊥
true_is_not_false h = cc h

module _ (mac : Bytes → Bytes → Bytes) (sha : Bytes → Bytes) (S : Service) (q : Submit)
    (path : Bytes) (start : World) where
  -- What an accepted upload is, and what is stored of it.
  pub record AcceptedFacts (r : CreateResult) (w : World) : Type 0 where
    pub x : Part
    pub u : Upload
    pub body : q.body ≡ some (part x ∷ [])
    pub kind : KindFacts x u
    pub content : Bytes
    pub stored : w.disk.files path ≡ some content
    pub others : (k : Bytes) → path ≢ k → w.disk.files k ≡ start.disk.files k
    pub fits : length content ≤ S.max_source_bytes
    pub no_nul : any_of is_nul content ≡ false
    pub visible : any_of is_visible content ≡ true
    pub answered : (r.submission_id ≡ q.submission_id) × (r.status ≡ queued)
    pub visited : Tables
    pub only_visit : visited ≡ record start.db.committed { participants = visited.participants }
    pub admitted :
        admissible
          (new_submission q.submission_id q.participant
            (filename_of u)
            (storage_key q.submission_id)
            (length content)
            (sha content)
            start.db.now)
          visited
        ≡ true
    pub queued_row :
        w.db.committed
        ≡ with_event q.submission_id start.db.now (
            with_rows visited (
              visited.submissions
              ++ new_submission q.submission_id q.participant
                  (filename_of u)
                  (storage_key q.submission_id)
                  (length content)
                  (sha content)
                  start.db.now
                ∷ []))

  -- An error leaves every file as it was, the source's own path and failing removals aside.
  pub record UploadFacts (y : Answer CreateResult × World) : Type 0 where
    pub left :
        (e : SubmissionError)
        → y.0 ≡ err e
        → (k : Bytes) → IsSafe start.disk k
        → path ≢ k
        → y.1.disk.files k ≡ start.disk.files k
    pub done : (r : CreateResult) → y.0 ≡ ok r → AcceptedFacts r y.1

  pub refused-UploadFacts :
      (e : SubmissionError) (w : World)
      → ((k : Bytes) → IsSafe start.disk k → path ≢ k → w.disk.files k ≡ start.disk.files k)
      → UploadFacts (err e, w)
  refused-UploadFacts e w files = record { left = λ e' same. files; done = λ r h. cc h }

  deleted_files :
      (d : Disk) (k : Bytes)
      → safe_path S.root (storage_key q.submission_id) ≡ some path
      → path ≢ k
      → (delete S.root (storage_key q.submission_id) d).1.files k ≡ d.files k
  unfolding delete
  deleted_files d k at other = rw at (
      if_cases (λ (y : Stored (Unit {0}) × Disk). y.1.files k ≡ d.files k)
        (fails d.faults || not (exists (d.files path))) (λ _. refl)
        (λ _. rw (str_eq_distinct path k other) refl))

  -- What is known once Commit has moved the source.
  pub record MovedFacts (x : Part) (u : Upload) (d : Disk) : Type 0 where
    pub body : q.body ≡ some (part x ∷ [])
    pub kind : KindFacts x u
    pub content : Bytes
    pub moved : d.files path ≡ some content
    pub size : u.source_size ≡ length content
    pub digest : u.source_sha256 ≡ sha content
    pub fits : length content ≤ S.max_source_bytes
    pub no_nul : any_of is_nul content ≡ false
    pub visible : any_of is_visible content ≡ true
    pub gone : u.tmp_path ≡ []
    pub files : (k : Bytes) → path ≢ k → d.files k ≡ start.disk.files k

  answer_same : (a b : CreateResult) → Answer.ok a ≡ ok b → a ≡ b
  answer_same a b h = cc h

  -- The call of the database, and the removal of the source if it fails.
  pub queue-UploadFacts :
      (x : Part) (u : Upload) (w : World)
      → safe_path S.root (storage_key q.submission_id) ≡ some path
      → MovedFacts x u w.disk
      → w.db.committed ≡ record start.db.committed { participants = w.db.committed.participants }
      → w.db.now ≡ start.db.now
      → UploadFacts (queue_submission mac sha S q u w)
  queue-UploadFacts x u w at m visit same_time = ended _ _ (
      create_submission_queued-RowFacts q.submission_id q.participant (filename_of u)
        (storage_key q.submission_id) u.source_size u.source_sha256 S.queue_max_depth
        S.max_queued_per_participant w.db.committed start.db.now w.db refl same_time)
    where
      ended :
          (r : Result SubmissionRow) (s : Session)
          → RowFacts q.submission_id q.participant
              (filename_of u)
              (storage_key q.submission_id)
              u.source_size
              u.source_sha256
              S.queue_max_depth
              S.max_queued_per_participant
              w.db.committed
              start.db.now
              (r, s)
          → UploadFacts (created S.root (storage_key q.submission_id) u (r, record w { db = s }))
      ended (Result.ok row) s facts =
          let (made, kept) = facts.made row refl in
          record {
            left = λ e h. cc h;
            done = λ r h.
                subst (λ (z : CreateResult). AcceptedFacts z (record w { db = s }))
                  (answer_same _ r h)
                  (record {
                    x = x;
                    u = u;
                    body = m.body;
                    kind = m.kind;
                    content = m.content;
                    stored = m.moved;
                    others = m.files;
                    fits = m.fits;
                    no_nul = m.no_nul;
                    visible = m.visible;
                    answered = (
                      ap (λ (z : SubmissionRow). z.id) made,
                      ap (λ (z : SubmissionRow). z.status) made,
                    );
                    visited = w.db.committed;
                    only_visit = visit;
                    admitted =
                        sym (
                          ap (λ (z : SubmissionRow). admissible z w.db.committed)
                            (made ∙ rw (m.size, m.digest) refl))
                        ∙ facts.admitted row refl;
                    queued_row = kept ∙ rw (made, m.size, m.digest) refl;
                  });
          }
      ended (Result.err e) s facts =
          refused-UploadFacts _ _
            λ k _ other. rw m.gone (deleted_files w.disk k at other ∙ m.files k other)
