-- ===== src/Submissions/Growing.antt =====
-- CreateSubmission only adds submissions to the database, whatever it answers.
use model_lib.Base.{
  ℕ, ◌≡◌, refl, ap, ◌∙◌, ◌||◌, Option, none, some, List, [], ◌∷◌, Bytes, codes, str_eq, is_empty,
  if_cases,
}
use model_lib.Database.{Session, SubmissionRow, ParticipantRow, Result}
use model_lib.Database.Growing.{
  Grows, Grows-refl, Grows-trans, create_submission_queued-Grows, upsert_participant-Grows,
}
use model_lib.RateLimit.{KeyStore}
use model_lib.Storage.{Disk, Stored, SavedFile, validate_extension, save_stream}
use model_lib.Storage
use model_lib.Database.Participants.{upsert_participant}
use model_lib.Submissions.Readers.{strip_bom}
use model_lib.Submissions.Chains.{bind_rule}
use model_lib.Submissions.{
  Answer, ok, err, Act, World, Part, NextPart, part, too_large, broken, Upload, no_upload, Service,
  Submit, storage_key, ◌>>=◌, multipart, upserted, committed, created, commit_source,
  queue_submission, upsert_owner, at_least_one, store_upload, upload, read_parts, take_part,
  take_text, take_file, save_part, take_saved, on_stored, check_request, create_submission,
  after_checks, filename_of,
}

module _ (sha : Bytes → Bytes) (max_source : ℕ) where
  save_part-db :
      (x : Part) (u v : Upload) (w : World) → (save_part sha max_source x u v w).1.db ≡ w.db
  unfolding save_part
  save_part-db x u v w = saved (save_stream sha max_source x.temp (strip_bom x.content) w.disk)
    where
      saved :
          (y : Stored SavedFile × Disk)
          → (on_stored u (take_saved v) (y.0, record w { disk = y.1 })).1.db ≡ w.db
      saved (Stored.ok f, d) =
          if_cases (λ (z : Answer Upload × World). z.1.db ≡ w.db) (is_empty v.tmp_path) (λ _. refl)
            (λ _. refl)
      saved (Stored.err e, d) = refl

  abbrev Still : World → Act Upload → Type 0
  Still w f = (f w).1.db ≡ w.db

  take_part-db : (x : Part) (u : Upload) (w : World) → (take_part sha max_source x u w).1.db ≡ w.db
  unfolding take_part take_text take_file
  take_part-db x u w =
      if_cases (Still w) (str_eq x.form_name (codes "source_text"))
        (λ _.
          if_cases (Still w) u.seen_text (λ _. refl)
            (λ _. if_cases (Still w) u.seen_file (λ _. refl) (λ _. save_part-db x u _ w)))
        (λ _.
          if_cases (Still w) (str_eq x.form_name (codes "source_file"))
            (λ _.
              if_cases (Still w) u.seen_file (λ _. refl)
                (λ _.
                  if_cases (Still w) u.seen_text (λ _. refl)
                    (λ _.
                      if_cases (Still w) (validate_extension x.file_name)
                        (λ _. save_part-db x u _ w) (λ _. refl))))
            (λ _. if_cases (Still w) (u.seen_text || u.seen_file) (λ _. refl) (λ _. refl)))

  read_parts-db :
      (parts : List NextPart) (u : Upload) (w : World)
      → (read_parts sha max_source parts u w).1.db ≡ w.db
  unfolding read_parts
  read_parts-db [] u w = refl
  read_parts-db (too_large ∷ rest) u w = refl
  read_parts-db (broken ∷ rest) u w = refl
  read_parts-db (part x ∷ rest) u w =
      bind_rule (λ (y : Answer Upload × World). y.1.db ≡ w.db) (take_part sha max_source x u)
        (λ v. read_parts sha max_source rest v) w (λ e failed. take_part-db x u w)
        (λ v taken. read_parts-db rest v _ ∙ take_part-db x u w)

abbrev pub GrowsFrom : {A : Type 0} → World → Answer A × World → Type 0
GrowsFrom w y = Grows w.db.committed y.1.db.committed

same_db : {A : Type 0} (w : World) (y : Answer A × World) → y.1.db ≡ w.db → GrowsFrom w y
same_db w y h =
    Grows-refl w.db.committed y.1.db.committed (ap (λ (s : Session). s.committed.submissions) h)

-- A chain grows if its steps do.
grows_bind :
    {A B : Type 0} (m : Act A) (k : A → Act B) (w : World)
    → GrowsFrom w (m w)
    → ((a : A) (v : World) → GrowsFrom v (k a v))
    → GrowsFrom w ((m >>= k) w)
grows_bind m k w first rest =
    bind_rule (GrowsFrom w) m k w (λ e failed. first)
      (λ a done.
        Grows-trans w.db.committed (m w).1.db.committed (k a (m w).1).1.db.committed first
          (rest a (m w).1))

module _ (mac : Bytes → Bytes → Bytes) (sha : Bytes → Bytes) (S : Service) (q : Submit) where
  upsert_owner-Grows : (u : Upload) (w : World) → GrowsFrom w (upsert_owner mac sha S q u w)
  upsert_owner-Grows u w =
      landed (upsert_participant q.participant w.db) (upsert_participant-Grows q.participant w.db)
    where
      landed :
          (y : Result ParticipantRow × Session)
          → Grows w.db.committed y.1.committed
          → GrowsFrom w (upserted u (y.0, record w { db = y.1 }))
      landed (Result.ok p, s) h = h
      landed (Result.err e, s) h = h

  commit_source-Grows : (u : Upload) (w : World) → GrowsFrom w (commit_source mac sha S q u w)
  commit_source-Grows u w =
      moved (Storage.commit S.root (storage_key q.submission_id) u.tmp_path w.disk)
    where
      moved :
          (y : Stored (Unit {0}) × Disk) → GrowsFrom w (committed u (y.0, record w { disk = y.1 }))
      moved (Stored.ok t, d) = Grows-refl w.db.committed w.db.committed refl
      moved (Stored.err e, d) = Grows-refl w.db.committed w.db.committed refl

  queue_submission-Grows : (u : Upload) (w : World) → GrowsFrom w (queue_submission mac sha S q u w)
  queue_submission-Grows u w = answered _ (
      create_submission_queued-Grows q.submission_id q.participant (filename_of u)
        (storage_key q.submission_id) u.source_size u.source_sha256 S.queue_max_depth
        S.max_queued_per_participant w.db.committed w.db refl)
    where
      answered :
          (y : Result SubmissionRow × Session)
          → Grows w.db.committed y.1.committed
          → GrowsFrom w
              (created S.root (storage_key q.submission_id) u (y.0, record w { db = y.1 }))
      answered (Result.ok row, s) h = h
      answered (Result.err e, s) h = h

  store_upload-Grows : (u : Upload) (w : World) → GrowsFrom w (store_upload mac sha S q u w)
  unfolding store_upload
  store_upload-Grows u w =
      grows_bind (at_least_one u) _ w
        (if_cases (λ (f : Act (Unit {0})). GrowsFrom w (f w)) (u.seen_text || u.seen_file)
          (λ _. Grows-refl w.db.committed w.db.committed refl)
          (λ _. Grows-refl w.db.committed w.db.committed refl))
        (λ _ v. grows_bind (upsert_owner mac sha S q u) _ v (upsert_owner-Grows u v) (λ _ y.
          grows_bind (commit_source mac sha S q u) (queue_submission mac sha S q) y
            (commit_source-Grows u y) queue_submission-Grows))

  upload-Grows : (w : World) → GrowsFrom w (upload mac sha S q w)
  unfolding upload
  upload-Grows w = of_body q.body
    where
      of_body :
          (b : Option (List NextPart))
          → GrowsFrom w (
              (multipart b >>= λ parts.
              read_parts sha S.max_source_bytes parts no_upload >>= store_upload mac sha S q)
                w)
      of_body none = Grows-refl w.db.committed w.db.committed refl
      of_body (some parts) =
          grows_bind (read_parts sha S.max_source_bytes parts no_upload) (store_upload mac sha S q)
            w
            (same_db w (read_parts sha S.max_source_bytes parts no_upload w)
              (read_parts-db sha S.max_source_bytes parts no_upload w))
            store_upload-Grows

  pub create_submission-Grows :
      (K : KeyStore) (s : KeyStore.Store K) (w : World)
      → Grows w.db.committed (create_submission mac sha S K q s w).2.db.committed
  unfolding create_submission
  create_submission-Grows K s w = decided (check_request mac sha S K q s)
    where
      decided :
          (c : Answer (Unit {0}) × KeyStore.Store K)
          → Grows w.db.committed (after_checks c (upload mac sha S q) w).2.db.committed
      decided (ok u, t) = upload-Grows w
      decided (err e, t) = Grows-refl w.db.committed w.db.committed refl
