-- ===== src/Submissions/Uploading.antt =====
-- CreateSubmission as a whole.
use mathlib.Core.Path.{subst}
use model_lib.Base.{◌≡◌, ◌≢◌, refl, sym, ap, ◌∙◌, Option, none, some, List, [], ◌∷◌, Bytes, All}
use model_lib.Database.{Session, ParticipantRow, Result}
use model_lib.Database.Calls.{upsert-rows}
use model_lib.Database.Participants.{upsert, upsert_participant}
use model_lib.Database.Rules.{direct_last}
use model_lib.RateLimit.{KeyStore}
use model_lib.Storage.{safe_path}
use model_lib.Submissions.{
  Answer, ok, err, SubmissionError, World, Part, NextPart, part, Upload, no_upload, Service, Submit,
  CreateResult, storage_key, resume, ◌>>=◌, multipart, upserted, commit_source, queue_submission,
  store_upload, upload, read_parts, check_request, create_submission, after_checks,
}
use model_lib.Submissions.Chains.{bind_rule}
use model_lib.Submissions.Reading.{read_parts-ReadFacts}
use model_lib.Submissions.Parts.{
  IsFresh, IsSafe, HoldingFacts, ReadFacts, refused, empty, held, removed_files,
}
use model_lib.Submissions.Checking.{PassedFacts, check_request-PassedFacts}
use model_lib.Submissions.Moving.{commit-UploadFacts}
use model_lib.Submissions.Creating.{
  body_parts, IsElsewhere, AcceptedFacts, UploadFacts, refused-UploadFacts,
}

-- UpsertParticipant changes the participants only.
record VisitFacts (s : Session) (x : Result ParticipantRow × Session) : Type 0 where
  same : x.1.committed ≡ record s.committed { participants = x.1.committed.participants }
  same_time : x.1.now ≡ s.now

upsert_participant-VisitFacts : (id : Bytes) (s : Session) → VisitFacts s (upsert_participant id s)
unfolding upsert_participant
upsert_participant-VisitFacts id s =
    direct_last (VisitFacts s) s (upsert id) (λ e. record { same = refl; same_time = refl })
      (λ t p r made. record { same = upsert-rows id s.now s.committed t p made; same_time = refl })

module _ (mac : Bytes → Bytes → Bytes) (sha : Bytes → Bytes) (S : Service) (q : Submit)
    (path : Bytes) (start : World) where
  abbrev Q : Answer CreateResult × World → Type 0
  Q = UploadFacts mac sha S q path start

  held-UploadFacts :
      (x : Part) (u : Upload) (w : World)
      → q.body ≡ some (part x ∷ [])
      → safe_path S.root (storage_key q.submission_id) ≡ some path
      → path ≢ x.temp
      → HoldingFacts sha S.max_source_bytes start x u w
      → UploadFacts mac sha S q path start (store_upload mac sha S q u w)
  unfolding store_upload
  held-UploadFacts x u w body at elsewhere h =
      rw h.seen (visited _ _ (upsert_participant-VisitFacts q.participant w.db))
    where
      visited :
          (r : Result ParticipantRow) (s : Session)
          → VisitFacts w.db (r, s)
          → UploadFacts mac sha S q path start (
              resume
                (upserted u (r, record w { db = s })).0
                (upserted u (r, record w { db = s })).1
                (λ _. commit_source mac sha S q u >>= queue_submission mac sha S q))
      visited (Result.err e) s facts = refused-UploadFacts mac sha S q path start _ _ λ k safe _.
          removed_files sha S.max_source_bytes start x u w.disk h.named h.place h.new h.still k safe
            (h.others k)
      visited (Result.ok p) s facts =
          commit-UploadFacts mac sha S q path start x u (record w { db = s }) body at elsewhere
            h.kind h.named h.place h.new h.others h.still h.kept
            (facts.same
              ∙ ap (λ (d : Session). record d.committed { participants = s.committed.participants })
                  h.db)
            (facts.same_time ∙ ap (λ (d : Session). d.now) h.db)

  ok_same : (u v : Upload) → Answer.ok u ≡ ok v → u ≡ v
  ok_same u v h = cc h

  upload-UploadFacts :
      safe_path S.root (storage_key q.submission_id) ≡ some path
      → All (IsFresh start.disk) (body_parts q.body)
      → All (IsElsewhere path) (body_parts q.body)
      → UploadFacts mac sha S q path start (upload mac sha S q start)
  unfolding upload store_upload
  upload-UploadFacts at fresh elsewhere = by_body q.body refl fresh elsewhere
    where
      read_body :
          (parts : List NextPart)
          → q.body ≡ some parts
          → All (IsElsewhere path) parts
          → ReadFacts sha S.max_source_bytes start parts
              (read_parts sha S.max_source_bytes parts no_upload start)
          → UploadFacts mac sha S q path start (
              (read_parts sha S.max_source_bytes parts no_upload >>= store_upload mac sha S q)
                start)
      read_body parts body elsewhere (refused clean) =
          bind_rule Q (read_parts sha S.max_source_bytes parts no_upload) (store_upload mac sha S q)
            start
            (λ e _. refused-UploadFacts mac sha S q path start e _ (λ k safe _. clean.files k safe))
            (λ u done. cc (done, clean.failed))
      read_body parts body elsewhere (empty no_parts done same) =
          bind_rule Q (read_parts sha S.max_source_bytes parts no_upload) (store_upload mac sha S q)
            start (λ e failed. cc (done, failed))
            (λ v again.
              subst
                (λ (z : Upload). UploadFacts mac sha S q path start (
                  store_upload mac sha S q z
                    (read_parts sha S.max_source_bytes parts no_upload start).1))
                (ok_same no_upload v (sym done ∙ again))
                (refused-UploadFacts mac sha S q path start _ _
                  (λ k _ _. ap (λ (w : World). w.disk.files k) same)))
      read_body parts body elsewhere (held x u one done h) =
          bind_rule Q (read_parts sha S.max_source_bytes parts no_upload) (store_upload mac sha S q)
            start (λ e failed. cc (done, failed))
            (λ v again.
              let same : u ≡ v = ok_same u v (sym done ∙ again) in
              held-UploadFacts x v _ (body ∙ ap some one) at
                (subst (λ (l : List NextPart). All (IsElsewhere path) l) one elsewhere).0
                (subst
                  (λ (z : Upload).
                    HoldingFacts sha S.max_source_bytes start x z
                      (read_parts sha S.max_source_bytes parts no_upload start).1)
                  same h))

      by_body :
          (b : Option (List NextPart))
          → q.body ≡ b
          → All (IsFresh start.disk) (body_parts b)
          → All (IsElsewhere path) (body_parts b)
          → UploadFacts mac sha S q path start (
              (multipart b >>= λ parts.
              read_parts sha S.max_source_bytes parts no_upload >>= store_upload mac sha S q)
                start)
      by_body none body fresh elsewhere =
          refused-UploadFacts mac sha S q path start _ _ (λ k _ _. refl)
      by_body (some parts) body fresh elsewhere =
          read_body parts body elsewhere
            (read_parts-ReadFacts sha S.max_source_bytes start parts fresh)

-- What CreateSubmission leaves: the answer, the limiter's store, the disk and the database.
pub record CreateFacts (mac : Bytes → Bytes → Bytes) (sha : Bytes → Bytes) (S : Service)
    (K : KeyStore) (q : Submit) (path : Bytes) (s : KeyStore.Store K) (start : World)
    (y : Answer CreateResult × KeyStore.Store K × World) : Type 0 where
  pub checked :
      (e : SubmissionError)
      → (check_request mac sha S K q s).0 ≡ err e
      → (y.0 ≡ err e) × (y.2 ≡ start)
  pub left :
      (e : SubmissionError)
      → y.0 ≡ err e
      → (k : Bytes) → IsSafe start.disk k
      → path ≢ k
      → y.2.disk.files k ≡ start.disk.files k
  pub done :
      (r : CreateResult)
      → y.0 ≡ ok r
      → PassedFacts mac sha S K q s × AcceptedFacts mac sha S q path start r y.2

pub create_submission-CreateFacts :
    (mac : Bytes → Bytes → Bytes) (sha : Bytes → Bytes) (S : Service) (K : KeyStore) (q : Submit)
    (path : Bytes) (s : KeyStore.Store K) (start : World)
    → safe_path S.root (storage_key q.submission_id) ≡ some path
    → All (IsFresh start.disk) (body_parts q.body)
    → All (IsElsewhere path) (body_parts q.body)
    → CreateFacts mac sha S K q path s start (create_submission mac sha S K q s start)
unfolding create_submission
create_submission-CreateFacts mac sha S K q path s start at fresh elsewhere =
    decided (check_request mac sha S K q s) refl
  where
    decided :
        (c : Answer (Unit {0}) × KeyStore.Store K)
        → check_request mac sha S K q s ≡ c
        → CreateFacts mac sha S K q path s start (after_checks c (upload mac sha S q) start)
    decided (err e, t) same = record {
      checked = λ e' h.
          let both : ◌≡◌ {A = Answer (Unit {0})} (err e) (err e') =
            sym (ap (λ (c : Answer (Unit {0}) × KeyStore.Store K). c.0) same) ∙ h in
          let one : e ≡ e' = cc both in (ap err one, refl);
      left = λ e' _ k _ _. refl;
      done = λ r h. cc h;
    }
    decided (ok u, t) same =
        let facts = upload-UploadFacts mac sha S q path start at fresh elsewhere in
        record {
          checked =
              λ e h. cc (sym (ap (λ (c : Answer (Unit {0}) × KeyStore.Store K). c.0) same) ∙ h);
          left = facts.left;
          done = λ r h. (
            check_request-PassedFacts mac sha S K q s
                (ap (λ (c : Answer (Unit {0}) × KeyStore.Store K). c.0) same),
            facts.done r h,
          );
        }
