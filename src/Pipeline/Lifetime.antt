-- ===== src/Pipeline/Lifetime.antt =====
-- From CreateSubmission (internal/submissions/submissions.go) over processOne
-- (cmd/mock-worker/main.go) to GetSubmission: the life of an upload.
use model_lib.Base.{
  ℕ, ◌≡◌, refl, sym, ap, ◌∙◌, arith, false, some, [], ◌∷◌, ◌++◌, Bytes, length, str_eq, str_eq_refl,
  find_where, count_where, count_where-append, All,
}
use model_lib.Base.Int.{ℤ, pos, leb_ℤ}
use model_lib.Database.{Tables, SubmissionRow, direct}
use model_lib.Database.Growing.{IsNew, admissible-IsNew}
use model_lib.Database.Lifecycle.{get_submission}
use model_lib.Database.Found.{find-owned}
use model_lib.Database.Serving.{served_session}
use model_lib.Database.Statements.{has_id, running_of, new_submission}
use model_lib.Queue.{StreamServer, JobItem, Client}
use model_lib.RateLimit.{KeyStore}
use model_lib.Storage.{safe_path}
use model_lib.Submissions.{
  ok, Submit, Service, World, CreateResult, submission_result, storage_key, filename_of,
  create_submission, lookup_submission,
}
use model_lib.Submissions.Creating.{AcceptedFacts, IsElsewhere, body_parts}
use model_lib.Submissions.Parts.{IsFresh}
use model_lib.Submissions.Polling.{find-skipped}
use model_lib.Submissions.Uploading.{create_submission-CreateFacts}
use model_lib.Worker
use model_lib.Worker.{Timer, work_done, deadline_passed, process_one}
use model_lib.Worker.Completing.{ended_row, EndedFacts, process_one-EndedFacts}

-- The end of an accepted upload: its source is on the disk, the run has ended, and GetSubmission shows
-- its owner the row of the run that has ended.
pub record LifeFacts (R : StreamServer) (sha : Bytes → Bytes) (timer : Timer) (job : JobItem)
    (c : Client R) (q : Submit) (path : Bytes) (start w : World) (now : ℕ) (r : CreateResult)
    (y : Worker.Worker R) : Type 0 where
  pub name : Bytes
  pub content : Bytes
  pub row : SubmissionRow
  pub made :
      row
      ≡ new_submission q.submission_id q.participant name
          (storage_key q.submission_id)
          (length content)
          (sha content)
          start.db.now
  pub stored : w.disk.files path ≡ some content
  pub ended : EndedFacts R timer job w.db.committed now row c y
  pub shown :
      (work : Tables) (at : ℕ)
      → (lookup_submission r.submission_id q.participant
          (served_session y.session.committed work at)).0
        ≡ ok (submission_result (ended_row timer now row))

owner_stays :
    (timer : Timer) (now : ℕ) (r : SubmissionRow)
    → (ended_row timer now r).participant_id ≡ r.participant_id
owner_stays work_done now r = refl
owner_stays deadline_passed now r = refl

module _ (R : StreamServer) (max_running : ℤ) (timer : Timer) (job : JobItem) (c : Client R)
    (mac : Bytes → Bytes → Bytes) (sha : Bytes → Bytes) (S : Service) (q : Submit) (path : Bytes)
    (start : World) (now : ℕ) (r : CreateResult) where
  accepted-LifeFacts :
      (w : World) (work : Tables)
      → AcceptedFacts mac sha S q path start r w
      → job.submission_id ≡ q.submission_id
      → leb_ℤ max_running (pos (count_where (running_of q.participant) w.db.committed.submissions))
        ≡ false
      → LifeFacts R sha timer job c q path start w now r
          (process_one R max_running timer job (served_session w.db.committed work now) c)
  unfolding lookup_submission get_submission direct find_where count_where
  accepted-LifeFacts w work a same room = record {
    name = filename_of a.u;
    content = a.content;
    row = row;
    made = refl;
    stored = a.stored;
    ended = ended;
    shown = λ again at. rw a.answered.0 (
        rw
          (find-owned q.submission_id q.participant _ (ended_row timer now row)
            (ap
                (λ (id : Bytes).
                  find_where (has_id id)
                    (process_one R max_running timer job (served_session w.db.committed work now)
                      c).session.committed.submissions)
                (sym same)
              ∙ ended.ended)
            (ap (λ (id : Bytes). str_eq id q.participant) (owner_stays timer now row)
              ∙ str_eq_refl q.participant))
          refl);
  }
    where
      row : SubmissionRow
      row =
          new_submission q.submission_id q.participant (filename_of a.u)
            (storage_key q.submission_id) (length a.content) (sha a.content) start.db.now

      rows : w.db.committed.submissions ≡ a.visited.submissions ++ row ∷ []
      rows = ap (λ (t : Tables). t.submissions) a.queued_row

      new : IsNew a.visited row
      new = admissible-IsNew row a.visited a.admitted

      found : find_where (has_id q.submission_id) w.db.committed.submissions ≡ some row
      found =
          ap (find_where (has_id q.submission_id)) rows
          ∙ find-skipped _ a.visited.submissions (row ∷ []) new
          ∙ rw (str_eq_refl q.submission_id) refl

      one : count_where (has_id q.submission_id) (row ∷ []) ≡ 1
      one = rw (str_eq_refl q.submission_id) refl

      single : count_where (has_id q.submission_id) w.db.committed.submissions ≡ 1
      single =
          let split =
            count_where-append (has_id q.submission_id) a.visited.submissions (row ∷ []) in
          ap (count_where (has_id q.submission_id)) rows ∙ omega (arith, split, one, new)

      ended :
          EndedFacts R timer job w.db.committed now row c
            (process_one R max_running timer job (served_session w.db.committed work now) c)
      ended =
          process_one-EndedFacts R max_running timer job w.db.committed work now row c
            (ap (λ (id : Bytes). find_where (has_id id) w.db.committed.submissions) same ∙ found)
            (ap (λ (id : Bytes). count_where (has_id id) w.db.committed.submissions) same ∙ single)
            refl room

  -- An upload that CreateSubmission has accepted, and a worker that has claimed its job, where the
  -- participant has a free running slot and the database serves the worker: processOne ends the run, as
  -- finished with the result of the mock runner if the work is done in time, and as an internal error if
  -- the deadline comes first, acknowledges the entry and finds every other submission as it was.
  -- GetSubmission, if it is served, then shows this end to the owner under the answered id, and the
  -- source is on the disk, with the size and the digest of the row. The key has a path, and the
  -- temporary names are new.
  pub process_one-create_submission :
      (K : KeyStore) (s : KeyStore.Store K) (work : Tables)
      → safe_path S.root (storage_key q.submission_id) ≡ some path
      → All (IsFresh start.disk) (body_parts q.body)
      → All (IsElsewhere path) (body_parts q.body)
      → (create_submission mac sha S K q s start).0 ≡ ok r
      → job.submission_id ≡ q.submission_id
      → leb_ℤ max_running (
          pos (
            count_where
              (running_of q.participant)
              (create_submission mac sha S K q s start).2.db.committed.submissions))
        ≡ false
      → LifeFacts R sha timer job c q path start (create_submission mac sha S K q s start).2 now r (
          process_one R max_running timer job
            (served_session (create_submission mac sha S K q s start).2.db.committed work now)
            c)
  process_one-create_submission K s work at fresh elsewhere answered same room =
      let facts = create_submission-CreateFacts mac sha S K q path s start at fresh elsewhere in
      accepted-LifeFacts (create_submission mac sha S K q s start).2 work (facts.done r answered).1
        same room
