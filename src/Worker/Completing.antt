-- ===== src/Worker/Completing.antt =====
-- cmd/mock-worker/main.go, processOne: a submission that may run is brought to its end.
use model_lib.Base.{ℕ, ◌≡◌, ◌≢◌, refl, true, false, some, Bytes, find_where, count_where}
use model_lib.Base.Int.{ℤ, pos, leb_ℤ}
use model_lib.Database.{Tables, Session, SubmissionRow, started, ok}
use model_lib.Database.Lifecycle.{
  try_start_submission, finish_submission_conditional, set_internal_error,
}
use model_lib.Database.Running.{
  try_start_submission-served, finish_submission_conditional-served, set_internal_error-served,
  done_row, done_others, given_up_row, given_up_others,
}
use model_lib.Database.Serving.{served_session}
use model_lib.Database.Statements.{has_id, is_queued, running_of, set_processing, set_finished}
use model_lib.Database.Statements
use model_lib.Queue.{StreamServer, JobItem, Client, ack}
use model_lib.Worker
use model_lib.Worker.{
  idle, Timer, work_done, deadline_passed, mock_result, advance, advance_times, process_one,
}

module _ (R : StreamServer) (max_running : ℤ) (job : JobItem) (c : Client R) where
  finishing_way :
      (s u v : Session)
      → try_start_submission job.submission_id max_running s ≡ (ok started, u)
      → finish_submission_conditional job.submission_id mock_result u ≡ (ok true, v)
      → process_one R max_running work_done job s c
        ≡ record { pc = idle; session = v; client = (ack R job.stream_id c).1 }
  unfolding process_one advance_times advance
  finishing_way s u v starts finishes = rw starts (rw finishes refl)

  failing_way :
      (s u v : Session)
      → try_start_submission job.submission_id max_running s ≡ (ok started, u)
      → set_internal_error job.submission_id u ≡ (ok tt, v)
      → process_one R max_running deadline_passed job s c
        ≡ record { pc = idle; session = v; client = (ack R job.stream_id c).1 }
  unfolding process_one advance_times advance
  failing_way s u v starts gives_up = rw starts (rw gives_up refl)

-- The row of a run that has ended.
abbrev pub ended_row : Timer → ℕ → SubmissionRow → SubmissionRow
ended_row work_done now r = set_finished mock_result now (set_processing now r)
ended_row deadline_passed now r = Statements.set_internal_error now (set_processing now r)

-- The end of a run: the row, the rows of other ids, and the entry of the stream.
pub record EndedFacts (R : StreamServer) (timer : Timer) (job : JobItem) (t : Tables) (now : ℕ)
    (r : SubmissionRow) (c : Client R) (w : Worker.Worker R) : Type 0 where
  pub ended :
      find_where (has_id job.submission_id) w.session.committed.submissions
      ≡ some (ended_row timer now r)
  pub others :
      (k : Bytes)
      → k ≢ job.submission_id
      → find_where (has_id k) w.session.committed.submissions ≡ find_where (has_id k) t.submissions
  pub acknowledged : w.client ≡ (ack R job.stream_id c).1

-- A job of a queued submission, the only row of its id, whose participant has a free running slot, with
-- a database that serves the worker: processOne ends the run, as finished with the result of the mock
-- runner if the work is done in time, and as an internal error if the deadline comes first. It
-- acknowledges the entry, and finds every other submission as it was.
pub process_one-EndedFacts :
    (R : StreamServer) (max_running : ℤ) (timer : Timer) (job : JobItem) (t work : Tables) (now : ℕ)
    (r : SubmissionRow) (c : Client R)
    → find_where (has_id job.submission_id) t.submissions ≡ some r
    → count_where (has_id job.submission_id) t.submissions ≡ 1
    → is_queued r.status ≡ true
    → leb_ℤ max_running (pos (count_where (running_of r.participant_id) t.submissions)) ≡ false
    → EndedFacts R timer job t now r c
        (process_one R max_running timer job (served_session t work now) c)
process_one-EndedFacts R max_running work_done job t work now r c found single waits room =
    rw
      (finishing_way R max_running job c _ _ _
        (try_start_submission-served job.submission_id max_running t work now r found single waits
          room)
        (finish_submission_conditional-served job.submission_id max_running t work now r found
          single waits room mock_result))
      (record {
        ended =
            done_row job.submission_id max_running t work now r found single waits room mock_result;
        others =
            done_others job.submission_id max_running t work now r found single waits room
              mock_result;
        acknowledged = refl;
      })
process_one-EndedFacts R max_running deadline_passed job t work now r c found single waits room =
    rw
      (failing_way R max_running job c _ _ _
        (try_start_submission-served job.submission_id max_running t work now r found single waits
          room)
        (set_internal_error-served job.submission_id max_running t work now r found single waits
          room))
      (record {
        ended = given_up_row job.submission_id max_running t work now r found single waits room;
        others = given_up_others job.submission_id max_running t work now r found single waits room;
        acknowledged = refl;
      })
