-- ===== src/Database/Refines.antt =====
-- The calls of Database/Lifecycle against the changes of Database/Change.
use model_lib.Database.Placing.{
  Changes, no_change, below_of_room, insert_event-some, create_locked-Changes,
}
use model_lib.Base.{
  ℕ, ◌∙◌, ◌≡◌, refl, arith, Bool, true, false, not, ◌||◌, ◌==◌, Option, none, some, Bytes,
  count_where, find_where,
}
use model_lib.Base.Int.{pos, leb_ℤ}
use model_lib.Database.{
  Tables, Session, SubmissionRow, Status, queued, mock_processing, Sql, StartResult, ◌>>=◌,
  transaction,
}
use model_lib.Database.Statements.{
  running_of, insert_event, mark_processing, mark_finished, mark_stale_queued, mark_internal_error,
  RunResult, has_id, is_queued,
}
use model_lib.Database.Lifecycle.{
  create_submission_queued, start_queued, status_of, start_locked, start_found,
  try_start_submission, finish_submission_conditional, recover_stale_submission, set_internal_error,
}
use model_lib.Database.Change.{Limits, Change, started, finished, recovered, failed}
use model_lib.Database.Rules.{
  Answer, begin_rule, commit_rule, statement_rule, select_rule, direct_rule, if_rule,
}

-- The committed tables stay as they were, or the limits had room and the row was committed together
-- with its outbox event, whatever the driver answers.
pub create_submission_queued-Changes :
    (lim : Limits) (id participant filename key : Bytes) (size : ℕ) (sha : Bytes) (s : Session)
    → Changes lim s.committed (
        create_submission_queued id participant filename key size sha lim.max_active lim.max_queued
          s)
unfolding create_submission_queued transaction
create_submission_queued-Changes lim id participant filename key size sha s =
    if_rule Q (leb_ℤ lim.max_active (pos 0) || leb_ℤ lim.max_queued (pos 0)) _ _ _
      (λ _. no_change refl)
      λ _. record {
        change = Changes.change (
            begin_rule Q s _ (λ e. no_change refl)
              (select_rule Q _ _ _ (λ e. no_change refl)
                (select_rule Q _ _ _ (λ e. no_change refl)
                  (create_locked-Changes lim id participant filename key size sha _ refl))));
      }
  where
    Q : Answer SubmissionRow → Type 0
    Q = Changes lim s.committed

-- The UPDATE of a start, when it found one row.
started-Change :
    (lim : Limits) (id : Bytes) (r : SubmissionRow) (now : ℕ) (t u : Tables) (n : ℕ)
    → find_where (has_id id) t.submissions ≡ some r
    → r.status ≡ queued
    → leb_ℤ lim.max_running (pos (count_where (running_of r.participant_id) t.submissions)) ≡ false
    → mark_processing id now t ≡ some (u, n)
    → (n == 1) ≡ true
    → Change lim t u
started-Change lim id r now t u n found q room marked one =
    started id r now found q (below_of_room lim.max_running _ room) (ground arith) (ground arith)

pub queued_of_test : (status : Status) → not (is_queued status) ≡ false → status ≡ queued
queued_of_test queued h = refl
queued_of_test mock_processing h = cc
queued_of_test _ h = cc

pub status_rule :
    {A : Type 0} (Q : Answer A → Type 0) (s : Session) (row : Option SubmissionRow)
    (r : SubmissionRow) (k : Status → Sql A)
    → row ≡ some r
    → Q (k r.status s)
    → Q ((status_of row >>= k) s)
status_rule Q s row r k e h = rw e h

start_queued-Changes :
    (lim : Limits) (id : Bytes) (r : SubmissionRow) (s : Session)
    → s.work ≡ s.committed
    → find_where (has_id id) s.work.submissions ≡ some r
    → r.status ≡ queued
    → leb_ℤ lim.max_running (pos (count_where (running_of r.participant_id) s.work.submissions))
      ≡ false
    → Changes lim s.committed (start_queued id s)
unfolding start_queued
start_queued-Changes lim id r s fresh found q room =
    statement_rule Q s (mark_processing id) _ (λ e. no_change refl)
      λ t n marked.
        if_rule Q (n == 1) _ _ _
          (λ one.
            let made =
              rw fresh at (started-Change lim id r s.now s.work t n found q room marked one) in
            commit_rule Q _ _ (λ e. no_change refl) (λ e. record { change = made })
              (record { change = made }))
          λ _. no_change refl
  where
    Q : Answer StartResult → Type 0
    Q = Changes lim s.committed

start_locked-Changes :
    (lim : Limits) (id : Bytes) (r : SubmissionRow) (s : Session)
    → s.work ≡ s.committed
    → find_where (has_id id) s.work.submissions ≡ some r
    → Changes lim s.committed (start_locked id r.participant_id lim.max_running s)
unfolding start_locked
start_locked-Changes lim id r s fresh found =
    select_rule Q s _ _ (λ e. no_change refl)
      (status_rule Q _ _ r _ found (
        if_rule Q (not (is_queued r.status)) _ _ _ (λ _. no_change refl)
          λ q.
            select_rule Q _ _ _ (λ e. no_change refl)
              (if_rule Q
                (leb_ℤ lim.max_running
                  (pos (count_where (running_of r.participant_id) s.work.submissions)))
                _ _ _ (λ _. no_change refl)
                λ room.
                  start_queued-Changes lim id r _ fresh found (queued_of_test r.status q) room)))
  where
    Q : Answer StartResult → Type 0
    Q = Changes lim s.committed

start_found-Changes :
    (lim : Limits) (id : Bytes) (row : Option SubmissionRow) (s : Session)
    → s.work ≡ s.committed
    → find_where (has_id id) s.work.submissions ≡ row
    → Changes lim s.committed (start_found id lim.max_running row s)
start_found-Changes lim id none s fresh found = no_change refl
start_found-Changes lim id (some r) s fresh found =
    select_rule (Changes lim s.committed) s _ _ (λ e. no_change refl)
      (start_locked-Changes lim id r _ fresh found)

-- The committed tables stay as they were, or one queued row, whose participant had a free running
-- slot, was moved to mock_processing, whatever the driver answers.
pub try_start_submission-Changes :
    (lim : Limits) (id : Bytes) (s : Session)
    → Changes lim s.committed (try_start_submission id lim.max_running s)
unfolding try_start_submission transaction
try_start_submission-Changes lim id s =
    if_rule Q (leb_ℤ lim.max_running (pos 0)) _ _ _ (λ _. no_change refl)
      λ _. record {
        change = Changes.change (
            begin_rule Q s _ (λ e. no_change refl)
              (select_rule Q _ _ _ (λ e. no_change refl)
                (start_found-Changes lim id _ _ refl refl)));
      }
  where
    Q : Answer StartResult → Type 0
    Q = Changes lim s.committed

pub finish_submission_conditional-Changes :
    (lim : Limits) (id : Bytes) (res : RunResult) (s : Session)
    → Changes lim s.committed (finish_submission_conditional id res s)
unfolding finish_submission_conditional
finish_submission_conditional-Changes lim id res s =
    direct_rule (Changes lim s.committed) s (mark_finished id res) _ (λ e. no_change refl)
      (λ t n e made. record { change = done made }) (λ t n made. record { change = done made })
  where
    done :
        {t : Tables} {n : ℕ}
        → mark_finished id res s.now s.committed ≡ some (t, n)
        → Change lim s.committed t
    done made = finished id res s.now (ground arith)

pub set_internal_error-Changes :
    (lim : Limits) (id : Bytes) (s : Session) → Changes lim s.committed (set_internal_error id s)
unfolding set_internal_error
set_internal_error-Changes lim id s =
    direct_rule (Changes lim s.committed) s (mark_internal_error id) _ (λ e. no_change refl)
      (λ t n e made. record { change = done made }) (λ t n made. record { change = done made })
  where
    done :
        {t : Tables} {n : ℕ}
        → mark_internal_error id s.now s.committed ≡ some (t, n)
        → Change lim s.committed t
    done made = failed id s.now (ground arith)

-- RecoverStaleSubmission either leaves the committed tables, or puts the stale row back in the queue
-- together with a new outbox event, whatever the driver answers.
pub recover_stale_submission-Changes :
    (lim : Limits) (id : Bytes) (stale_before : ℕ) (s : Session)
    → Changes lim s.committed (recover_stale_submission id stale_before s)
unfolding recover_stale_submission transaction
recover_stale_submission-Changes lim id before s = record {
  change = Changes.change (
      begin_rule Q s _ (λ e. no_change refl)
        (statement_rule Q _ (mark_stale_queued id before) _ (λ e. no_change refl)
          λ t n marked.
            if_rule Q (n == 0) _ _ _ (λ _. no_change refl)
              λ _.
                statement_rule Q _ (insert_event id) _ (λ e. no_change refl)
                  λ u a noted.
                    let made =
                      recovered id before s.now
                        (insert_event-some id s.now t u a noted ∙ ground arith) in
                    commit_rule Q _ _ (λ e. no_change refl) (λ e. record { change = made })
                      (record { change = made })));
}
  where
    Q : Answer Bool → Type 0
    Q = Changes lim s.committed
