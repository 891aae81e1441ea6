-- ===== src/Database/Lifecycle.antt =====
-- internal/database/database.go: the calls that create a submission and move it along
-- queued → mock_processing → finished, back to queued, or to internal_error.
use model_lib.Base.{
  ℕ, Bool, true, false, not, Option, none, some, Bytes, ◌==◌, ltb, if◌then◌else◌, ◌||◌, find_where,
  str_eq, ◌&&◌,
}
use model_lib.Base.Int.{ℤ, pos, leb_ℤ}
use model_lib.Database.{
  Status, SubmissionRow, StartResult, started, quota_busy, duplicate_or_terminal, not_found,
  global_capacity, participant_queued_quota, invalid_queue_limits, invalid_max_running, Sql, ◌>>=◌,
  ◌>>◌, return, fail, begin, statement, commit, transaction, direct, sql_failed,
}
use model_lib.Database.Statements.{
  is_queued, has_id, active, queued_of, running_of, active_of, select, count_submissions,
  find_submission, new_submission, insert_submission, insert_event, mark_processing, RunResult,
  mark_finished, mark_queued, mark_stale_queued, mark_internal_error,
}

-- SELECT pg_advisory_xact_lock(…): no rows, and it may fail as any statement.
abbrev pub advisory_lock : Sql Unit
advisory_lock = statement (select (λ _. tt))

-- From the counts to the commit, behind the locks of CreateSubmissionQueued.
unfoldable pub create_locked : Bytes → Bytes → Bytes → Bytes → ℕ → Bytes → ℤ → ℤ → Sql SubmissionRow
create_locked id participant filename key size sha max_active max_queued = do
  in_system ← statement (count_submissions active)
  if leb_ℤ max_active (pos in_system) then fail global_capacity else do
    waiting ← statement (count_submissions (queued_of participant))
    if leb_ℤ max_queued (pos waiting) then fail participant_queued_quota else do
      row ← statement (insert_submission (new_submission id participant filename key size sha))
      statement (insert_event id)
      commit
      return row

-- CreateSubmission, which asks for no limit and records no event; the service does not call it.
unfoldable pub create_submission_row : Bytes → Bytes → Bytes → Bytes → ℕ → Bytes → Sql SubmissionRow
create_submission_row id participant filename key size sha =
    direct (insert_submission (new_submission id participant filename key size sha))

unfoldable pub create_submission_queued :
    Bytes → Bytes → Bytes → Bytes → ℕ → Bytes → ℤ → ℤ → Sql SubmissionRow
create_submission_queued id participant filename key size sha max_active max_queued =
    if leb_ℤ max_active (pos 0) || leb_ℤ max_queued (pos 0)
    then fail invalid_queue_limits
    else transaction do
      begin
      advisory_lock
      advisory_lock
      create_locked id participant filename key size sha max_active max_queued

-- The end of TryStartSubmission: the UPDATE must change one row, or the call gives up.
unfoldable pub start_queued : Bytes → Sql StartResult
start_queued id = do
  changed ← statement (mark_processing id)
  if changed == 1 then commit >> return started else return duplicate_or_terminal

-- `Scan` of the row's status: no row is an error here.
abbrev pub status_of : Option SubmissionRow → Sql Status
status_of none = fail sql_failed
status_of (some r) = return r.status

unfoldable pub start_locked : Bytes → Bytes → ℤ → Sql StartResult
start_locked id participant max_running = do
  row ← statement (find_submission id)
  status ← status_of row
  if not (is_queued status) then return duplicate_or_terminal else do
    running ← statement (count_submissions (running_of participant))
    if leb_ℤ max_running (pos running) then return quota_busy else start_queued id

abbrev pub start_found : Bytes → ℤ → Option SubmissionRow → Sql StartResult
start_found id max_running none = return not_found
start_found id max_running (some r) = advisory_lock >> start_locked id r.participant_id max_running

unfoldable pub try_start_submission : Bytes → ℤ → Sql StartResult
try_start_submission id max_running =
    if leb_ℤ max_running (pos 0)
    then fail invalid_max_running
    else transaction do begin; row ← statement (find_submission id); start_found id max_running row

-- `n > 0` of the calls that are one UPDATE.
abbrev pub changed_any : Sql ℕ → Sql Bool
changed_any m = do n ← m; return (ltb 0 n)

unfoldable pub start_submission_conditional : Bytes → Sql Bool
start_submission_conditional id = changed_any (direct (mark_processing id))

unfoldable pub finish_submission_conditional : Bytes → RunResult → Sql Bool
finish_submission_conditional id res = changed_any (direct (mark_finished id res))

unfoldable pub recover_to_queued : Bytes → Sql Bool
recover_to_queued id = changed_any (direct (mark_queued id))

unfoldable pub recover_stale_submission : Bytes → ℕ → Sql Bool
recover_stale_submission id stale_before = transaction do
  begin
  n ← statement (mark_stale_queued id stale_before)
  if n == 0 then return false else do statement (insert_event id); commit; return true

unfoldable pub set_internal_error : Bytes → Sql Unit
set_internal_error id = do changed ← direct (mark_internal_error id); return tt

unfoldable pub get_submission : Bytes → Bytes → Sql (Option SubmissionRow)
get_submission id participant =
    direct (
      select
        λ t. find_where (λ r. has_id id r && str_eq r.participant_id participant) t.submissions)

unfoldable pub count_participant_queued_or_running : Bytes → Sql ℕ
count_participant_queued_or_running participant = direct (count_submissions (active_of participant))
