-- ===== src/Database/Statements.antt =====
-- The SQL statements of internal/database/database.go, each as a function of NOW() and the tables.
-- The SELECTs FOR UPDATE read the same rows as without the clause.
use model_lib.Base.{
  ℕ, ◌+◌, Bool, true, false, ◌&&◌, ◌||◌, Option, none, some, [], ◌∷◌, ◌++◌, Bytes, leb, ◌==◌,
  if◌then◌else◌, str_eq, count_where, update_where, find_where,
}
use model_lib.Base.Int.{ℤ}
use model_lib.Database.{
  Status, queued, mock_processing, finished, internal_error, SubmissionRow, enqueue_submission,
  OutboxRow, Tables,
}

abbrev pub is_queued : Status → Bool
is_queued queued = true
is_queued _ = false

abbrev pub is_processing : Status → Bool
is_processing mock_processing = true
is_processing _ = false

-- status IN ('queued','mock_processing')
abbrev pub is_active : Status → Bool
is_active s = is_queued s || is_processing s

abbrev pub has_id : Bytes → SubmissionRow → Bool
has_id id r = str_eq r.id id

abbrev pub active : SubmissionRow → Bool
active r = is_active r.status

abbrev pub queued_of : Bytes → SubmissionRow → Bool
queued_of participant r = str_eq r.participant_id participant && is_queued r.status

abbrev pub running_of : Bytes → SubmissionRow → Bool
running_of participant r = str_eq r.participant_id participant && is_processing r.status

abbrev pub active_of : Bytes → SubmissionRow → Bool
active_of participant r = str_eq r.participant_id participant && is_active r.status

-- A SELECT that leaves the tables as they are.
abbrev pub select : {A : Type 0} → (Tables → A) → ℕ → Tables → Option (Tables × A)
select q now t = some (t, q t)

-- An UPDATE of submissions, with its RowsAffected.
abbrev pub update_submissions :
    (SubmissionRow → Bool) → (ℕ → SubmissionRow → SubmissionRow) → ℕ → Tables → Option (Tables × ℕ)
update_submissions p f now t =
    some
      (record t { submissions = update_where p (f now) t.submissions }, count_where p t.submissions)

-- SELECT COUNT(*) FROM submissions WHERE …
abbrev pub count_submissions : (SubmissionRow → Bool) → ℕ → Tables → Option (Tables × ℕ)
count_submissions p = select (λ t. count_where p t.submissions)

-- SELECT … FROM submissions WHERE id=$1
abbrev pub find_submission : Bytes → ℕ → Tables → Option (Tables × Option SubmissionRow)
find_submission id = select (λ t. find_where (has_id id) t.submissions)

-- `var origFN *string`: nil for an empty name.
abbrev nullable : Bytes → Option Bytes
nullable [] = none
nullable (c ∷ cs) = some (c ∷ cs)

-- The row that INSERT INTO submissions makes, with the columns' defaults.
abbrev pub new_submission : Bytes → Bytes → Bytes → Bytes → ℕ → Bytes → ℕ → SubmissionRow
new_submission id participant filename key size sha now = record {
  id = id;
  participant_id = participant;
  original_filename = nullable filename;
  source_storage_key = key;
  source_size = size;
  source_sha256 = sha;
  status = queued;
  compile_success = none;
  compile_stderr = none;
  exit_code = none;
  stdout = none;
  stderr = none;
  result_truncated = false;
  created_at = now;
  updated_at = now;
  started_at = none;
  finished_at = none;
}

-- PRIMARY KEY (id), UNIQUE (source_storage_key), and the reference to participants.
unfoldable pub admissible : SubmissionRow → Tables → Bool
admissible r t =
    (count_where (λ q. str_eq q.id r.id || str_eq q.source_storage_key r.source_storage_key)
        t.submissions
      == 0)
    && leb 1 (count_where (λ q. str_eq q.id r.participant_id) t.participants)

-- INSERT INTO submissions … RETURNING
abbrev pub insert_submission : (ℕ → SubmissionRow) → ℕ → Tables → Option (Tables × SubmissionRow)
insert_submission row now t =
    if admissible (row now) t
    then some (record t { submissions = t.submissions ++ row now ∷ [] }, row now)
    else none

abbrev pub new_event : Bytes → ℕ → ℕ → OutboxRow
new_event submission now id = record {
  id = id;
  submission_id = submission;
  event_type = enqueue_submission;
  created_at = now;
  available_at = now;
  delivered_at = none;
  attempt_count = 0;
  last_error = none;
}

abbrev pub with_event : Bytes → ℕ → Tables → Tables
with_event submission now t = record t {
  outbox = t.outbox ++ new_event submission now t.next_outbox_id ∷ [];
  next_outbox_id = t.next_outbox_id + 1;
}

-- INSERT INTO submission_outbox(submission_id,event_type); the id references submissions.
abbrev pub insert_event : Bytes → ℕ → Tables → Option (Tables × Unit {0})
insert_event submission now t =
    if leb 1 (count_where (has_id submission) t.submissions)
    then some (with_event submission now t, tt)
    else none

abbrev pub set_processing : ℕ → SubmissionRow → SubmissionRow
set_processing now r = record r {
  status = mock_processing;
  started_at = some now;
  updated_at = now;
}

abbrev pub queued_with_id : Bytes → SubmissionRow → Bool
queued_with_id id r = has_id id r && is_queued r.status

abbrev pub processing_with_id : Bytes → SubmissionRow → Bool
processing_with_id id r = has_id id r && is_processing r.status

-- UPDATE … SET status='mock_processing' … WHERE id=$1 AND status='queued'
abbrev pub mark_processing : Bytes → ℕ → Tables → Option (Tables × ℕ)
mark_processing id = update_submissions (queued_with_id id) set_processing

-- The columns that a run reports.
pub record RunResult : Type 0 where
  pub compile_success : Bool
  pub compile_stderr : Bytes
  pub stdout : Bytes
  pub stderr : Bytes
  pub exit_code : ℤ
  pub truncated : Bool

abbrev pub set_finished : RunResult → ℕ → SubmissionRow → SubmissionRow
set_finished res now r = record r {
  status = finished;
  compile_success = some res.compile_success;
  compile_stderr = some res.compile_stderr;
  exit_code = some res.exit_code;
  stdout = some res.stdout;
  stderr = some res.stderr;
  result_truncated = res.truncated;
  finished_at = some now;
  updated_at = now;
}

-- UPDATE … SET status = 'finished' … WHERE id = $7 AND status = 'mock_processing'
abbrev pub mark_finished : Bytes → RunResult → ℕ → Tables → Option (Tables × ℕ)
mark_finished id res = update_submissions (processing_with_id id) (set_finished res)

abbrev pub set_queued : ℕ → SubmissionRow → SubmissionRow
set_queued now r = record r { status = queued; started_at = none; updated_at = now }

-- UPDATE … SET status = 'queued', started_at = NULL … WHERE id = $1 AND status = 'mock_processing'
abbrev pub mark_queued : Bytes → ℕ → Tables → Option (Tables × ℕ)
mark_queued id = update_submissions (processing_with_id id) set_queued

-- started_at <= $2, which is not true of NULL
abbrev pub started_by : ℕ → Option ℕ → Bool
started_by before none = false
started_by before (some at) = leb at before

abbrev pub stale_with_id : Bytes → ℕ → SubmissionRow → Bool
stale_with_id id before r = processing_with_id id r && started_by before r.started_at

-- UPDATE … SET status='queued' … AND started_at <= $2
abbrev pub mark_stale_queued : Bytes → ℕ → ℕ → Tables → Option (Tables × ℕ)
mark_stale_queued id before = update_submissions (stale_with_id id before) set_queued

abbrev pub active_with_id : Bytes → SubmissionRow → Bool
active_with_id id r = has_id id r && is_active r.status

abbrev pub set_internal_error : ℕ → SubmissionRow → SubmissionRow
set_internal_error now r = record r {
  status = internal_error;
  finished_at = some now;
  updated_at = now;
}

-- UPDATE … SET status = 'internal_error' … AND status IN ('queued','mock_processing')
abbrev pub mark_internal_error : Bytes → ℕ → Tables → Option (Tables × ℕ)
mark_internal_error id = update_submissions (active_with_id id) set_internal_error
