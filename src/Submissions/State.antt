-- ===== src/Submissions/State.antt =====
-- internal/submissions/submissions.go: the errors, the configuration, the parts of a body and what the
-- service changes, with its steps in sequence.
use model_lib.Base.{ℕ, ◌/◌, Bool, false, Option, none, some, List, [], ◌++◌, Bytes, codes}
use model_lib.Base.Int.{ℤ, pos_part}
use model_lib.Config.{Config}
use model_lib.Database.{Status, SubmissionRow, DbError, Session, Outcome}
use model_lib.Identity.{CookieProvider, HttpRequest, new_cookie_provider}
use model_lib.Storage.{Disk, StorageError, Chunk}

-- The errors that the service answers, with those that it wraps. ErrEmptySource, ErrContainsNUL and
-- ErrSizeExceeded are declared there too, but only storage's are used.
pub data SubmissionError : Type 0 where
  csrf_invalid origin_not_allowed rate_check_failed : SubmissionError
  rate_limited : ℕ → SubmissionError
  not_multipart body_too_large part_unreadable unknown_part multiple_text both_sources
        multiple_files invalid_extension no_source :
      SubmissionError
  upsert_failed : DbError → SubmissionError
  store_failed : StorageError → SubmissionError
  create_failed : DbError → SubmissionError
  lookup_failed : DbError → SubmissionError
  not_owned : SubmissionError

pub data Answer (A : Type 0) : Type 0 where
  ok : A → Answer A
  err : SubmissionError → Answer A

-- A part, with the name that CreateTemp finds if its content is saved.
pub record Part : Type 0 where
  pub form_name : Bytes
  pub file_name : Bytes
  pub content : List Chunk
  pub temp : Bytes

-- What NextPart returns, short of io.EOF.
pub data NextPart : Type 0 where
  part : Part → NextPart
  too_large broken : NextPart

-- The variables of the loop in CreateSubmission.
pub record Upload : Type 0 where
  pub source_file_name : Bytes
  pub seen_text : Bool
  pub seen_file : Bool
  pub tmp_path : Bytes
  pub source_size : ℕ
  pub source_sha256 : Bytes

abbrev pub no_upload : Upload
no_upload = record {
  source_file_name = [];
  seen_text = false;
  seen_file = false;
  tmp_path = [];
  source_size = 0;
  source_sha256 = [];
}

-- What the service reads of its configuration; the source limit is not negative.
pub record Service : Type 0 where
  pub provider : CookieProvider
  pub root : Bytes
  pub max_source_bytes : ℕ
  pub submit_rate_per_minute : ℤ
  pub submit_rate_per_hour : ℤ
  pub ip_submit_rate_per_minute : ℤ
  pub queue_max_depth : ℤ
  pub max_queued_per_participant : ℤ

-- NewService
unfoldable pub new_service : {Network : Type 0} → Config Network → Service
new_service cfg = record {
  provider = new_cookie_provider cfg;
  root = cfg.source_storage_root;
  max_source_bytes = pos_part cfg.max_source_bytes;
  submit_rate_per_minute = cfg.submit_rate_per_minute;
  submit_rate_per_hour = cfg.submit_rate_per_hour;
  ip_submit_rate_per_minute = cfg.ip_submit_rate_per_minute;
  queue_max_depth = cfg.queue_max_depth;
  max_queued_per_participant = cfg.max_queued_per_participant;
}

-- One call of CreateSubmission: the request, whose body is missing where MultipartReader refuses it;
-- what the clocks show to the provider (seconds, nanoseconds), to the limiter and to Redis; how the
-- three scripts of the limiter end; and the id that is drawn.
pub record Submit : Type 0 where
  pub request : HttpRequest
  pub body : Option (List NextPart)
  pub participant : Bytes
  pub client_ip : Bytes
  pub now : ℕ
  pub now_ns : ℕ
  pub limiter_now : ℕ
  pub redis_clock : ℕ
  pub by_minute : Outcome
  pub by_hour : Outcome
  pub by_ip : Outcome
  pub submission_id : Bytes

pub record CreateResult : Type 0 where
  pub submission_id : Bytes
  pub status : Status

-- What GetSubmission shows of a row. A time is shown by time.RFC3339, which has no fractions: here it
-- is the second.
pub record SubmissionResult : Type 0 where
  pub id : Bytes
  pub status : Status
  pub original_filename : Option Bytes
  pub source_size : ℕ
  pub source_sha256 : Bytes
  pub compile_success : Option Bool
  pub compile_stderr : Option Bytes
  pub exit_code : Option ℤ
  pub stdout : Option Bytes
  pub stderr : Option Bytes
  pub result_truncated : Bool
  pub created_at : ℕ
  pub updated_at : ℕ
  pub started_at : Option ℕ
  pub finished_at : Option ℕ

abbrev pub format_time : ℕ → ℕ
format_time microseconds = microseconds / 1_000_000

abbrev pub format_optional : Option ℕ → Option ℕ
format_optional none = none
format_optional (some microseconds) = some (format_time microseconds)

unfoldable pub submission_result : SubmissionRow → SubmissionResult
submission_result row = record {
  id = row.id;
  status = row.status;
  original_filename = row.original_filename;
  source_size = row.source_size;
  source_sha256 = row.source_sha256;
  compile_success = row.compile_success;
  compile_stderr = row.compile_stderr;
  exit_code = row.exit_code;
  stdout = row.stdout;
  stderr = row.stderr;
  result_truncated = row.result_truncated;
  created_at = format_time row.created_at;
  updated_at = format_time row.updated_at;
  started_at = format_optional row.started_at;
  finished_at = format_optional row.finished_at;
}

abbrev pub storage_key : Bytes → Bytes
storage_key id = id ++ codes ".c"

-- What the service changes, next to the limiter's store.
pub record World : Type 0 where
  pub disk : Disk
  pub db : Session

abbrev pub Act : Type 0 → Type 0
Act A = World → Answer A × World

abbrev pub resume : {A B : Type 0} → Answer A → World → (A → Act B) → Answer B × World
resume (ok a) w k = k a w
resume (err e) w k = (err e, w)

infixl 5 ◌>>=◌ ◌>>◌
abbrev pub ◌>>=◌ : {A B : Type 0} → Act A → (A → Act B) → Act B
◌>>=◌ m k w = resume (m w).0 (m w).1 k

abbrev pub ◌>>◌ : {B : Type 0} → Act (Unit {0}) → Act B → Act B
m >> k = m >>= λ _. k

abbrev pub return : {A : Type 0} → A → Act A
return a w = (ok a, w)

abbrev pub fail : {A : Type 0} → SubmissionError → Act A
fail e w = (err e, w)
