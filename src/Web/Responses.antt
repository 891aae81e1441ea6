-- ===== src/Web/Responses.antt =====
-- internal/web/web.go: responses, and how errors are answered.
use model_lib.Base.{ℕ, if◌then◌else◌, List, Bytes, codes, str_eq}
use model_lib.Base.Int.{pos}
use model_lib.Database.{DbError}
use model_lib.Encoding.Decimal.{decimal}
use model_lib.Identity.{SetCookie}
use model_lib.Storage.{StorageError}
use model_lib.Submissions.{
  SubmissionError, csrf_invalid, origin_not_allowed, rate_limited, body_too_large, unknown_part,
  multiple_text, both_sources, multiple_files, invalid_extension, no_source, upsert_failed,
  store_failed, create_failed, lookup_failed, CreateResult, SubmissionResult,
}

-- The headers and cookies that are set for the response.
pub record Writer : Type 0 where
  pub header : Bytes → Bytes
  pub cookies : List SetCookie

pub data Body : Type 0 where
  json_error : Bytes → Body
  json_created : CreateResult → Body
  json_submission : SubmissionResult → Body
  plain : Bytes → Body
  index_page : (max_source_bytes max_source_mib : ℕ) (csrf_token : Bytes) → Body
  result_page : (submission_id poll_endpoint : Bytes) → Body
  no_body : Body

pub record Response : Type 0 where
  pub status : ℕ
  pub writer : Writer
  pub body : Body

-- What a handler comes to: a response, or a panic before anything is written.
pub data Handled : Type 0 where
  answered : Response → Handled
  panicked : Writer → Handled

abbrev pub set_header : Bytes → Bytes → Writer → Writer
set_header name value w = record {
  header = λ n. if str_eq name n then value else w.header n;
  cookies = w.cookies;
}

abbrev pub respond : Writer → ℕ → Body → Response
respond w status body = record { status = status; writer = w; body = body }

-- writeJSON
abbrev pub write_json : Writer → ℕ → Body → Response
write_json w status body =
    respond (set_header (codes "Content-Type") (codes "application/json") w) status body

-- http.Error
abbrev pub http_error : Writer → Bytes → ℕ → Response
http_error w text status =
    respond
      (set_header (codes "X-Content-Type-Options") (codes "nosniff")
        (set_header (codes "Content-Type") (codes "text/plain; charset=utf-8") w))
      status (plain text)

abbrev pub not_found_page : Writer → Response
not_found_page w = http_error w (codes "404 page not found") 404

abbrev pub write_plain : Writer → ℕ → Bytes → Response
write_plain w status text =
    respond (set_header (codes "Content-Type") (codes "text/plain") w) status (plain text)

-- renderTemplate
abbrev pub render : Writer → Body → Response
render w body =
    respond (set_header (codes "Content-Type") (codes "text/html; charset=utf-8") w) 200 body

abbrev pub retry_after_header : Bytes → Writer → Writer
retry_after_header seconds w = set_header (codes "Retry-After") seconds w

abbrev pub internal_error_json : Writer → Response
internal_error_json w = write_json w 500 (json_error (codes "internal error"))

abbrev pub rate_limit_json : Writer → ℕ → Response
rate_limit_json w seconds =
    write_json (retry_after_header (decimal (pos seconds)) w) 429
      (json_error (codes "rate limit exceeded"))

-- The cases of the switch that name an error of the database; it also looks inside wrapped errors.
abbrev pub database_error_json : Writer → DbError → Response
database_error_json w DbError.global_capacity =
    write_json (retry_after_header (codes "15") w) 503 (json_error (codes "system is busy"))
database_error_json w DbError.participant_queued_quota =
    write_json w 409 (json_error (codes "queued submission quota exceeded"))
database_error_json w e = internal_error_json w

abbrev pub store_error_json : Writer → StorageError → Response
store_error_json w StorageError.empty_source =
    write_json w 400 (json_error (codes "source is empty"))
store_error_json w StorageError.size_exceeded =
    write_json w 413 (json_error (codes "source too large"))
store_error_json w StorageError.contains_nul =
    write_json w 400 (json_error (codes "source contains NUL byte"))
store_error_json w e = internal_error_json w

-- How handleCreateSubmission answers an error.
unfoldable pub create_error_json : Writer → SubmissionError → Response
create_error_json w (rate_limited seconds) = rate_limit_json w seconds
create_error_json w origin_not_allowed = write_json w 403 (json_error (codes "origin not allowed"))
create_error_json w csrf_invalid = write_json w 403 (json_error (codes "invalid CSRF token"))
create_error_json w body_too_large =
    write_json (retry_after_header (codes "60") w) 413 (json_error (codes "request body too large"))
create_error_json w both_sources =
    write_json w 400 (json_error (codes "provide either source_text or source_file, not both"))
create_error_json w no_source =
    write_json w 400 (json_error (codes "provide either source_text or source_file"))
create_error_json w invalid_extension =
    write_json w 400 (json_error (codes "file must have .c extension"))
create_error_json w multiple_files =
    write_json w 400 (json_error (codes "multiple source files not accepted"))
create_error_json w multiple_text =
    write_json w 400 (json_error (codes "multiple source_text parts not accepted"))
create_error_json w unknown_part = write_json w 400 (json_error (codes "unknown form part"))
create_error_json w (store_failed e) = store_error_json w e
create_error_json w (create_failed e) = database_error_json w e
create_error_json w (upsert_failed e) = database_error_json w e
create_error_json w (lookup_failed e) = database_error_json w e
create_error_json w e = internal_error_json w
