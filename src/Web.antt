-- ===== src/Web.antt =====
-- internal/web/web.go: the handlers and how errors are answered. A response is what was written, with
-- the headers set before; bodies are what the JSON encoder or the template is given. Templates are
-- taken to render, and the reader of a body to end at the request limit as MaxBytesReader does.
mod Responses
pub mod Log
pub mod Middleware
pub mod Privacy
pub mod Headers
pub mod Answering
pub mod Visitors
pub mod Logging
pub mod Tests
unfoldable pub use Responses.*
use model_lib.Base.{
  ℕ, ◌/◌, ◌*◌, Bool, true, false, not, if◌then◌else◌, ltb, Option, none, some, ◌++◌, Bytes, codes,
  length, is_empty,
}
use model_lib.Base.Int.{ℤ}
use model_lib.Config.{Config}
use model_lib.Database.{Session, Outcome}
use model_lib.Identity.{Identity, csrf_token, extract_client_ip}
use model_lib.RateLimit.{KeyStore, allow_poll}
use model_lib.Submissions.{
  Answer, not_owned, CreateResult, SubmissionResult, Service, new_service, Submit, World,
  create_submission, lookup_submission,
}

-- handleHealthz
unfoldable pub handle_healthz : Writer → Response
handle_healthz w = write_plain w 200 (codes "ok")

-- What the checks of handleReadyz come to.
pub record Readiness : Type 0 where
  pub db_reached : Bool
  pub redis_reached : Bool
  pub temp_made : Bool
  pub temp_closed : Bool

-- handleReadyz; the temporary file is removed in both cases.
unfoldable pub handle_readyz : Readiness → Writer → Response
handle_readyz r w =
    if not r.db_reached
    then write_plain w 503 (codes "db: unreachable")
    else if not r.redis_reached
    then write_plain w 503 (codes "redis: unreachable")
    else if not r.temp_made
    then write_plain w 503 (codes "storage: not writable")
    else if not r.temp_closed
    then respond w 503 no_body
    else write_plain w 200 (codes "ok")

-- A poll: the id in the path, and how the limiter's script ends.
pub record Poll : Type 0 where
  pub submission_id : Bytes
  pub now : ℕ
  pub redis_clock : ℕ
  pub outcome : Outcome

abbrev pub unauthorized_json : Writer → Response
unauthorized_json w = write_json w 401 (json_error (codes "unauthorized"))

abbrev pub unauthorized_page : Writer → Response
unauthorized_page w = http_error w (codes "unauthorized") 401

abbrev pub created_json : Writer → Answer CreateResult → Response
created_json w (Answer.ok r) = write_json w 202 (json_created r)
created_json w (Answer.err e) = create_error_json w e

abbrev pub submission_json : Writer → Answer SubmissionResult → Response
submission_json w (Answer.ok row) = write_json w 200 (json_submission row)
submission_json w (Answer.err not_owned) = write_json w 404 (json_error (codes "not found"))
submission_json w (Answer.err e) = internal_error_json w

abbrev pub submission_page : Writer → Bytes → Answer SubmissionResult → Response
submission_page w id (Answer.ok row) = render w (result_page id (codes "/api/submissions/" ++ id))
submission_page w id (Answer.err not_owned) = not_found_page w
submission_page w id (Answer.err e) = http_error w (codes "internal error") 500

-- handleSubmissionPage
unfoldable pub handle_submission_page :
    Bytes → Option Identity → Writer → Session → Response × Session
handle_submission_page id none w s =
    if is_empty id then (not_found_page w, s) else (unauthorized_page w, s)
handle_submission_page id (some visitor) w s =
    let (answer, t) = lookup_submission id visitor.participant_id s in
    if is_empty id then (not_found_page w, s) else (submission_page w id answer, t)

module _ (mac : Bytes → Bytes → Bytes) (S : Service) where
  -- handleIndex
  unfoldable pub handle_index : ℕ → Option Identity → Writer → Response
  handle_index now none w = unauthorized_page w
  handle_index now (some visitor) w = render w (
      index_page S.max_source_bytes (S.max_source_bytes / (1024 * 1024))
        (csrf_token mac S.provider now visitor.participant_id))

module _ (K : KeyStore) (poll_rate : ℤ) where
  open K use {Store}

  abbrev pub polled :
      Writer → Bytes → Bytes → Option (Bool × ℕ) × Store → Session → Handled × Store × Session
  polled w id participant (some (false, seconds), t) s =
      (answered (rate_limit_json w seconds), t, s)
  polled w id participant (some (true, _), t) s =
      let (answer, u) = lookup_submission id participant s in
      (answered (submission_json w answer), t, u)
  -- The limiter fails open; the log line takes the first eight bytes of the id.
  polled w id participant (none, t) s =
      let (answer, u) = lookup_submission id participant s in
      if ltb (length participant) 8
      then (panicked w, t, s)
      else (answered (submission_json w answer), t, u)

  -- handleGetSubmission
  unfoldable pub handle_get_submission :
      Poll → Option Identity → Writer → Store → Session → Handled × Store × Session
  handle_get_submission p none w t s =
      if is_empty p.submission_id
      then (answered (write_json w 400 (json_error (codes "missing submission id"))), t, s)
      else (answered (unauthorized_json w), t, s)
  handle_get_submission p (some visitor) w t s =
      if is_empty p.submission_id
      then (answered (write_json w 400 (json_error (codes "missing submission id"))), t, s)
      else polled w p.submission_id visitor.participant_id
          (allow_poll K visitor.participant_id poll_rate p.now p.redis_clock p.outcome t) s

module _ (mac : Bytes → Bytes → Bytes) (sha : Bytes → Bytes) (K : KeyStore) {Network Ip : Type 0}
    (parse_ip : Bytes → Option Ip) (split_host : Bytes → Option Bytes)
    (contains : Network → Ip → Bool) (cfg : Config Network) where
  open K use {Store}

  -- handleCreateSubmission
  unfoldable pub handle_create_submission :
      Submit → Option Identity → Writer → Store → World → Response × Store × World
  handle_create_submission q none w t v = (unauthorized_json w, t, v)
  handle_create_submission q (some visitor) w t v =
      let of_visitor : Submit = record q {
        participant = visitor.participant_id;
        client_ip = extract_client_ip parse_ip split_host contains cfg q.request;
      } in
      let (answer, u, z) = create_submission mac sha (new_service cfg) K of_visitor t v in
      (created_json w answer, u, z)
