-- ===== src/Database/Calls.antt =====
-- The calls that the API and the worker make on the database, in any order and with any answers of
-- the driver.
use model_lib.Base.{
  ℕ, ◌≡◌, refl, arith, Bool, Option-cases, inl, inr, find_where, Option, some, List, [], ◌∷◌, Bytes,
}
use model_lib.Database.{Tables, Session, Outcome, ParticipantRow, OutboxEvent}
use model_lib.Database.Statements.{RunResult}
use model_lib.Database.Lifecycle
use model_lib.Database.Lifecycle.{
  create_submission_queued, try_start_submission, finish_submission_conditional,
  recover_stale_submission,
}
use model_lib.Database.Participants
use model_lib.Database.Participants.{upsert, participant_is}
use model_lib.Database.Outbox.{process_next_outbox}
use model_lib.Database.Outbox.Steps.{submissions-process_next_outbox}
use model_lib.Database.Change.{Limits, visited}
use model_lib.Database.Quota.{WithinLimits, Change-WithinLimits}
use model_lib.Database.Rules.{direct_last}
use model_lib.Database.Refines.{
  create_submission_queued-Changes, try_start_submission-Changes,
  finish_submission_conditional-Changes, recover_stale_submission-Changes,
  set_internal_error-Changes,
}
use model_lib.Database.Placing.{Changes, no_change}

-- One call, with its arguments and what the delivery of an event answers.
pub data Call : Type 0 where
  upsert_participant : (id : Bytes) → Call
  create : (id participant filename key : Bytes) (size : ℕ) (sha : Bytes) → Call
  try_start : (id : Bytes) → Call
  finish : (id : Bytes) (res : RunResult) → Call
  recover_stale : (id : Bytes) (stale_before : ℕ) → Call
  set_internal_error : (id : Bytes) → Call
  dispatch : (max_backoff : ℕ) (locked : ℕ → Bool) (failure : Option Bytes) → Call

abbrev deliver_as : Option Bytes → OutboxEvent → Unit {0} → Option Bytes × Unit {0}
deliver_as failure e w = (failure, w)

-- The committed tables after one call.
unfoldable pub perform : Limits → Call → Session → Tables
perform lim (upsert_participant id) s = (Participants.upsert_participant id s).1.committed
perform lim (create id participant filename key size sha) s =
    (create_submission_queued id participant filename key size sha lim.max_active lim.max_queued
      s).1.committed
perform lim (try_start id) s = (try_start_submission id lim.max_running s).1.committed
perform lim (finish id res) s = (finish_submission_conditional id res s).1.committed
perform lim (recover_stale id before) s = (recover_stale_submission id before s).1.committed
perform lim (set_internal_error id) s = (Lifecycle.set_internal_error id s).1.committed
perform lim (dispatch max_backoff locked failure) s =
    (process_next_outbox (deliver_as failure) max_backoff locked s tt).session.committed

-- A call, the answers of the driver, and the time.
pub record Request : Type 0 where
  pub call : Call
  pub script : List Outcome
  pub now : ℕ

abbrev pub session_of : Tables → List Outcome → ℕ → Session
session_of t script now = record { committed = t; work = t; script = script; now = now }

unfoldable pub run : Limits → Tables → List Request → Tables
run lim t [] = t
run lim t (q ∷ rest) = run lim (perform lim q.call (session_of t q.script q.now)) rest

pub upsert-rows :
    (id : Bytes) (now : ℕ) (t u : Tables) (p : ParticipantRow)
    → upsert id now t ≡ some (u, p)
    → u ≡ record t { participants = u.participants }
unfolding upsert
upsert-rows id now t u p made =
    elim (Option-cases (find_where (participant_is id) t.participants)) [
      | inl new ↦ ground arith
      | inr (q, known) ↦ ground arith
    ]

pub upsert_participant-Changes :
    (lim : Limits) (id : Bytes) (s : Session)
    → Changes lim s.committed (Participants.upsert_participant id s)
unfolding Participants.upsert_participant
upsert_participant-Changes lim id s =
    direct_last (Changes lim s.committed) s (upsert id) (λ e. no_change refl)
      λ t p r made. record {
        change = visited t.participants (upsert-rows id s.now s.committed t p made);
      }

perform-WithinLimits :
    (lim : Limits) (c : Call) (s : Session)
    → WithinLimits lim s.committed.submissions
    → WithinLimits lim (perform lim c s).submissions
unfolding perform
perform-WithinLimits lim (upsert_participant id) s w =
    Change-WithinLimits w (upsert_participant-Changes lim id s).change
perform-WithinLimits lim (create id participant filename key size sha) s w =
    Change-WithinLimits w
      (create_submission_queued-Changes lim id participant filename key size sha s).change
perform-WithinLimits lim (try_start id) s w =
    Change-WithinLimits w (try_start_submission-Changes lim id s).change
perform-WithinLimits lim (finish id res) s w =
    Change-WithinLimits w (finish_submission_conditional-Changes lim id res s).change
perform-WithinLimits lim (recover_stale id before) s w =
    Change-WithinLimits w (recover_stale_submission-Changes lim id before s).change
perform-WithinLimits lim (set_internal_error id) s w =
    Change-WithinLimits w (set_internal_error-Changes lim id s).change
perform-WithinLimits lim (dispatch max_backoff locked failure) s w =
    rw (submissions-process_next_outbox (deliver_as failure) max_backoff locked s tt) w

-- From tables within the limits, any sequence of the seven calls that the API and the worker make
-- (UpsertParticipant, CreateSubmissionQueued, TryStartSubmission, FinishSubmissionConditional,
-- RecoverStaleSubmission, SetInternalError and ProcessNextOutbox), with any answers of the driver,
-- keeps them: ids stay unique, at most max_active rows are active, at most max_running rows of a
-- participant are running, and at most max_queued + max_running rows of a participant are active.
-- StartSubmissionConditional, RecoverToQueued and CreateSubmission, which the service does not
-- call, are not among them.
pub run-WithinLimits :
    (lim : Limits) (t : Tables) (requests : List Request)
    → WithinLimits lim t.submissions
    → WithinLimits lim (run lim t requests).submissions
unfolding run
run-WithinLimits lim t [] w = w
run-WithinLimits lim t (q ∷ rest) w =
    run-WithinLimits lim (perform lim q.call (session_of t q.script q.now)) rest
      (perform-WithinLimits lim q.call (session_of t q.script q.now) w)
