-- ===== src/Pipeline/Tests.antt =====
-- The service on a stream in memory: a submission runs to its end, and the theorems at inputs that
-- meet their hypotheses.
use model_lib.Base.{
  ℕ, ◌≡◌, refl, arith, Bool, none, List, [], ◌∷◌, Bytes, codes, str_eq, count_where, update_where,
  find_where, map, false,
}
use model_lib.Base.Int.{pos, leb_ℤ}
use model_lib.Database.{
  queued, Tables, finished, begin, statement, commit, transaction, direct, OutboxEvent,
  enqueue_submission,
}
use model_lib.Database.Serving.{served_session}
use model_lib.Database.Statements.{running_of, admissible}
use model_lib.Identity.Tests.{plain_mac}
use model_lib.RateLimit.Memory.{key_memory}
use model_lib.Submissions.Tests
use model_lib.Submissions.Tests.{
  service, text_part, world, after_upload, path, safe, elsewhere, accepted, no_keys, uploads,
}
use model_lib.Pipeline.Lifetime.{LifeFacts, process_one-create_submission}
use model_lib.Database.Change.{Limits}
use model_lib.Database.Quota.{WithinLimits-nil}
use model_lib.Database.Calls.{perform, session_of}
use model_lib.Database.Lifecycle.{
  create_submission_queued, create_locked, try_start_submission, start_locked, start_queued,
  finish_submission_conditional, set_internal_error,
}
use model_lib.Database.Participants.{upsert, upsert_participant}
use model_lib.Database.Outbox.{
  first_due, backoff_for, process_next_outbox, process_claimed, claim_next, settle,
}
use model_lib.Queue.{
  command, enqueue, ack, parse_or_discard, claim, claim_stale, string_field, JobItem, Client,
}
use model_lib.Queue.Memory.{Memory, memory}
use model_lib.Worker.{idle, work_done, advance, advance_times, process_one, deliver, next_job}
use model_lib.Pipeline.Starts.{Settled, try_start_submission-Settled}
use model_lib.Pipeline.Transport.{JobFacts, next_job-JobFacts, Handed, deliver-Handed}
use model_lib.Pipeline.System.{
  System, Sound, Action, Moment, submit, visit, dispatch, take_job, go_on, step, run_all,
}
use model_lib.Pipeline.NoLoss.{run_all-Sound}

abbrev alice : Bytes
alice = codes "alice"

abbrev limits : Limits
limits = record { max_active = pos 500; max_queued = pos 3; max_running = pos 1 }

abbrev no_rows : Tables
no_rows = record { participants = []; submissions = []; outbox = []; next_outbox_id = 1 }

abbrev no_entries : Memory
no_entries = record { next = 0; cursor = 0; entries = λ id. none }

abbrev at_rest : System memory
at_rest = record { tables = no_rows; server = no_entries; pcs = λ w. idle }

at_rest-Sound : Sound memory limits at_rest
unfolding count_where
at_rest-Sound = record {
  within = WithinLimits-nil limits;
  events = record { distinct = λ k. omega arith; below = λ k h. refl };
  known = λ w k h. cc;
  named = λ w j f h. cc;
  covered = λ id q. absurd (omega arith);
}

abbrev at : ℕ → Action → Action × Moment
at now a = (a, record { database_script = []; queue_script = []; now = now })

abbrev busy_day : List (Action × Moment)
busy_day =
    at 1 (visit alice)
    ∷ at 2 (submit (codes "s") alice [] (codes "k") 5 (codes "00"))
    ∷ at 3 (dispatch 1000 (λ k. Bool.false) (codes "timeout"))
    ∷ at 4 (take_job 0 1)
    ∷ at 5 (go_on 0 work_done)
    ∷ at 6 (go_on 0 work_done)
    ∷ at 7 (go_on 0 work_done)
    ∷ at 8 (go_on 0 work_done)
    ∷ []

sql : Unit {0}
unfolding begin statement commit transaction direct admissible count_where update_where find_where
    str_eq
sql = tt

calls : Unit {0}
unfolding sql create_submission_queued create_locked try_start_submission start_locked start_queued
    finish_submission_conditional set_internal_error upsert upsert_participant perform
    process_next_outbox process_claimed claim_next settle first_due backoff_for command enqueue ack
    parse_or_discard claim claim_stale string_field deliver next_job advance advance_times
    process_one step run_all
calls = tt

busy_day_ends :
    map (λ r. r.status) (run_all memory limits busy_day at_rest).tables.submissions ≡ finished ∷ []
unfolding calls
busy_day_ends = refl

run_all-Sound_example : Sound memory limits (run_all memory limits busy_day at_rest)
run_all-Sound_example = run_all-Sound memory limits busy_day at_rest at_rest-Sound

abbrev one_job : JobItem
one_job = record { stream_id = 0 ∷ []; submission_id = codes "s"; participant_id = alice }

abbrev one_event : OutboxEvent
one_event = record {
  id = 1;
  submission_id = codes "s";
  participant_id = alice;
  event_type = enqueue_submission;
  attempt_count = 0;
}

abbrev no_client : Client memory
no_client = record { server = no_entries; script = [] }

try_start_submission-Settled_example :
    Settled (codes "s") (try_start_submission (codes "s") (pos 1) (session_of no_rows [] 1))
try_start_submission-Settled_example =
    try_start_submission-Settled (codes "s") (pos 1) (session_of no_rows [] 1)
      (at_rest-Sound.within.keys (codes "s"))

next_job-JobFacts_example : JobFacts memory no_entries (next_job memory 1 no_client)
next_job-JobFacts_example = next_job-JobFacts memory 1 no_client

deliver-Handed_example :
    Handed memory one_event no_entries (deliver memory (codes "timeout") one_event no_client)
deliver-Handed_example = deliver-Handed memory (codes "timeout") one_event no_client

abbrev uploaded_job : JobItem
uploaded_job = record {
  stream_id = codes "1-0";
  submission_id = codes "id";
  participant_id = codes "p";
}

nothing_runs :
    leb_ℤ (pos 1) (
      pos (
        count_where
          (running_of (Tests.submit (text_part ∷ [])).participant)
          after_upload.db.committed.submissions))
    ≡ false
unfolding uploads count_where str_eq
nothing_runs = refl

process_one-create_submission_example :
    LifeFacts memory
      (λ b. b)
      work_done
      uploaded_job
      no_client
      (Tests.submit (text_part ∷ []))
      path
      world
      after_upload
      9
      (record { submission_id = codes "id"; status = queued })
      (process_one memory
        (pos 1)
        work_done
        uploaded_job
        (served_session after_upload.db.committed no_rows 9)
        no_client)
process_one-create_submission_example =
    process_one-create_submission memory (pos 1) work_done uploaded_job no_client plain_mac (λ b. b)
      service (Tests.submit (text_part ∷ [])) path world 9
      (record { submission_id = codes "id"; status = queued }) key_memory no_keys no_rows safe
      ((refl, refl), tt) (elsewhere, tt) accepted refl nothing_runs
