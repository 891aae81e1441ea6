-- ===== src/Database/Tests.antt =====
-- Runs of the database calls on small tables, and the theorems at inputs that meet their
-- hypotheses.
use model_lib.Base.{
  arith, ℕ, none, List, [], ◌∷◌, Bytes, codes, ◌≡◌, refl, Option, false, count_where, str_eq,
  find_where, update_where, true,
}
use model_lib.Base.Int.{pos}
use model_lib.Database.Connection.{run_migrations, execute_all, execute}
use model_lib.Database.Migrating.{MigratedFacts, run_migrations-MigratedFacts}
use model_lib.Database.{
  Result, SubmissionRow, Tables, Session, Outcome, served, lost, begin, statement, commit,
  transaction, direct, ok, err, quota_busy, duplicate_or_terminal, participant_queued_quota,
  OutboxEvent,
}
use model_lib.Database.Statements.{
  admissible, active_of, running_of, stale_with_id, new_submission, new_event,
}
use model_lib.Database.Serving.{served_session}
use model_lib.Database.Recovering.{requeued, recover_stale_submission-served}
use model_lib.Database.Outbox.Choosing.{IsReady}
use model_lib.Database.Outbox.Progress.{process_next_outbox-served}
use model_lib.Database.Change.{Limits}
use model_lib.Database.Quota.{WithinLimits, WithinLimits-nil}
use model_lib.Database.Lifecycle.{
  create_submission_queued, create_locked, try_start_submission, start_locked, start_queued,
  finish_submission_conditional, recover_stale_submission,
}
use model_lib.Database.Participants.{upsert, upsert_participant}
use model_lib.Database.Outbox.{first_due, backoff_for, process_next_outbox}
use model_lib.Database.Outbox.Dispatching.{Dispatched, process_next_outbox-Dispatched}
use model_lib.Database.Effects.{
  Creates, Starts, Recovers, create_submission_queued-Creates, try_start_submission-Starts,
  recover_stale_submission-Recovers,
}
use model_lib.Database.Calls
use model_lib.Database.Calls.{Call, Request, create, try_start, perform, run, run-WithinLimits}

abbrev alice : Bytes
alice = codes "alice"

abbrev no_rows : Tables
no_rows = record { participants = []; submissions = []; outbox = []; next_outbox_id = 1 }

abbrev limits : Limits
limits = record { max_active = pos 500; max_queued = pos 3; max_running = pos 1 }

abbrev at : ℕ → Call → Request
at now c = record { call = c; script = []; now = now }

abbrev create_as : Bytes → Call
create_as id = create id alice [] id 5 (codes "00")

sql : Unit {0}
unfolding begin statement commit transaction direct admissible count_where update_where find_where
    str_eq
sql = tt

calls : Unit {0}
unfolding sql create_submission_queued create_locked try_start_submission start_locked start_queued
    finish_submission_conditional recover_stale_submission upsert upsert_participant perform run
    process_next_outbox first_due backoff_for
calls = tt

-- Four submissions of one participant with one of them running: the quota refuses a fifth, and a
-- recovered run makes four queued ones.
abbrev busy_history : List Request
busy_history =
    at 1 (Calls.upsert_participant alice)
    ∷ at 2 (create_as (codes "a"))
    ∷ at 3 (try_start (codes "a"))
    ∷ at 4 (create_as (codes "b"))
    ∷ at 5 (create_as (codes "c"))
    ∷ at 6 (create_as (codes "d"))
    ∷ []

abbrev busy : Tables
busy = run limits no_rows busy_history

abbrev on : Tables → List Outcome → Session
on t script = record { committed = t; work = t; script = script; now = 7 }

busy_counts :
    (count_where (active_of alice) busy.submissions ≡ 4)
    × (count_where (running_of alice) busy.submissions ≡ 1)
unfolding calls
busy_counts = (refl, refl)

quota_refuses :
    (create_submission_queued
      (codes "e")
      alice
      []
      (codes "e")
      5
      []
      (pos 500)
      (pos 3)
      (on busy [])).0
    ≡ err participant_queued_quota
unfolding calls
quota_refuses = refl

start_answers :
    ((try_start_submission (codes "b") (pos 1) (on busy [])).0 ≡ ok quota_busy)
    × ((try_start_submission (codes "a") (pos 1) (on busy [])).0 ≡ ok duplicate_or_terminal)
unfolding calls
start_answers = (refl, refl)

run-WithinLimits_example : WithinLimits limits busy.submissions
run-WithinLimits_example = run-WithinLimits limits no_rows busy_history (WithinLimits-nil limits)

abbrev creation : Result SubmissionRow × Session
creation =
    create_submission_queued (codes "e") alice [] (codes "e") 5 [] (pos 500) (pos 3)
      (on busy (served ∷ served ∷ lost ∷ []))

create_submission_queued-Creates_example :
    Creates limits
      (codes "e")
      alice
      []
      (codes "e")
      5
      []
      (on busy (served ∷ served ∷ lost ∷ []))
      creation.0
      creation.1.committed
create_submission_queued-Creates_example =
    create_submission_queued-Creates limits (codes "e") alice [] (codes "e") 5 []
      (on busy (served ∷ served ∷ lost ∷ []))

try_start_submission-Starts_example :
    let x = try_start_submission (codes "b") (pos 1) (on busy []) in
    Starts limits (codes "b") (on busy []) x.0 x.1.committed
try_start_submission-Starts_example = try_start_submission-Starts limits (codes "b") (on busy [])

recover_stale_submission-Recovers_example :
    let x = recover_stale_submission (codes "a") 5 (on busy []) in
    Recovers (codes "a") 5 (on busy []) x.0 x.1.committed
recover_stale_submission-Recovers_example =
    recover_stale_submission-Recovers (codes "a") 5 (on busy [])

-- A receiver that takes every event and notes it.
abbrev note : OutboxEvent → List Bytes → Option Bytes × List Bytes
note e seen = (none, e.submission_id ∷ seen)

process_next_outbox_runs :
    (process_next_outbox note 30_000_000 (λ k. false) (on busy []) []).world ≡ codes "a" ∷ []
unfolding calls
process_next_outbox_runs = refl

process_next_outbox-Dispatched_example :
    Dispatched note 30_000_000
      (λ k. false)
      7
      busy
      []
      (process_next_outbox note 30_000_000 (λ k. false) (on busy []) [])
process_next_outbox-Dispatched_example =
    process_next_outbox-Dispatched note 30_000_000 (λ k. false) (on busy []) []

-- The first run of the busy history is stale at the fifth tick.
one_stale : count_where (stale_with_id (codes "a") 5) busy.submissions ≡ 1
unfolding calls
one_stale = refl

recover_stale_submission-served_example :
    recover_stale_submission (codes "a") 5 (served_session busy busy 7)
    ≡ (ok true, served_session (requeued (codes "a") 5 7 busy) (requeued (codes "a") 5 7 busy) 7)
recover_stale_submission-served_example =
    recover_stale_submission-served (codes "a") 5 7 busy busy (omega (arith, one_stale))

abbrev waiting_row : SubmissionRow
waiting_row = new_submission (codes "s") alice [] (codes "s") 5 [] 3

abbrev waiting : Tables
waiting = record {
  participants = [];
  submissions = waiting_row ∷ [];
  outbox = new_event (codes "s") 3 1 ∷ [];
  next_outbox_id = 2;
}

is_ready : IsReady (λ k. false) 7 waiting (new_event (codes "s") 3 1)
unfolding find_where str_eq
is_ready = record {
  undelivered = refl;
  due = omega arith;
  free = refl;
  row = waiting_row;
  found = refl;
}

process_next_outbox-served_example :
    let p =
      process_next_outbox note 30_000_000 (λ k. false) (served_session waiting waiting 7) [] in
    (p.processed ≡ true) × (p.error ≡ none)
process_next_outbox-served_example =
    process_next_outbox-served note 30_000_000 (λ k. false) 7 waiting waiting [] [] []
      (new_event (codes "s") 3 1) refl is_ready

a_new_database : (run_migrations true served []).0 ≡ true
unfolding run_migrations execute_all execute find_where str_eq
a_new_database = refl

run_migrations-MigratedFacts_example : MigratedFacts true served [] (run_migrations true served [])
run_migrations-MigratedFacts_example = run_migrations-MigratedFacts true served []
