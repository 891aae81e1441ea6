-- ===== src/Worker.antt =====
-- cmd/mock-worker/main.go. `processOne` is a program counter machine: one transition for each call
-- of the database or the queue, and one for the wait, so that the workers of a system interleave.
pub mod Finishing
pub mod Completing
use model_lib.Base.{
  ℕ, zero, suc, Bool, true, false, Option, none, some, List, [], ◌∷◌, Bytes, codes, if◌then◌else◌,
}
use model_lib.Base.Int.{ℤ, pos}
use model_lib.Database.{Session, Result, StartResult, started, quota_busy, OutboxEvent}
use model_lib.Database
use model_lib.Database.Statements.{RunResult}
use model_lib.Database.Lifecycle.{
  try_start_submission, finish_submission_conditional, set_internal_error, recover_stale_submission,
}
use model_lib.Database.Participants.{list_stale_processing}
use model_lib.Database.Outbox.{process_next_outbox}
use model_lib.Queue
use model_lib.Queue.{StreamServer, JobItem, Client, Reply, no_job}

pub data Pc : Type 0 where
  idle : Pc
  starting working failing finishing : JobItem → Pc
  acking : Bytes → Pc

-- The `select` on the hard deadline and the work's timer.
pub data Timer : Type 0 where
  work_done deadline_passed : Timer

-- The arguments of FinishSubmissionConditional.
abbrev pub mock_result : RunResult
mock_result = record {
  compile_success = true;
  compile_stderr = [];
  stdout = codes "Phase 1 mock runner: source accepted\n";
  stderr = [];
  exit_code = pos 0;
  truncated = false;
}

-- The error test and the `switch` after TryStartSubmission.
abbrev pub on_start : JobItem → Result StartResult → Pc
on_start job (Result.ok started) = working job
on_start job (Result.ok quota_busy) = idle
on_start job (Result.ok _) = acking job.stream_id
on_start job (Result.err e) = idle

abbrev pub on_timer : JobItem → Timer → Pc
on_timer job work_done = finishing job
on_timer job deadline_passed = failing job

abbrev pub on_finish : JobItem → Result Bool → Pc
on_finish job (Result.ok true) = acking job.stream_id
on_finish job (Result.ok false) = idle
on_finish job (Result.err e) = idle

module _ (R : StreamServer) where
  -- A worker between two calls, with what it shares.
  pub record Worker : Type 0 where
    pub pc : Pc
    pub session : Session
    pub client : Client R

  abbrev after_start : JobItem → Result StartResult × Session → Client R → Worker
  after_start job (r, s) c = record { pc = on_start job r; session = s; client = c }

  abbrev after_finish : JobItem → Result Bool × Session → Client R → Worker
  after_finish job (r, s) c = record { pc = on_finish job r; session = s; client = c }

  -- The error of SetInternalError is dropped, and the entry acknowledged in any case.
  abbrev after_failing : JobItem → Result (Unit {0}) × Session → Client R → Worker
  after_failing job (r, s) c = record { pc = acking job.stream_id; session = s; client = c }

  abbrev after_ack : Session → Reply (Unit {0}) × Client R → Worker
  after_ack s (r, c) = record { pc = idle; session = s; client = c }

  -- One transition of processOne, with cfg.MaxRunningPerParticipant.
  unfoldable pub advance : ℤ → Timer → Pc → Session → Client R → Worker
  advance max_running timer idle s c = record { pc = idle; session = s; client = c }
  advance max_running timer (starting job) s c =
      after_start job (try_start_submission job.submission_id max_running s) c
  advance max_running timer (working job) s c = record {
    pc = on_timer job timer;
    session = s;
    client = c;
  }
  advance max_running timer (failing job) s c =
      after_failing job (set_internal_error job.submission_id s) c
  advance max_running timer (finishing job) s c =
      after_finish job (finish_submission_conditional job.submission_id mock_result s) c
  advance max_running timer (acking id) s c = after_ack s (Queue.ack R id c)

  unfoldable pub advance_times : ℕ → ℤ → Timer → Worker → Worker
  advance_times zero max_running timer w = w
  advance_times (suc n) max_running timer w =
      advance_times n max_running timer (advance max_running timer w.pc w.session w.client)

  -- processOne: four transitions are its longest way.
  unfoldable pub process_one : ℤ → Timer → JobItem → Session → Client R → Worker
  unfolding advance_times advance
  process_one max_running timer job s c =
      advance_times 4 max_running timer (record { pc = starting job; session = s; client = c })

  abbrev pub or_claim : Reply JobItem × Client R → Reply JobItem × Client R
  or_claim (Reply.err no_job, c) = Queue.claim R c
  or_claim (r, c) = (r, c)

  -- The head of consumeLoop: stale deliveries before new ones.
  unfoldable pub next_job : ℕ → Client R → Reply JobItem × Client R
  next_job stale_after c = or_claim (Queue.claim_stale R stale_after c)

  abbrev pub on_claim : Reply JobItem → Pc
  on_claim (Reply.ok job) = starting job
  on_claim (Reply.err e) = idle

  abbrev pub delivery : Bytes → Reply Bytes × Client R → Option Bytes × Client R
  delivery message (Reply.ok id, c) = (none, c)
  delivery message (Reply.err e, c) = (some message, c)

  -- The function that outboxLoop hands to ProcessNextOutbox; `message` is the text of its error.
  unfoldable pub deliver : Bytes → OutboxEvent → Client R → Option Bytes × Client R
  deliver message e c = delivery message (Queue.enqueue R e.submission_id e.participant_id c)

  -- The inner loop of outboxLoop: it ends at an error, or when no event is due.
  unfoldable pub dispatch_rounds :
      ℕ → ℕ → (ℕ → Bool) → Bytes → Session → Client R → Session × Client R
  dispatch_rounds zero max_backoff locked message s c = (s, c)
  dispatch_rounds (suc n) max_backoff locked message s c =
      let p = process_next_outbox (deliver message) max_backoff locked s c in
      let rest = dispatch_rounds n max_backoff locked message p.session p.world in
      elim p.error [
        | some e ↦ (p.session, p.world)
        | none ↦ if p.processed then rest else (p.session, p.world)
      ]

  -- One tick of outboxLoop.
  abbrev pub outbox_tick : ℕ → (ℕ → Bool) → Bytes → Session → Client R → Session × Client R
  outbox_tick = dispatch_rounds 100

-- The loop of recoveryLoop over the ids; an error is logged, and the next id tried.
unfoldable pub recover_each : ℕ → List Bytes → Session → Session
recover_each before [] s = s
recover_each before (id ∷ rest) s =
    recover_each before rest (recover_stale_submission id before s).1

abbrev after_list : ℕ → Result (List Bytes) × Session → Session
after_list before (Result.ok ids, s) = recover_each before ids s
after_list before (Result.err e, s) = s

-- One tick of recoveryLoop, with time.Now() at the two places that read it.
unfoldable pub recovery_tick : ℕ → ℕ → Session → Session
recovery_tick listed_before before s = after_list before (list_stale_processing listed_before 100 s)
