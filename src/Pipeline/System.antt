-- ===== src/Pipeline/System.antt =====
-- The whole service as interleaved steps: the API's calls, one round of the dispatcher
-- (cmd/mock-worker outboxLoop), of the recovery loop and of any number of workers.
use model_lib.Base.{
  ℕ, ◌≡◌, ◌<◌, ◌⊎◌, Bool, true, false, if◌then◌else◌, ◌==◌, some, List, [], ◌∷◌, Bytes, str_eq,
}
use model_lib.Database.{Tables, Session, Outcome}
use model_lib.Database.Calls.{create, upsert_participant, recover_stale, perform, session_of}
use model_lib.Database.Change.{Limits}
use model_lib.Database.Outbox.{Processed, process_next_outbox}
use model_lib.Database.Quota.{WithinLimits}
use model_lib.Queue.{
  StreamServer, Client, Fields, JobItem, Reply, string_field, submission_key, participant_key,
}
use model_lib.Worker
use model_lib.Worker.{
  Pc, idle, starting, working, failing, finishing, acking, Timer, advance, deliver, next_job,
  on_claim,
}
use model_lib.Pipeline.{queued_count, pending_count, EventIds}

-- What happens next, and with which arguments; workers have numbers.
pub data Action : Type 0 where
  submit : (id participant filename key : Bytes) (size : ℕ) (sha : Bytes) → Action
  visit : (participant : Bytes) → Action
  recover : (id : Bytes) (stale_before : ℕ) → Action
  dispatch : (max_backoff : ℕ) (locked : ℕ → Bool) (message : Bytes) → Action
  take_job : (w stale_after : ℕ) → Action
  go_on : (w : ℕ) (timer : Timer) → Action
  crash : (w : ℕ) → Action

-- The answers of the two servers during a step, and the time.
pub record Moment : Type 0 where
  pub database_script : List Outcome
  pub queue_script : List Outcome
  pub now : ℕ

-- The deliveries that a worker has in hand, and those that it will acknowledge or not touch again.
abbrev pub holds : Pc → Bytes → Bool
holds idle k = false
holds (starting j) k = str_eq j.stream_id k
holds (working j) k = str_eq j.stream_id k
holds (failing j) k = str_eq j.stream_id k
holds (finishing j) k = str_eq j.stream_id k
holds (acking id) k = str_eq id k

abbrev pub bound : Pc → Bytes → Bool
bound (starting j) k = false
bound pc k = holds pc k

abbrev pub set_pc : ℕ → Pc → (ℕ → Pc) → ℕ → Pc
set_pc w pc pcs v = if v == w then pc else pcs v

module _ (R : StreamServer) where
  open R use {Server, live, issued}

  pub record System : Type 0 where
    pub tables : Tables
    pub server : Server
    pub pcs : ℕ → Pc

  abbrev pub session_for : System → Moment → Session
  session_for x m = session_of x.tables m.database_script m.now

  abbrev pub client_for : System → Moment → Client R
  client_for x m = record { server = x.server; script = m.queue_script }

  abbrev pub after_call : Tables → System → System
  after_call t x = record x { tables = t }

  abbrev pub after_dispatch : Processed (Client R) → System → System
  after_dispatch p x = record x { tables = p.session.committed; server = p.world.server }

  abbrev pub after_claim : ℕ → Reply JobItem × Client R → System → System
  after_claim w (r, c) x = record x { server = c.server; pcs = set_pc w (on_claim R r) x.pcs }

  abbrev pub after_advance : ℕ → Worker.Worker R → System → System
  after_advance w y x = record {
    tables = y.session.committed;
    server = y.client.server;
    pcs = set_pc w y.pc x.pcs;
  }

  -- A worker asks for a job only between two jobs.
  abbrev pub if_idle : Pc → System → System → System
  if_idle idle x y = x
  if_idle _ x y = y

  unfoldable pub step : Limits → Action → Moment → System → System
  step lim (submit id participant filename key size sha) m x =
      after_call (perform lim (create id participant filename key size sha) (session_for x m)) x
  step lim (visit participant) m x =
      after_call (perform lim (upsert_participant participant) (session_for x m)) x
  step lim (recover id before) m x =
      after_call (perform lim (recover_stale id before) (session_for x m)) x
  step lim (dispatch max_backoff locked message) m x =
      after_dispatch
        (process_next_outbox (deliver R message) max_backoff locked (session_for x m)
          (client_for x m))
        x
  step lim (take_job w stale_after) m x =
      if_idle (x.pcs w) (after_claim w (next_job R stale_after (client_for x m)) x) x
  step lim (go_on w timer) m x =
      after_advance w (advance R lim.max_running timer (x.pcs w) (session_for x m) (client_for x m))
        x
  step lim (crash w) m x = record x { pcs = set_pc w idle x.pcs }

  unfoldable pub run_all : Limits → List (Action × Moment) → System → System
  run_all lim [] x = x
  run_all lim ((a, m) ∷ rest) x = run_all lim rest (step lim a m x)

  -- An entry for `id` that the group still hands out, and that no worker is about to acknowledge.
  pub record Waiting (id : Bytes) (x : System) : Type 0 where
    pub entry : Bytes
    pub fields : Fields
    pub participant : Bytes
    pub there : live x.server entry ≡ some fields
    pub names : string_field fields submission_key ≡ some id
    pub complete : string_field fields participant_key ≡ some participant
    pub free : (w : ℕ) → bound (x.pcs w) entry ≡ false

  -- A way for `id` to reach a worker: an undelivered event, or a delivery.
  abbrev pub Covered : Bytes → System → Type 0
  Covered id x = (0 < pending_count id x.tables) ⊎ Waiting id x

  pub record Sound (lim : Limits) (x : System) : Type 0 where
    pub within : WithinLimits lim x.tables.submissions
    pub events : EventIds x.tables
    pub known : (w : ℕ) (k : Bytes) → holds (x.pcs w) k ≡ true → issued x.server k ≡ true
    pub named :
        (w : ℕ) (j : JobItem) (f : Fields)
        → x.pcs w ≡ starting j
        → live x.server j.stream_id ≡ some f
        → string_field f submission_key ≡ some j.submission_id
    pub covered : (id : Bytes) → 0 < queued_count id x.tables → Covered id x
