-- ===== src/Database.antt =====
-- internal/database/database.go and migrations/001_init.sql: the tables, and a database session
-- that runs the statements of one call in order. What PostgreSQL and the driver decide is an
-- argument, the script: the outcome of each call of the driver, in the order of the calls.
pub mod Statements
pub mod Lifecycle
pub mod Change
pub mod Quota
pub mod Rules
pub mod Placing
pub mod Refines
pub mod Effects
pub mod Recovering
pub mod Creating
pub mod Reading
pub mod Growing
pub mod Serving
pub mod Found
pub mod Running
pub mod Outbox
pub mod Participants
pub mod Connection
pub mod Executing
pub mod Migrating
pub mod Calls
pub mod Tests
use model_lib.Base.{ℕ, Bool, Option, none, some, List, [], ◌∷◌, Bytes}
use model_lib.Base.Int.{ℤ}

-- The CHECK constraint on submissions.status.
pub data Status : Type 0 where
  queued mock_processing finished internal_error : Status

pub record ParticipantRow : Type 0 where
  pub id : Bytes
  pub created_at : ℕ
  pub last_seen_at : ℕ

-- Times are microseconds since the epoch, PostgreSQL's precision.
pub record SubmissionRow : Type 0 where
  pub id : Bytes
  pub participant_id : Bytes
  pub original_filename : Option Bytes
  pub source_storage_key : Bytes
  pub source_size : ℕ
  pub source_sha256 : Bytes
  pub status : Status
  pub compile_success : Option Bool
  pub compile_stderr : Option Bytes
  pub exit_code : Option ℤ
  pub stdout : Option Bytes
  pub stderr : Option Bytes
  pub result_truncated : Bool
  pub created_at : ℕ
  pub updated_at : ℕ
  pub started_at : Option ℕ
  pub finished_at : Option ℕ

-- event_type has one value, 'enqueue_submission', by its CHECK constraint.
pub data EventType : Type 0 where
  enqueue_submission : EventType

pub record OutboxRow : Type 0 where
  pub id : ℕ
  pub submission_id : Bytes
  pub event_type : EventType
  pub created_at : ℕ
  pub available_at : ℕ
  pub delivered_at : Option ℕ
  pub attempt_count : ℕ
  pub last_error : Option Bytes

-- The row that the outbox query returns.
pub record OutboxEvent : Type 0 where
  pub id : ℕ
  pub submission_id : Bytes
  pub participant_id : Bytes
  pub event_type : EventType
  pub attempt_count : ℕ

-- `next_outbox_id` is the BIGSERIAL sequence of submission_outbox.
pub record Tables : Type 0 where
  pub participants : List ParticipantRow
  pub submissions : List SubmissionRow
  pub outbox : List OutboxRow
  pub next_outbox_id : ℕ

pub data StartResult : Type 0 where
  started quota_busy duplicate_or_terminal not_found : StartResult

-- `sql_failed` is an error of the driver, `constraint_violated` a refused INSERT.
pub data DbError : Type 0 where
  global_capacity participant_queued_quota invalid_queue_limits invalid_max_running : DbError
  sql_failed constraint_violated : DbError

pub data Result (A : Type 0) : Type 0 where
  ok : A → Result A
  err : DbError → Result A

-- One call of the driver: answered, refused before it had an effect, or carried out with the
-- answer lost, so that the caller sees an error.
pub data Outcome : Type 0 where
  served refused lost : Outcome

-- `work` is what the open transaction sees: the committed tables with its own writes.
pub record Session : Type 0 where
  pub committed : Tables
  pub work : Tables
  pub script : List Outcome
  pub now : ℕ

abbrev pub Sql : Type 0 → Type 0
Sql A = Session → Result A × Session

abbrev continue : {A B : Type 0} → Result A → Session → (A → Sql B) → Result B × Session
continue (ok a) s k = k a s
continue (err e) s k = (err e, s)

infixl 5 ◌>>=◌ ◌>>◌
abbrev pub ◌>>=◌ : {A B : Type 0} → Sql A → (A → Sql B) → Sql B
◌>>=◌ m k s = continue (m s).0 (m s).1 k

abbrev pub ◌>>◌ : {B : Type 0} → Sql Unit → Sql B → Sql B
m >> k = m >>= λ _. k

abbrev pub return : {A : Type 0} → A → Sql A
return a s = (ok a, s)

abbrev pub fail : {A : Type 0} → DbError → Sql A
fail e s = (err e, s)

-- With an empty script every call is answered.
abbrev pub outcome : List Outcome → Outcome
outcome [] = served
outcome (o ∷ rest) = o

abbrev pub later : List Outcome → List Outcome
later [] = []
later (o ∷ rest) = rest

abbrev consume : Session → Session
consume s = record s { script = later s.script }

abbrev begin_by : Outcome → Sql Unit
begin_by served s = (ok tt, record s { work = s.committed })
begin_by _ s = (err sql_failed, s)

-- db.BeginTx
unfoldable pub begin : Sql Unit
begin s = begin_by (outcome s.script) (consume s)

abbrev statement_by : {A : Type 0} → Outcome → Option (Tables × A) → Sql A
statement_by served (some (t, a)) s = (ok a, record s { work = t })
statement_by served none s = (err constraint_violated, s)
statement_by _ _ s = (err sql_failed, s)

-- One statement of the open transaction; `none` is a violated constraint.
unfoldable pub statement : {A : Type 0} → (ℕ → Tables → Option (Tables × A)) → Sql A
statement f s = statement_by (outcome s.script) (f s.now s.work) (consume s)

abbrev commit_by : Outcome → Sql Unit
commit_by served s = (ok tt, record s { committed = s.work })
commit_by refused s = (err sql_failed, s)
commit_by lost s = (err sql_failed, record s { committed = s.work })

-- tx.Commit
unfoldable pub commit : Sql Unit
commit s = commit_by (outcome s.script) (consume s)

abbrev pub rolled_back : Session → Session
rolled_back s = record s { work = s.committed }

-- A function body under `defer tx.Rollback()`: what was not committed is forgotten.
unfoldable pub transaction : {A : Type 0} → Sql A → Sql A
transaction body s = ((body s).0, rolled_back (body s).1)

abbrev direct_by : {A : Type 0} → Outcome → Option (Tables × A) → Sql A
direct_by served (some (t, a)) s = (ok a, record s { committed = t; work = t })
direct_by lost (some (t, a)) s = (err sql_failed, record s { committed = t; work = t })
direct_by served none s = (err constraint_violated, s)
direct_by _ _ s = (err sql_failed, s)

-- One statement outside any transaction, which commits by itself.
unfoldable pub direct : {A : Type 0} → (ℕ → Tables → Option (Tables × A)) → Sql A
direct f s = direct_by (outcome s.script) (f s.now s.committed) (consume s)
