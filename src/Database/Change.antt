-- ===== src/Database/Change.antt =====
-- What the calls of internal/database/database.go may do to the committed tables: the abstract
-- machine that Database/Refines shows them to implement.
use model_lib.Base.{
  ℕ, ◌<◌, ◌≡◌, true, some, List, [], ◌∷◌, ◌++◌, Bytes, count_where, update_where, find_where,
}
use model_lib.Base.Int.{ℤ, pos_part}
use model_lib.Database.{queued, SubmissionRow, ParticipantRow, Tables}
use model_lib.Database.Statements.{
  has_id, active, queued_of, running_of, queued_with_id, processing_with_id, stale_with_id,
  active_with_id, admissible, with_event, set_processing, set_finished, set_queued,
  set_internal_error, RunResult,
}

-- QUEUE_MAX_DEPTH, MAX_QUEUED_PER_PARTICIPANT and MAX_RUNNING_PER_PARTICIPANT.
pub record Limits : Type 0 where
  pub max_active : ℤ
  pub max_queued : ℤ
  pub max_running : ℤ

abbrev pub with_rows : Tables → List SubmissionRow → Tables
with_rows t rows = record t { submissions = rows }

pub data Change (lim : Limits) (t u : Tables) : Type 0 where
  unchanged : u ≡ t → Change lim t u
  created :
      (r : SubmissionRow) (now : ℕ)
      → r.status ≡ queued
      → count_where active t.submissions < pos_part lim.max_active
      → count_where (queued_of r.participant_id) t.submissions < pos_part lim.max_queued
      → admissible r t ≡ true
      → u ≡ with_event r.id now (with_rows t (t.submissions ++ r ∷ []))
      → Change lim t u
  started :
      (id : Bytes) (r : SubmissionRow) (now : ℕ)
      → find_where (has_id id) t.submissions ≡ some r
      → r.status ≡ queued
      → count_where (running_of r.participant_id) t.submissions < pos_part lim.max_running
      → count_where (queued_with_id id) t.submissions ≡ 1
      → u ≡ with_rows t (update_where (queued_with_id id) (set_processing now) t.submissions)
      → Change lim t u
  finished :
      (id : Bytes) (res : RunResult) (now : ℕ)
      → u ≡ with_rows t (update_where (processing_with_id id) (set_finished res now) t.submissions)
      → Change lim t u
  -- a stale row goes back to the queue together with a new event
  recovered :
      (id : Bytes) (before now : ℕ)
      → u
        ≡ with_event id now
            (with_rows t (update_where (stale_with_id id before) (set_queued now) t.submissions))
      → Change lim t u
  failed :
      (id : Bytes) (now : ℕ)
      → u ≡ with_rows t (update_where (active_with_id id) (set_internal_error now) t.submissions)
      → Change lim t u
  -- a visit of a participant
  visited : (rows : List ParticipantRow) → u ≡ record t { participants = rows } → Change lim t u
