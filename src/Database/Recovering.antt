-- ===== src/Database/Recovering.antt =====
-- internal/database/database.go, RecoverStaleSubmission with a driver that serves it.
use model_lib.Base.{
  ℕ, ◌<◌, ◌==◌, ◌≡◌, refl, arith, true, false, leb, Bytes, count_where, update_where,
  count_where-le, count-update_eq, All-intro,
}
use model_lib.Database.{Tables, ok, statement, begin, commit, transaction}
use model_lib.Database.Change.{with_rows}
use model_lib.Database.Lifecycle.{recover_stale_submission}
use model_lib.Database.Serving.{served_session}
use model_lib.Database.Statements.{has_id, stale_with_id, set_queued, with_event}

-- The rows of `id` that are running since before the given time are queued again, with a new event.
abbrev pub requeued : Bytes → ℕ → ℕ → Tables → Tables
requeued id before now t =
    with_event id now
      (with_rows t (update_where (stale_with_id id before) (set_queued now) t.submissions))

-- If the driver serves the call and a row of the given id is running since before the given time,
-- RecoverStaleSubmission answers that it recovered, and it has committed the rows of that id that
-- are running since before that time as queued, together with a new outbox event.
pub recover_stale_submission-served :
    (id : Bytes) (before now : ℕ) (t work : Tables)
    → 0 < count_where (stale_with_id id before) t.submissions
    → recover_stale_submission id before (served_session t work now)
      ≡ (ok true, served_session (requeued id before now t) (requeued id before now t) now)
unfolding recover_stale_submission transaction begin statement commit
recover_stale_submission-served id before now t work stale =
    let some_rows : (count_where (stale_with_id id before) t.submissions == 0) ≡ false =
      ground arith in
    rw some_rows (rw still_there refl)
  where
    still_there :
        leb 1 (
          count_where
            (has_id id)
            (update_where (stale_with_id id before) (set_queued now) t.submissions))
        ≡ true
    still_there =
        let few =
          count_where-le (stale_with_id id before) (has_id id) t.submissions
            (λ x e. ground arith) in
        let same =
          count-update_eq (has_id id) (stale_with_id id before) (set_queued now) t.submissions
            (All-intro _ t.submissions (λ r h. refl)) in
        ground (arith, few, same, stale)
