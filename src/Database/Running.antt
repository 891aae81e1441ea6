-- ===== src/Database/Running.antt =====
-- internal/database/database.go: the calls of a run, of a queued submission under the quota, with a
-- driver that serves them.
use model_lib.Database.Found.{find-update, find-update_other, found-count}
use model_lib.Base.{
  ℕ, ◌≡◌, ◌≢◌, refl, ◌∙◌, arith, Bool, true, false, ltb, some, Bytes, find_where-true, find_where,
  count_where, update_where, count_where-le,
}
use model_lib.Base.Int.{ℤ, pos, leb_ℤ}
use model_lib.Database.{
  Tables, SubmissionRow, started, ok, statement, begin, commit, direct, transaction,
}
use model_lib.Database.Change.{with_rows}
use model_lib.Database.Lifecycle.{
  try_start_submission, start_locked, start_queued, finish_submission_conditional,
  set_internal_error,
}
use model_lib.Database.Serving.{served_session, limit-positive}
use model_lib.Database.Statements.{
  has_id, is_queued, running_of, queued_with_id, processing_with_id, active_with_id, set_processing,
  set_finished, RunResult,
}
use model_lib.Database.Statements

module _ (id : Bytes) (max_running : ℤ) (t work : Tables) (now : ℕ) (r : SubmissionRow)
    (found : find_where (has_id id) t.submissions ≡ some r)
    (single : count_where (has_id id) t.submissions ≡ 1) (waits : is_queued r.status ≡ true)
    (room : leb_ℤ max_running (pos (count_where (running_of r.participant_id) t.submissions))
      ≡ false) where
  -- The tables once the submission runs.
  abbrev pub running : Tables
  running = with_rows t (update_where (queued_with_id id) (set_processing now) t.submissions)

  here : has_id id r ≡ true
  here = find_where-true (has_id id) t.submissions r found

  one_queued : count_where (queued_with_id id) t.submissions ≡ 1
  one_queued =
      let few =
        count_where-le (queued_with_id id) (has_id id) t.submissions (λ x e. ground arith) in
      let some_row =
        found-count (has_id id) (queued_with_id id) t.submissions r found (rw (here, waits) refl) in
      omega (arith, few, some_row, single)

  pub try_start_submission-served :
      try_start_submission id max_running (served_session t work now)
      ≡ (ok started, served_session running running now)
  unfolding try_start_submission start_locked start_queued transaction begin statement commit
  try_start_submission-served =
      rw (limit-positive max_running _ room)
        (rw found (rw found (rw waits (rw room (rw one_queued refl)))))

  pub running_row : find_where (has_id id) running.submissions ≡ some (set_processing now r)
  running_row =
      find-update id (queued_with_id id) (set_processing now) (λ x. refl) (λ x e. ground arith)
        t.submissions r found (rw (here, waits) refl)

  running_count :
      (q : SubmissionRow → Bool)
      → q (set_processing now r) ≡ true
      → ltb 0 (count_where q running.submissions) ≡ true
  running_count q hit =
      let one =
        found-count (has_id id) q running.submissions (set_processing now r) running_row hit in
      ground (arith, one)

  -- After FinishSubmissionConditional.
  abbrev pub done : RunResult → Tables
  done res =
      with_rows running
        (update_where (processing_with_id id) (set_finished res now) running.submissions)

  pub finish_submission_conditional-served :
      (res : RunResult)
      → finish_submission_conditional id res (served_session running running now)
        ≡ (ok true, served_session (done res) (done res) now)
  unfolding finish_submission_conditional direct
  finish_submission_conditional-served res =
      rw (running_count (processing_with_id id) (rw here refl)) refl

  pub done_row :
      (res : RunResult)
      → find_where (has_id id) (done res).submissions
        ≡ some (set_finished res now (set_processing now r))
  done_row res =
      find-update id (processing_with_id id) (set_finished res now) (λ x. refl)
        (λ x e. ground arith) running.submissions (set_processing now r) running_row (rw here refl)

  pub done_others :
      (res : RunResult) (k : Bytes)
      → k ≢ id
      → find_where (has_id k) (done res).submissions ≡ find_where (has_id k) t.submissions
  done_others res k other =
      find-update_other id (processing_with_id id) (set_finished res now) (λ x. refl)
        (λ x e. ground arith) k running.submissions other
      ∙ find-update_other id (queued_with_id id) (set_processing now) (λ x. refl)
          (λ x e. ground arith) k t.submissions other

  -- After SetInternalError.
  abbrev pub given_up : Tables
  given_up =
      with_rows running
        (update_where (active_with_id id) (Statements.set_internal_error now) running.submissions)

  pub set_internal_error-served :
      set_internal_error id (served_session running running now)
      ≡ (ok tt, served_session given_up given_up now)
  unfolding set_internal_error direct
  set_internal_error-served = refl

  pub given_up_row :
      find_where (has_id id) given_up.submissions
      ≡ some (Statements.set_internal_error now (set_processing now r))
  given_up_row =
      find-update id (active_with_id id) (Statements.set_internal_error now) (λ x. refl)
        (λ x e. ground arith) running.submissions (set_processing now r) running_row (rw here refl)

  pub given_up_others :
      (k : Bytes)
      → k ≢ id
      → find_where (has_id k) given_up.submissions ≡ find_where (has_id k) t.submissions
  given_up_others k other =
      find-update_other id (active_with_id id) (Statements.set_internal_error now) (λ x. refl)
        (λ x e. ground arith) k running.submissions other
      ∙ find-update_other id (queued_with_id id) (set_processing now) (λ x. refl)
          (λ x e. ground arith) k t.submissions other
