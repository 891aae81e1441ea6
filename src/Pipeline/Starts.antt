-- ===== src/Pipeline/Starts.antt =====
-- TryStartSubmission as the worker uses it: which answers make it run or acknowledge, and the rows
-- that are queued then.
use model_lib.Base.{
  ℕ, ◌≤◌, ◌≡◌, refl, ap, arith, Bool, true, false, not, ◌==◌, Option, none, some, List, Bytes,
  count_where, find_where, update_where, All-mono, only_found, count_where-le, count-update_none,
  count_of_none, none_of_find,
}
use model_lib.Base.Int.{ℤ, pos, leb_ℤ}
use model_lib.Database.{
  Tables, Session, SubmissionRow, Result, ok, err, StartResult, quota_busy, transaction,
}
use model_lib.Database.Statements.{
  has_id, queued_with_id, is_queued, running_of, mark_processing, set_processing,
}
use model_lib.Database.Lifecycle.{start_queued, start_locked, start_found, try_start_submission}
use model_lib.Database.Rules.{Answer, begin_rule, commit_rule, statement_rule, select_rule, if_rule}
use model_lib.Database.Refines.{status_rule}
use model_lib.Pipeline.{queued_count}

-- The answers on which the worker goes on with the delivery.
abbrev pub settles : Result StartResult → Bool
settles (ok quota_busy) = false
settles (ok _) = true
settles (err e) = false

pub record Settled (id : Bytes) (x : Answer StartResult) : Type 0 where
  pub not_queued : settles x.0 ≡ true → queued_count id x.1.committed ≡ 0

no_answer : {id : Bytes} {x : Answer StartResult} → settles x.0 ≡ false → Settled id x
no_answer h = record { not_queued = λ a. cc }

queued-le-keys :
    (id : Bytes) (rows : List SubmissionRow)
    → count_where (queued_with_id id) rows ≤ count_where (has_id id) rows
queued-le-keys id rows = count_where-le (queued_with_id id) (has_id id) rows (λ x e. ground arith)

start_queued-Settled :
    (id : Bytes) (s : Session)
    → s.work ≡ s.committed
    → count_where (has_id id) s.work.submissions ≤ 1
    → Settled id (start_queued id s)
unfolding start_queued
start_queued-Settled id s fresh key =
    statement_rule Q s (mark_processing id) _ (λ e. no_answer refl)
      λ t n marked.
        if_rule Q (n == 1) _ _ _
          (λ one.
            commit_rule Q _ _ (λ e. no_answer refl) (λ e. no_answer refl)
              (record { not_queued = λ a. none_left t n marked }))
          λ other. record { not_queued = λ a. rw (← fresh) (none_there t n marked other) }
  where
    Q : Answer StartResult → Type 0
    Q = Settled id

    none_left :
        (t : Tables) (n : ℕ) → mark_processing id s.now s.work ≡ some (t, n) → queued_count id t ≡ 0
    none_left t n marked =
        let e : t.submissions
            ≡ update_where (queued_with_id id) (set_processing s.now) s.work.submissions =
          ground arith in
        rw e (
          count-update_none (queued_with_id id) (set_processing s.now) s.work.submissions
            (λ x. ground arith))

    none_there :
        (t : Tables) (n : ℕ)
        → mark_processing id s.now s.work ≡ some (t, n)
        → (n == 1) ≡ false
        → queued_count id s.work ≡ 0
    none_there t n marked other = ground (arith, queued-le-keys id s.work.submissions)

start_locked-Settled :
    (id : Bytes) (r : SubmissionRow) (max_running : ℤ) (s : Session)
    → s.work ≡ s.committed
    → count_where (has_id id) s.work.submissions ≤ 1
    → find_where (has_id id) s.work.submissions ≡ some r
    → Settled id (start_locked id r.participant_id max_running s)
unfolding start_locked
start_locked-Settled id r max_running s fresh key found =
    select_rule Q s _ _ (λ e. no_answer refl)
      (status_rule Q _ _ r _ found (
        if_rule Q (not (is_queued r.status)) _ _ _
          (λ other. record { not_queued = λ a. rw (← fresh) (done other) })
          λ q.
            select_rule Q _ _ _ (λ e. no_answer refl)
              (if_rule Q
                (leb_ℤ max_running
                  (pos (count_where (running_of r.participant_id) s.work.submissions)))
                _ _ _ (λ _. no_answer refl) λ room. start_queued-Settled id _ fresh key)))
  where
    Q : Answer StartResult → Type 0
    Q = Settled id

    done : not (is_queued r.status) ≡ true → queued_count id s.work ≡ 0
    done other = count_of_none (queued_with_id id) s.work.submissions (
        All-mono (λ (x : SubmissionRow). has_id id x ≡ true → x ≡ r) _ s.work.submissions
          (λ x only. ground (arith, only, ap (λ (y : SubmissionRow). is_queued y.status)))
          (only_found (has_id id) s.work.submissions r key found))

start_found-Settled :
    (id : Bytes) (max_running : ℤ) (row : Option SubmissionRow) (s : Session)
    → s.work ≡ s.committed
    → count_where (has_id id) s.work.submissions ≤ 1
    → find_where (has_id id) s.work.submissions ≡ row
    → Settled id (start_found id max_running row s)
start_found-Settled id max_running none s fresh key found = record {
  not_queued = λ a. rw (← fresh) (
      count_of_none (queued_with_id id) s.work.submissions (
        All-mono (λ x. has_id id x ≡ false) _ s.work.submissions (λ x h. ground arith)
          (none_of_find (has_id id) s.work.submissions found)));
}
start_found-Settled id max_running (some r) s fresh key found =
    select_rule (Settled id) s _ _ (λ e. no_answer refl)
      (start_locked-Settled id r max_running _ fresh key found)

-- The worker runs a submission, or acknowledges its delivery, only when no row is queued under the
-- id, if ids are unique.
pub try_start_submission-Settled :
    (id : Bytes) (max_running : ℤ) (s : Session)
    → count_where (has_id id) s.committed.submissions ≤ 1
    → Settled id (try_start_submission id max_running s)
unfolding try_start_submission transaction
try_start_submission-Settled id max_running s key =
    if_rule Q (leb_ℤ max_running (pos 0)) _ _ _ (λ _. no_answer refl)
      λ _. record {
        not_queued = Settled.not_queued (
            begin_rule Q s _ (λ e. no_answer refl)
              (select_rule Q _ _ _ (λ e. no_answer refl)
                (start_found-Settled id max_running _ _ refl key refl)));
      }
  where
    Q : Answer StartResult → Type 0
    Q = Settled id
