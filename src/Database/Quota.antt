-- ===== src/Database/Quota.antt =====
-- The limits that README.md states, as an invariant of the committed tables.
use native.Mathlib.Nat.{le_trans}
use mathlib.Core.Path.{subst}
use model_lib.Base.{
  ap, sym, count_where-le, ℕ, ◌+◌, ◌<◌, ◌≤◌, ◌≡◌, refl, arith, Bool, true, false, ◌||◌, inl, inr,
  some, List, [], ◌∷◌, ◌++◌, Bytes, count_where, update_where, find_where, str_eq, str_eq_iff, All,
  All-intro, All-mono, only_found, count-update_mono, count-update-le, count_where-append,
  Bool-cases,
}
use model_lib.Base.Int.{pos_part}
use model_lib.Database.{queued, SubmissionRow, Tables}
use model_lib.Database.Statements.{
  has_id, active, queued_of, running_of, active_of, queued_with_id, stale_with_id, active_with_id,
  admissible, set_processing, set_finished, set_queued, set_internal_error, is_processing,
  is_active,
}
use model_lib.Database.Change.{
  Limits, Change, unchanged, created, started, finished, recovered, failed, visited,
}

-- `keys` is the primary key; the bound on the active rows of a participant is the sum of the two
-- quotas, since a stale run comes back to the queue without asking for room there.
pub record WithinLimits (lim : Limits) (rows : List SubmissionRow) : Type 0 where
  pub keys : (id : Bytes) → count_where (has_id id) rows ≤ 1
  pub system : count_where active rows ≤ pos_part lim.max_active
  pub running : (p : Bytes) → count_where (running_of p) rows ≤ pos_part lim.max_running
  pub in_flight :
      (p : Bytes)
      → count_where (active_of p) rows ≤ pos_part lim.max_queued + pos_part lim.max_running

-- An active row is queued or running.
active-split :
    (p : Bytes) (rows : List SubmissionRow)
    → count_where (active_of p) rows
      ≡ count_where (queued_of p) rows + count_where (running_of p) rows
unfolding count_where
active-split p [] = omega arith
active-split p (r ∷ rows) = ground (arith, active-split p rows)

module _ (lim : Limits) (rows : List SubmissionRow) (w : WithinLimits lim rows) where
  -- An UPDATE that makes no row active or running, and keeps the ids, keeps the limits.
  update-WithinLimits :
      (p : SubmissionRow → Bool) (f : SubmissionRow → SubmissionRow)
      → ((r : SubmissionRow) → (f r).id ≡ r.id)
      → ((r : SubmissionRow) → (f r).participant_id ≡ r.participant_id)
      → ((r : SubmissionRow)
          → p r ≡ true
          → is_active (f r).status ≡ true
          → is_active r.status ≡ true)
      → ((r : SubmissionRow) → is_processing (f r).status ≡ false)
      → WithinLimits lim (update_where p f rows)
  update-WithinLimits p f same_id same_owner act run = record {
    keys = λ id. le_trans (mono (has_id id) (λ r a e. rw (same_id r) at e)) (w.keys id);
    system = le_trans (mono active act) w.system;
    running = λ q. le_trans (mono (running_of q) (λ r a e. ground (arith, run r))) (w.running q);
    in_flight = λ q.
        le_trans (mono (active_of q) (λ r a e. ground (arith, act r, same_owner r)))
          (w.in_flight q);
  }
    where
      mono :
          (q : SubmissionRow → Bool)
          → ((r : SubmissionRow) → p r ≡ true → q (f r) ≡ true → q r ≡ true)
          → count_where q (update_where p f rows) ≤ count_where q rows
      mono q h = count-update_mono q p f rows (All-intro _ rows h)

  add-WithinLimits :
      (r : SubmissionRow)
      → r.status ≡ queued
      → count_where (has_id r.id) rows ≡ 0
      → count_where active rows < pos_part lim.max_active
      → count_where (queued_of r.participant_id) rows < pos_part lim.max_queued
      → WithinLimits lim (rows ++ r ∷ [])
  unfolding count_where
  add-WithinLimits r q fresh room quota = record {
    keys = λ id. elim (Bool-cases (str_eq r.id id)) [
      | inl same ↦
          let e : r.id ≡ id = (str_eq_iff r.id id).0 same in
          let none_yet = subst (λ k. count_where (has_id k) rows ≡ 0) e fresh in
          omega (arith, count_where-append (has_id id) rows (r ∷ []), last-le (has_id id))
      | inr other ↦ ground (arith, w.keys id, count_where-append (has_id id) rows (r ∷ []))
    ];
    system = omega (arith, count_where-append active rows (r ∷ []), last-le active);
    running = λ p. ground (arith, w.running p, count_where-append (running_of p) rows (r ∷ []));
    in_flight = λ p. elim (Bool-cases (str_eq r.participant_id p)) [
      | inl same ↦
          let e : r.participant_id ≡ p = (str_eq_iff r.participant_id p).0 same in
          let has_room =
            subst (λ k. count_where (queued_of k) rows < pos_part lim.max_queued) e quota in
          omega (
            arith,
            count_where-append (active_of p) rows (r ∷ []),
            last-le (active_of p),
            active-split p rows,
            w.running p,
          )
      | inr other ↦ ground (arith, w.in_flight p, count_where-append (active_of p) rows (r ∷ []))
    ];
  }
    where
      last-le : (p : SubmissionRow → Bool) → count_where p (r ∷ []) ≤ 1
      last-le p = ground arith

  start-WithinLimits :
      (id : Bytes) (r : SubmissionRow) (now : ℕ)
      → find_where (has_id id) rows ≡ some r
      → count_where (running_of r.participant_id) rows < pos_part lim.max_running
      → count_where (queued_with_id id) rows ≡ 1
      → WithinLimits lim (update_where (queued_with_id id) (set_processing now) rows)
  start-WithinLimits id r now found room one = record {
    keys = λ k. le_trans (mono (has_id k) (all λ x a e. e)) (w.keys k);
    system = le_trans (mono active (all λ x a e. ground arith)) w.system;
    running = λ p. elim (Bool-cases (str_eq r.participant_id p)) [
      | inl same ↦
          let e : r.participant_id ≡ p = (str_eq_iff r.participant_id p).0 same in
          let has_room =
            subst (λ k. count_where (running_of k) rows < pos_part lim.max_running) e room in
          omega
            (arith, count-update-le (running_of p) (queued_with_id id) (set_processing now) rows)
      | inr other ↦
          le_trans
            (mono (running_of p) (
              All-mono _ _ rows
                (λ x only a e.
                  ground (arith, only, ap (λ (s : SubmissionRow). str_eq s.participant_id p)))
                (only_found (has_id id) rows r (w.keys id) found)))
            (w.running p)
    ];
    in_flight = λ p. le_trans (mono (active_of p) (all λ x a e. ground arith)) (w.in_flight p);
  }
    where
      mono :
          (q : SubmissionRow → Bool)
          → All
              (λ x. queued_with_id id x ≡ true → q (set_processing now x) ≡ true → q x ≡ true)
              rows
          → count_where q (update_where (queued_with_id id) (set_processing now) rows)
            ≤ count_where q rows
      mono q h = count-update_mono q (queued_with_id id) (set_processing now) rows h

      all : {P : SubmissionRow → Type 0} → ((x : SubmissionRow) → P x) → All P rows
      all h = All-intro _ rows h

fresh_of_admissible :
    (r : SubmissionRow) (t : Tables)
    → admissible r t ≡ true
    → count_where (has_id r.id) t.submissions ≡ 0
unfolding admissible
fresh_of_admissible r t h = ground (
  arith,
  count_where-le (has_id r.id)
      (λ (q : SubmissionRow). str_eq q.id r.id || str_eq q.source_storage_key r.source_storage_key)
      t.submissions (λ x e. ground arith),
)

-- Every change of the committed tables keeps the limits.
pub Change-WithinLimits :
    {lim : Limits} {t u : Tables}
    → WithinLimits lim t.submissions
    → Change lim t u
    → WithinLimits lim u.submissions
Change-WithinLimits {lim} w (unchanged e) = subst (λ v. WithinLimits lim v.submissions) (sym e) w
Change-WithinLimits {lim} {t} w (created r now q room quota fits e) =
    subst (λ v. WithinLimits lim v.submissions) (sym e)
      (add-WithinLimits lim t.submissions w r q (fresh_of_admissible r t fits) room quota)
Change-WithinLimits {lim} {t} w (started id r now found q room one e) =
    subst (λ v. WithinLimits lim v.submissions) (sym e)
      (start-WithinLimits lim t.submissions w id r now found room one)
Change-WithinLimits {lim} {t} w (finished id res now e) =
    subst (λ v. WithinLimits lim v.submissions) (sym e)
      (update-WithinLimits lim t.submissions w _ (set_finished res now) (λ r. refl) (λ r. refl)
        (λ r a b. cc) (λ r. refl))
Change-WithinLimits {lim} {t} w (recovered id before now e) =
    subst (λ v. WithinLimits lim v.submissions) (sym e)
      (update-WithinLimits lim t.submissions w (stale_with_id id before) (set_queued now)
        (λ r. refl) (λ r. refl) (λ r a b. ground arith) (λ r. refl))
Change-WithinLimits {lim} {t} w (failed id now e) =
    subst (λ v. WithinLimits lim v.submissions) (sym e)
      (update-WithinLimits lim t.submissions w (active_with_id id) (set_internal_error now)
        (λ r. refl) (λ r. refl) (λ r a b. cc) (λ r. refl))
Change-WithinLimits {lim} w (visited rows e) = subst (λ v. WithinLimits lim v.submissions) (sym e) w

-- A system with no submissions is within any limits.
pub WithinLimits-nil : (lim : Limits) → WithinLimits lim []
unfolding count_where
WithinLimits-nil lim = record {
  keys = λ id. omega arith;
  system = omega arith;
  running = λ p. omega arith;
  in_flight = λ p. omega arith;
}
