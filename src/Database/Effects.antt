-- ===== src/Database/Effects.antt =====
-- What CreateSubmissionQueued, TryStartSubmission and RecoverStaleSubmission of
-- internal/database/database.go do to the committed tables, each with the arguments of the call.
use model_lib.Base.{
  ℕ, ◌∙◌, ◌≡◌, refl, arith, true, false, some, [], ◌∷◌, ◌++◌, Bytes, count_where, Bool, not, ◌||◌,
  ◌==◌, Option, none, find_where, update_where, ◌⊎◌, inl, inr, ◌<◌,
}
use model_lib.Base.Int.{pos, leb_ℤ, pos_part}
use model_lib.Database.{
  Tables, Session, SubmissionRow, queued, StartResult, started, quota_busy, duplicate_or_terminal,
  not_found, Result, ok, err, DbError, transaction,
}
use model_lib.Database.Statements.{
  has_id, active, is_queued, queued_of, running_of, queued_with_id, stale_with_id, admissible,
  with_event, set_processing, set_queued, new_submission, insert_submission, insert_event,
  mark_processing, mark_stale_queued,
}
use model_lib.Database.Lifecycle.{
  create_locked, create_submission_queued, start_queued, start_locked, start_found,
  try_start_submission, recover_stale_submission,
}
use model_lib.Database.Change.{Limits, with_rows}
use model_lib.Database.Placing.{below_of_room, insert_submission-some, insert_event-some}
use model_lib.Database.Refines.{queued_of_test, status_rule}
use model_lib.Database.Rules.{Answer, begin_rule, commit_rule, statement_rule, select_rule, if_rule}

-- From the committed tables `c`: nothing is done or all of it, and an answer says which.
pub record AllOrNothing {A : Type 0} (c : Tables) (Done : Tables → Type 0)
    (Says : A → Tables → Type 0) (r : Result A) (u : Tables) : Type 0 where
  pub effect : (u ≡ c) ⊎ Done u
  pub told : (a : A) → r ≡ ok a → Says a u

module _ {A : Type 0} {c : Tables} {Done : Tables → Type 0} {Says : A → Tables → Type 0}
    {u : Tables} where
  pub none_failed : (e : DbError) → u ≡ c → AllOrNothing c Done Says (err e) u
  none_failed e same = record { effect = inl same; told = λ a h. cc }

  pub all_unsure : (e : DbError) → Done u → AllOrNothing c Done Says (err e) u
  all_unsure e d = record { effect = inr d; told = λ a h. cc }

  pub all_told : (a : A) → Says a u → Done u → AllOrNothing c Done Says (ok a) u
  all_told a says d = record {
    effect = inr d;
    told = λ b h. let same : a ≡ b = cc h in rw⁻¹ same says;
  }

  pub none_told : (a : A) → Says a u → u ≡ c → AllOrNothing c Done Says (ok a) u
  none_told a says same = record {
    effect = inl same;
    told = λ b h. let e : a ≡ b = cc h in rw⁻¹ e says;
  }

-- The new row is committed together with its event, and both limits had room.
pub record IsCreated (lim : Limits) (row : SubmissionRow) (now : ℕ) (c u : Tables) : Type 0 where
  pub room : count_where active c.submissions < pos_part lim.max_active
  pub quota : count_where (queued_of row.participant_id) c.submissions < pos_part lim.max_queued
  pub fits : admissible row c ≡ true
  pub made : u ≡ with_event row.id now (with_rows c (c.submissions ++ row ∷ []))

-- The row of `id` was queued, its participant had a free slot, and it is the one that is started.
pub record IsStarted (lim : Limits) (id : Bytes) (now : ℕ) (c u : Tables) : Type 0 where
  pub row : SubmissionRow
  pub found : find_where (has_id id) c.submissions ≡ some row
  pub waiting : row.status ≡ queued
  pub slot : count_where (running_of row.participant_id) c.submissions < pos_part lim.max_running
  pub one : count_where (queued_with_id id) c.submissions ≡ 1
  pub made : u ≡ with_rows c (update_where (queued_with_id id) (set_processing now) c.submissions)

-- The rows of `id` that started too long ago are queued again, together with a new event.
pub record IsRecovered (id : Bytes) (before now : ℕ) (c u : Tables) : Type 0 where
  pub some_stale : 0 < count_where (stale_with_id id before) c.submissions
  pub made :
      u
      ≡ with_event id now
          (with_rows c (update_where (stale_with_id id before) (set_queued now) c.submissions))

module _ (lim : Limits) (id participant filename key : Bytes) (size : ℕ) (sha : Bytes)
    (s : Session) where
  abbrev row : SubmissionRow
  row = new_submission id participant filename key size sha s.now

  abbrev pub Creates : Result SubmissionRow → Tables → Type 0
  Creates =
      AllOrNothing s.committed (IsCreated lim row s.now s.committed)
        (λ r u. (r ≡ row) × IsCreated lim row s.now s.committed u)

  abbrev AfterCreate : Answer SubmissionRow → Type 0
  AfterCreate x = Creates x.0 x.1.committed

  both_inserted :
      (t u : Tables) (r : SubmissionRow) (a : Unit {0})
      → leb_ℤ lim.max_active (pos (count_where active s.committed.submissions)) ≡ false
      → leb_ℤ lim.max_queued (pos (count_where (queued_of participant) s.committed.submissions))
        ≡ false
      → insert_submission (new_submission id participant filename key size sha) s.now s.committed
        ≡ some (t, r)
      → insert_event id s.now t ≡ some (u, a)
      → (r ≡ row) × IsCreated lim row s.now s.committed u
  both_inserted t u r a room quota inserted noted =
      let (fits, made, rows) =
        insert_submission-some (new_submission id participant filename key size sha) s.now
          s.committed t r inserted in
      (
        made,
        record {
          room = below_of_room lim.max_active _ room;
          quota = below_of_room lim.max_queued _ quota;
          fits = rw⁻¹ made fits;
          made = insert_event-some id s.now t u a noted ∙ rw (rows, made) refl;
        },
      )

  create_locked-Creates :
      (w : Session)
      → w.now ≡ s.now
      → w.work ≡ s.committed
      → w.committed ≡ s.committed
      → AfterCreate
          (create_locked id participant filename key size sha lim.max_active lim.max_queued w)
  unfolding create_locked
  create_locked-Creates w clock fresh old =
      select_rule AfterCreate w _ _ (λ e. none_failed e old)
        (if_rule AfterCreate (leb_ℤ lim.max_active (pos (count_where active w.work.submissions))) _
          _ _ (λ _. none_failed _ old)
          λ room.
            select_rule AfterCreate _ _ _ (λ e. none_failed e old)
              (if_rule AfterCreate
                (leb_ℤ lim.max_queued
                  (pos (count_where (queued_of participant) w.work.submissions)))
                _ _ _ (λ _. none_failed _ old)
                λ quota.
                  statement_rule AfterCreate _
                    (insert_submission (new_submission id participant filename key size sha)) _
                    (λ e. none_failed e old)
                    λ t r inserted.
                      statement_rule AfterCreate _ (insert_event id) _ (λ e. none_failed e old)
                        λ u a noted.
                          let both =
                            both_inserted t u r a (rw fresh at room) (rw fresh at quota)
                              (rw (clock, fresh) at inserted) (rw clock at noted) in
                          commit_rule AfterCreate _ _ (λ e. none_failed e old)
                            (λ e. all_unsure e both.1) (all_told r both both.1)))

  -- The committed tables stay as they were, or both limits had room and the call's new row is
  -- committed together with its outbox event, and nothing else, whatever the driver answers; a call
  -- that answers with a row has committed it, and it is that new row.
  pub create_submission_queued-Creates :
      let x =
        create_submission_queued id participant filename key size sha lim.max_active lim.max_queued
          s in
      Creates x.0 x.1.committed
  unfolding create_submission_queued transaction
  create_submission_queued-Creates =
      if_rule AfterCreate (leb_ℤ lim.max_active (pos 0) || leb_ℤ lim.max_queued (pos 0)) _ _ _
        (λ _. none_failed _ refl)
        λ _.
          begin_rule AfterCreate s _ (λ e. none_failed e refl)
            (select_rule AfterCreate _ _ _ (λ e. none_failed e refl)
              (select_rule AfterCreate _ _ _ (λ e. none_failed e refl)
                (create_locked-Creates _ refl refl refl)))

module _ (lim : Limits) (id : Bytes) (s : Session) where
  abbrev pub Starts : Result StartResult → Tables → Type 0
  Starts = AllOrNothing s.committed (IsStarted lim id s.now s.committed) (λ a u.
      (a ≡ started → IsStarted lim id s.now s.committed u) × (¬ (a ≡ started) → u ≡ s.committed))

  abbrev AfterStart : Answer StartResult → Type 0
  AfterStart x = Starts x.0 x.1.committed

  not_started : {u : Tables} (a : StartResult) → ¬ (a ≡ started) → u ≡ s.committed → Starts (ok a) u
  not_started a other same = none_told a ((λ h. absurd (other h)), (λ _. same)) same

  start_queued-Starts :
      (r : SubmissionRow) (w : Session)
      → w.now ≡ s.now
      → w.work ≡ s.committed
      → w.committed ≡ s.committed
      → find_where (has_id id) w.work.submissions ≡ some r
      → r.status ≡ queued
      → leb_ℤ lim.max_running (pos (count_where (running_of r.participant_id) w.work.submissions))
        ≡ false
      → AfterStart (start_queued id w)
  unfolding start_queued
  start_queued-Starts r w clock fresh old found waits room =
      statement_rule AfterStart w (mark_processing id) _ (λ e. none_failed e old)
        λ t n marked.
          if_rule AfterStart (n == 1) _ _ _
            (λ one.
              let did = moved t n marked one in
              commit_rule AfterStart _ _ (λ e. none_failed e old) (λ e. all_unsure e did)
                (all_told started ((λ _. did), (λ no. absurd (no refl))) did))
            λ _. not_started duplicate_or_terminal (λ h. cc) old
    where
      moved :
          (t : Tables) (n : ℕ)
          → mark_processing id w.now w.work ≡ some (t, n)
          → (n == 1) ≡ true
          → IsStarted lim id s.now s.committed t
      moved t n marked one = record {
        row = r;
        found = rw fresh at found;
        waiting = waits;
        slot = below_of_room lim.max_running _ (rw fresh at room);
        one = let e = rw (clock, fresh) at marked in ground arith;
        made = let e = rw (clock, fresh) at marked in ground arith;
      }

  start_locked-Starts :
      (r : SubmissionRow) (w : Session)
      → w.now ≡ s.now
      → w.work ≡ s.committed
      → w.committed ≡ s.committed
      → find_where (has_id id) w.work.submissions ≡ some r
      → AfterStart (start_locked id r.participant_id lim.max_running w)
  unfolding start_locked
  start_locked-Starts r w clock fresh old found =
      select_rule AfterStart w _ _ (λ e. none_failed e old)
        (status_rule AfterStart _ _ r _ found (
          if_rule AfterStart (not (is_queued r.status)) _ _ _
            (λ _. not_started duplicate_or_terminal (λ h. cc) old)
            λ q.
              select_rule AfterStart _ _ _ (λ e. none_failed e old)
                (if_rule AfterStart
                  (leb_ℤ lim.max_running
                    (pos (count_where (running_of r.participant_id) w.work.submissions)))
                  _ _ _ (λ _. not_started quota_busy (λ h. cc) old)
                  λ room.
                    start_queued-Starts r _ clock fresh old found (queued_of_test r.status q)
                      room)))

  start_found-Starts :
      (row : Option SubmissionRow) (w : Session)
      → w.now ≡ s.now
      → w.work ≡ s.committed
      → w.committed ≡ s.committed
      → find_where (has_id id) w.work.submissions ≡ row
      → AfterStart (start_found id lim.max_running row w)
  start_found-Starts none w clock fresh old found = not_started not_found (λ h. cc) old
  start_found-Starts (some r) w clock fresh old found =
      select_rule AfterStart w _ _ (λ e. none_failed e old)
        (start_locked-Starts r _ clock fresh old found)

  -- The committed tables stay as they were, or exactly the one queued row of the given id, whose
  -- participant had a free running slot, is moved to mock_processing, whatever the driver answers;
  -- the call answers that it started only if it did that, and with any other result than an error
  -- it did nothing.
  pub try_start_submission-Starts :
      let x = try_start_submission id lim.max_running s in Starts x.0 x.1.committed
  unfolding try_start_submission transaction
  try_start_submission-Starts =
      if_rule AfterStart (leb_ℤ lim.max_running (pos 0)) _ _ _ (λ _. none_failed _ refl)
        λ _.
          begin_rule AfterStart s _ (λ e. none_failed e refl)
            (select_rule AfterStart _ _ _ (λ e. none_failed e refl)
              (start_found-Starts _ _ refl refl refl refl))

module _ (id : Bytes) (stale_before : ℕ) (s : Session) where
  abbrev pub Recovers : Result Bool → Tables → Type 0
  Recovers = AllOrNothing s.committed (IsRecovered id stale_before s.now s.committed) (λ b u.
      (b ≡ true → IsRecovered id stale_before s.now s.committed u) × (b ≡ false → u ≡ s.committed))

  abbrev AfterRecover : Answer Bool → Type 0
  AfterRecover x = Recovers x.0 x.1.committed

  requeued :
      (t u : Tables) (n : ℕ) (a : Unit {0})
      → mark_stale_queued id stale_before s.now s.committed ≡ some (t, n)
      → (n == 0) ≡ false
      → insert_event id s.now t ≡ some (u, a)
      → IsRecovered id stale_before s.now s.committed u
  requeued t u n a marked any noted = record {
    some_stale = ground arith;
    made = insert_event-some id s.now t u a noted ∙ ground arith;
  }

  -- The committed tables stay as they were, or the rows of the given id that are running since
  -- before the given time, of which there is one at least, are queued again together with a new
  -- outbox event, whatever the driver answers; the call says that it recovered only if it did that,
  -- and if it says that it did not, nothing has changed.
  pub recover_stale_submission-Recovers :
      let x = recover_stale_submission id stale_before s in Recovers x.0 x.1.committed
  unfolding recover_stale_submission transaction
  recover_stale_submission-Recovers =
      begin_rule AfterRecover s _ (λ e. none_failed e refl)
        (statement_rule AfterRecover _ (mark_stale_queued id stale_before) _
          (λ e. none_failed e refl)
          λ t n marked.
            if_rule AfterRecover (n == 0) _ _ _ (λ _. none_told false ((λ h. cc), (λ _. refl)) refl)
              λ any.
                statement_rule AfterRecover _ (insert_event id) _ (λ e. none_failed e refl)
                  λ u a noted.
                    let did = requeued t u n a marked any noted in
                    commit_rule AfterRecover _ _ (λ e. none_failed e refl) (λ e. all_unsure e did)
                      (all_told true ((λ _. did), (λ h. cc)) did))
