-- ===== src/Database/Creating.antt =====
-- internal/database/database.go: the row that CreateSubmissionQueued answers.
use model_lib.Base.{ℕ, true, ◌≡◌, sym, ap, ◌∙◌, ◌||◌, [], ◌∷◌, ◌++◌, Bytes, count_where}
use model_lib.Base.Int.{ℤ, pos, leb_ℤ}
use model_lib.Database.{
  Tables, SubmissionRow, Session, Result, transaction, rolled_back, DbError, ok, err,
}
use model_lib.Database.Statements.{
  new_submission, admissible, insert_submission, insert_event, with_event, active, queued_of,
}
use model_lib.Database.Lifecycle.{create_locked, create_submission_queued}
use model_lib.Database.Change.{with_rows}
use model_lib.Database.Rules.{Answer, begin_rule, commit_rule, statement_rule, select_rule, if_rule}
use model_lib.Database.Placing.{insert_submission-some, insert_event-some}

module _ (id participant filename key : Bytes) (size : ℕ) (sha : Bytes) (max_active max_queued : ℤ)
    (start : Tables) (now : ℕ) where
  -- An answered row is the new one, and it is committed with its outbox event.
  pub record RowFacts (x : Answer SubmissionRow) : Type 0 where
    pub made :
        (r : SubmissionRow)
        → x.0 ≡ ok r
        → (r ≡ new_submission id participant filename key size sha now)
          × (x.1.committed ≡ with_event id now (with_rows start (start.submissions ++ r ∷ [])))
    pub admitted : (r : SubmissionRow) → x.0 ≡ ok r → admissible r start ≡ true

  no_row : (e : DbError) (s : Session) → RowFacts (err e, s)
  no_row e s = record { made = λ r h. cc h; admitted = λ r h. cc h }

  row_same : (r q : SubmissionRow) → Result.ok r ≡ ok q → r ≡ q
  row_same r q h = cc h

  create_locked-RowFacts :
      (s : Session)
      → s.work ≡ start
      → s.now ≡ now
      → RowFacts (create_locked id participant filename key size sha max_active max_queued s)
  unfolding create_locked
  create_locked-RowFacts s fresh at =
      select_rule RowFacts s _ _ (λ e. no_row e _)
        (if_rule RowFacts (leb_ℤ max_active (pos (count_where active s.work.submissions))) _ _ _
          (λ _. no_row _ _)
          λ _.
            select_rule RowFacts _ _ _ (λ e. no_row e _)
              (if_rule RowFacts
                (leb_ℤ max_queued (pos (count_where (queued_of participant) s.work.submissions))) _
                _ _ (λ _. no_row _ _)
                λ _.
                  statement_rule RowFacts _
                    (insert_submission (new_submission id participant filename key size sha)) _
                    (λ e. no_row e _)
                    λ t r inserted.
                      statement_rule RowFacts _ (insert_event id) _ (λ e. no_row e _)
                        λ u a noted.
                          commit_rule RowFacts _ _ (λ e. no_row e _) (λ e. no_row e _)
                            (record {
                              made = λ q answered.
                                  let (_, made, rows) =
                                    insert_submission-some
                                      (new_submission id participant filename key size sha) s.now
                                      s.work t r inserted in
                                  let same : r ≡ q = row_same r q answered in
                                  (
                                    sym same
                                        ∙ made
                                        ∙ ap (new_submission id participant filename key size sha)
                                            at,
                                    insert_event-some id s.now t u a noted
                                        ∙ ap (with_event id s.now) rows
                                        ∙ ap
                                            (λ (n : ℕ).
                                              with_event id n
                                                (with_rows s.work (s.work.submissions ++ r ∷ [])))
                                            at
                                        ∙ ap
                                            (λ (b : Tables).
                                              with_event id now
                                                (with_rows b (b.submissions ++ r ∷ [])))
                                            fresh
                                        ∙ ap
                                            (λ (z : SubmissionRow).
                                              with_event id now
                                                (with_rows start (start.submissions ++ z ∷ [])))
                                            same,
                                  );
                              admitted = λ q answered.
                                  let (fits, _, _) =
                                    insert_submission-some
                                      (new_submission id participant filename key size sha) s.now
                                      s.work t r inserted in
                                  sym (ap (λ (b : Tables). admissible q b) fresh)
                                  ∙ ap (λ (z : SubmissionRow). admissible z s.work)
                                      (sym (row_same r q answered))
                                  ∙ fits;
                            })))

  pub create_submission_queued-RowFacts :
      (s : Session)
      → s.committed ≡ start
      → s.now ≡ now
      → RowFacts
          (create_submission_queued id participant filename key size sha max_active max_queued s)
  unfolding create_submission_queued transaction
  create_submission_queued-RowFacts s fresh at =
      if_rule RowFacts (leb_ℤ max_active (pos 0) || leb_ℤ max_queued (pos 0)) _ _ _
        (λ _. no_row _ _)
        λ _. carried (
          begin_rule RowFacts s _ (λ e. no_row e _)
            (select_rule RowFacts _ _ _ (λ e. no_row e _)
              (select_rule RowFacts _ _ _ (λ e. no_row e _) (create_locked-RowFacts _ fresh at))))
    where
      carried : {y : Answer SubmissionRow} → RowFacts y → RowFacts (y.0, rolled_back y.1)
      carried facts = record { made = facts.made; admitted = facts.admitted }
