-- ===== src/Submissions/Polling.antt =====
-- CreateSubmission and then GetSubmission: what is shown of an accepted upload.
use model_lib.Base.{
  false, ap, ◌∙◌, sym, none, ℕ, ◌≡◌, ◌≢◌, refl, arith, Bool, ◌&&◌, some, List, [], ◌∷◌, ◌++◌, Bytes,
  length, str_eq, str_eq_refl, str_eq_distinct, find_where, count_where, count_where-le,
  count_where-append, All, All-mono, str_eq_iff, Bool-cases, inl, inr,
}
use model_lib.Database.{Tables, SubmissionRow, direct}
use model_lib.Database.Lifecycle.{get_submission}
use mathlib.Core.List.{append_assoc}
use model_lib.Database.Growing.{Grows, IsNew, admissible-IsNew}
use model_lib.Database.Serving.{served_session}
use model_lib.Database.Statements.{has_id, new_submission}
use model_lib.Submissions.{
  ok, err, not_owned, Submit, Service, World, CreateResult, submission_result, storage_key,
  filename_of, lookup_submission,
}
use model_lib.Submissions.Creating.{AcceptedFacts}

-- Rows that do not fit are passed over.
pub find-skipped :
    (p : SubmissionRow → Bool) (xs ys : List SubmissionRow)
    → count_where p xs ≡ 0
    → find_where p (xs ++ ys) ≡ find_where p ys
unfolding find_where count_where
find-skipped p [] ys h = refl
find-skipped p (x ∷ xs) ys h = ground (arith, find-skipped p xs ys)

find-none :
    (p : SubmissionRow → Bool) (xs : List SubmissionRow)
    → All (λ x. p x ≡ false) xs
    → find_where p xs ≡ none
unfolding find_where
find-none p [] h = refl
find-none p (x ∷ xs) (h, hs) = rw h (find-none p xs hs)

module _ (r : SubmissionRow) (t u v : Tables) (new : IsNew t r)
    (rows : u.submissions ≡ t.submissions ++ r ∷ []) (grown : Grows u v) where
  all_rows : v.submissions ≡ t.submissions ++ (r ∷ grown.0)
  all_rows =
      grown.1
      ∙ ap (λ (x : List SubmissionRow). x ++ grown.0) rows
      ∙ append_assoc t.submissions (r ∷ []) grown.0

  none_of :
      (who : Bytes)
      → count_where (λ q. has_id r.id q && str_eq q.participant_id who) t.submissions ≡ 0
  none_of who =
      let few =
        count_where-le (λ q. has_id r.id q && str_eq q.participant_id who) (has_id r.id)
          t.submissions (λ q e. ground arith) in
      ground (arith, few, new)

  found_by_owner :
      find_where (λ q. has_id r.id q && str_eq q.participant_id r.participant_id) v.submissions
      ≡ some r
  unfolding find_where
  found_by_owner =
      ap (find_where (λ q. has_id r.id q && str_eq q.participant_id r.participant_id)) all_rows
      ∙ find-skipped _ t.submissions (r ∷ grown.0) (none_of r.participant_id)
      ∙ rw (str_eq_refl r.id, str_eq_refl r.participant_id) refl

  other_id : (x : SubmissionRow) → IsNew u x → has_id r.id x ≡ false
  unfolding count_where
  other_id x none_there = elim (Bool-cases (str_eq x.id r.id)) [
    | inl same ↦
        let ids : x.id ≡ r.id = (str_eq_iff x.id r.id).0 same in
        let one : count_where (has_id x.id) (r ∷ []) ≡ 1 =
          rw ((str_eq_iff r.id x.id).1 (sym ids)) refl in
        let split = count_where-append (has_id x.id) t.submissions (r ∷ []) in
        let there = ap (count_where (has_id x.id)) rows in
        absurd (omega (arith, one, split, there, none_there))
    | inr differs ↦ differs
  ]

  hidden_from_others :
      (who : Bytes)
      → r.participant_id ≢ who
      → find_where (λ q. has_id r.id q && str_eq q.participant_id who) v.submissions ≡ none
  unfolding find_where
  hidden_from_others who other =
      ap (find_where (λ q. has_id r.id q && str_eq q.participant_id who)) all_rows
      ∙ find-skipped _ t.submissions (r ∷ grown.0) (none_of who)
      ∙ rw (str_eq_refl r.id, str_eq_distinct r.participant_id who other)
          (find-none _ grown.0
            (All-mono (IsNew u) _ grown.0 (λ x h. rw (other_id x h) refl) grown.2))

-- What GetSubmission shows of an upload, in a database that serves the call: to its owner the new row,
-- with the size and the digest of the source that is stored, and to others that there is nothing.
pub record PolledFacts (sha : Bytes → Bytes) (q : Submit) (path : Bytes) (start : World)
    (r : CreateResult) (w : World) : Type 0 where
  pub name : Bytes
  pub content : Bytes
  pub stored : w.disk.files path ≡ some content
  pub shown :
      (work : Tables) (now : ℕ)
      → (lookup_submission r.submission_id q.participant (served_session w.db.committed work now)).0
        ≡ ok (
            submission_result (
              new_submission q.submission_id q.participant name
                (storage_key q.submission_id)
                (length content)
                (sha content)
                start.db.now))
  pub hidden :
      (who : Bytes) (work : Tables) (now : ℕ)
      → q.participant ≢ who
      → (lookup_submission r.submission_id who (served_session w.db.committed work now)).0
        ≡ err not_owned

pub accepted-PolledFacts :
    (mac : Bytes → Bytes → Bytes) (sha : Bytes → Bytes) (S : Service) (q : Submit) (path : Bytes)
    (start : World) (r : CreateResult) (w v : World)
    → AcceptedFacts mac sha S q path start r w
    → v.disk.files path ≡ w.disk.files path
    → Grows w.db.committed v.db.committed
    → PolledFacts sha q path start r v
unfolding lookup_submission get_submission direct
accepted-PolledFacts mac sha S q path start r w v a same_file grown = record {
  name = filename_of a.u;
  content = a.content;
  stored = same_file ∙ a.stored;
  shown = λ work now.
      rw a.answered.0
        (rw (found_by_owner row a.visited w.db.committed v.db.committed new rows grown) refl);
  hidden = λ who work now other. rw a.answered.0 (
      rw (hidden_from_others row a.visited w.db.committed v.db.committed new rows grown who other)
        refl);
}
  where
    row : SubmissionRow
    row =
        new_submission q.submission_id q.participant (filename_of a.u) (storage_key q.submission_id)
          (length a.content) (sha a.content) start.db.now

    new : IsNew a.visited row
    new = admissible-IsNew row a.visited a.admitted

    rows : w.db.committed.submissions ≡ a.visited.submissions ++ row ∷ []
    rows = ap (λ (t : Tables). t.submissions) a.queued_row
