-- ===== src/Database/Reading.antt =====
-- internal/database/database.go, GetSubmission: what its answer depends on.
use model_lib.Base.{
  ◌≡◌, refl, arith, ◌&&◌, if◌then◌else◌, some, List, [], ◌∷◌, Bytes, str_eq, find_where, Bool-cases,
  inl, inr,
}
use model_lib.Database.{
  Session, SubmissionRow, Tables, Outcome, served, refused, lost, direct, direct_by,
}
use model_lib.Database.Statements.{has_id}
use model_lib.Database.Lifecycle.{get_submission}

-- The rows of a participant.
unfoldable pub rows_of : Bytes → List SubmissionRow → List SubmissionRow
rows_of participant [] = []
rows_of participant (r ∷ rest) =
    let others = rows_of participant rest in
    if str_eq r.participant_id participant then r ∷ others else others

found_in-rows_of :
    (id participant : Bytes) (rows : List SubmissionRow)
    → find_where (λ r. has_id id r && str_eq r.participant_id participant) rows
      ≡ find_where (has_id id) (rows_of participant rows)
unfolding find_where rows_of
found_in-rows_of id participant [] = refl
found_in-rows_of id participant (r ∷ rest) =
    elim (Bool-cases (str_eq r.participant_id participant)) [
      | inl owner ↦ rw owner (ground (arith, found_in-rows_of id participant rest))
      | inr stranger ↦ rw stranger (ground (arith, found_in-rows_of id participant rest))
    ]

same_answer :
    {A : Type 0} (o : Outcome) (a : A) (t u : Tables) (s z : Session)
    → (direct_by o (some (t, a)) s).0 ≡ (direct_by o (some (u, a)) z).0
same_answer served a t u s z = refl
same_answer refused a t u s z = refl
same_answer lost a t u s z = refl

-- Two databases with the same rows of a participant, whose drivers behave the same, give GetSubmission
-- the same answer for that participant.
pub get_submission-rows_of :
    (id participant : Bytes) (s z : Session)
    → s.script ≡ z.script
    → rows_of participant s.committed.submissions ≡ rows_of participant z.committed.submissions
    → (get_submission id participant s).0 ≡ (get_submission id participant z).0
unfolding get_submission direct
get_submission-rows_of id participant s z scripts rows =
    rw (found_in-rows_of id participant s.committed.submissions) (
      rw (found_in-rows_of id participant z.committed.submissions)
        (rw (scripts, rows) (same_answer _ _ _ _ _ _)))
