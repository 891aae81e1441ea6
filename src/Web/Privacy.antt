-- ===== src/Web/Privacy.antt =====
-- internal/web: a visitor learns nothing of the submissions of others.
use model_lib.Base.{
  ℕ, ◌≡◌, refl, ap, Bool, true, false, ltb, Option, none, some, Bytes, length, is_empty, Bool-cases,
  inl, inr,
}
use model_lib.Base.Int.{ℤ}
use model_lib.Database.{Session}
use model_lib.Database.Reading.{rows_of, get_submission-rows_of}
use model_lib.Identity.{Identity}
use model_lib.RateLimit.{KeyStore}
use model_lib.Submissions.{Answer, SubmissionResult, owned, lookup_submission}
use model_lib.Web.{
  Writer, answered, Poll, polled, submission_json, submission_page, handle_get_submission,
  handle_submission_page,
}

-- The same rows of a participant, and a driver that behaves in the same way.
pub record SameForFacts (participant : Bytes) (s z : Session) : Type 0 where
  pub scripts : s.script ≡ z.script
  pub rows :
      rows_of participant s.committed.submissions ≡ rows_of participant z.committed.submissions

lookup_same :
    (id participant : Bytes) (s z : Session)
    → SameForFacts participant s z
    → (lookup_submission id participant s).0 ≡ (lookup_submission id participant z).0
unfolding lookup_submission
lookup_same id participant s z h =
    ap owned (get_submission-rows_of id participant s z h.scripts h.rows)

module _ (K : KeyStore) (rate : ℤ) (w : Writer) (id participant : Bytes) (s z : Session)
    (h : SameForFacts participant s z) where
  open K use {Store}

  polled_same :
      (x : Option (Bool × ℕ) × Store)
      → (polled K rate w id participant x s).0 ≡ (polled K rate w id participant x z).0
  polled_same (some (false, n), t) = refl
  polled_same (some (true, n), t) =
      ap (λ (a : Answer SubmissionResult). answered (submission_json w a))
        (lookup_same id participant s z h)
  polled_same (none, t) = elim (Bool-cases (ltb (length participant) 8)) [
    | inl short ↦ rw short refl
    | inr long ↦ rw long (
        ap (λ (a : Answer SubmissionResult). answered (submission_json w a))
          (lookup_same id participant s z h))
  ]

-- Two databases that have the same rows of the visitor, and drivers that behave in the same way, give
-- the visitor the same answers to a poll and to a visit of the page, whatever id is asked for: a
-- submission of another participant is answered as one that does not exist.
pub handle_get_submission-private :
    (K : KeyStore) (rate : ℤ) (p : Poll) (visitor : Identity) (w : Writer) (t : KeyStore.Store K)
    (s z : Session)
    → SameForFacts visitor.participant_id s z
    → ((handle_get_submission K rate p (some visitor) w t s).0
        ≡ (handle_get_submission K rate p (some visitor) w t z).0)
      × ((handle_submission_page p.submission_id (some visitor) w s).0
          ≡ (handle_submission_page p.submission_id (some visitor) w z).0)
unfolding handle_get_submission handle_submission_page
handle_get_submission-private K rate p visitor w t s z h =
    elim (Bool-cases (is_empty p.submission_id)) [
      | inl nothing ↦ rw nothing (refl, refl)
      | inr given ↦ rw given (
        polled_same K rate w p.submission_id visitor.participant_id s z h _,
        ap (λ (a : Answer SubmissionResult). submission_page w p.submission_id a)
            (lookup_same p.submission_id visitor.participant_id s z h),
      )
    ]
