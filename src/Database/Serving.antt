-- ===== src/Database/Serving.antt =====
-- internal/database/database.go: calls that find room and a driver that serves them.
use model_lib.Base.{
  ℕ, ◌≤◌, ◌≡◌, refl, arith, Bool, true, false, leb, some, List, [], ◌∷◌, ◌++◌, Bytes, str_eq_refl,
  find_where, count_where, update_where, count_where-append, count-update_eq, All-intro,
  Option-cases, inl, inr,
}
use model_lib.Base.Int.{ℤ, pos, leb_ℤ}
use model_lib.Database.{
  Tables, Session, SubmissionRow, ParticipantRow, ok, statement, begin, commit, direct, transaction,
}
use model_lib.Database.Lifecycle.{create_locked, create_submission_queued}
use model_lib.Database.Participants.{participant_is, upsert, upsert_participant}
use model_lib.Database.Statements.{new_submission, admissible, active, queued_of, has_id}

-- A session whose driver serves every call.
abbrev pub served_session : Tables → Tables → ℕ → Session
served_session t work now = record { committed = t; work = work; script = []; now = now }

pub limit-positive : (max : ℤ) (n : ℕ) → leb_ℤ max (pos n) ≡ false → leb_ℤ max (pos 0) ≡ false
limit-positive max n h = ground arith

module _ (id participant filename key : Bytes) (size : ℕ) (sha : Bytes) (max_active max_queued : ℤ)
    (t work : Tables) (now : ℕ) where
  event_admissible :
      leb 1 (
        count_where
          (has_id id)
          (t.submissions ++ new_submission id participant filename key size sha now ∷ []))
      ≡ true
  unfolding count_where
  event_admissible =
      let row : SubmissionRow = new_submission id participant filename key size sha now in
      let split = count_where-append (has_id id) t.submissions (row ∷ []) in
      let last : count_where (has_id id) (row ∷ []) ≡ 1 = rw (str_eq_refl id) refl in
      ground (arith, split, last)

  -- A creation that finds room in both limits, and no row in its way, answers its row.
  pub create_submission_queued-served :
      leb_ℤ max_active (pos (count_where active t.submissions)) ≡ false
      → leb_ℤ max_queued (pos (count_where (queued_of participant) t.submissions)) ≡ false
      → admissible (new_submission id participant filename key size sha now) t ≡ true
      → (create_submission_queued id participant filename key size sha max_active max_queued
          (served_session t work now)).0
        ≡ ok (new_submission id participant filename key size sha now)
  unfolding create_submission_queued create_locked transaction begin statement commit
  create_submission_queued-served room quota fits = rw (limit-positive max_active _ room) (
      rw (limit-positive max_queued _ quota)
        (rw room (rw quota (rw fits (rw event_admissible refl)))))

found_count :
    (p : ParticipantRow → Bool) (xs : List ParticipantRow) (r : ParticipantRow)
    → find_where p xs ≡ some r
    → 1 ≤ count_where p xs
unfolding find_where count_where
found_count p [] r h = absurd (ground arith)
found_count p (x ∷ xs) r h = ground (arith, found_count p xs r)

-- After UpsertParticipant the participant is there, and the submissions are as they were.
pub upsert_participant-served :
    (id : Bytes) (t work : Tables) (now : ℕ)
    → (u : Tables) × (p : ParticipantRow) × (upsert_participant id (served_session t work now)
        ≡ (ok p, served_session u u now))
      × (1 ≤ count_where (participant_is id) u.participants)
      × (u.submissions ≡ t.submissions)
unfolding upsert_participant direct upsert count_where find_where
upsert_participant-served id t work now =
    elim (Option-cases (find_where (participant_is id) t.participants)) [
      | inl new ↦
          let row : ParticipantRow = record { id = id; created_at = now; last_seen_at = now } in
          let last : count_where (participant_is id) (row ∷ []) ≡ 1 = rw (str_eq_refl id) refl in
          (
            record t { participants = t.participants ++ row ∷ [] },
            row,
            rw new refl,
            omega (arith, count_where-append (participant_is id) t.participants (row ∷ []), last),
            refl,
          )
      | inr (p, known) ↦ (
        record t {
          participants =
              update_where (participant_is id) (λ q. record q { last_seen_at = now })
                t.participants;
        },
        record p { last_seen_at = now },
        rw known refl,
        omega (
          arith,
          count-update_eq (participant_is id) (participant_is id)
              (λ q. record q { last_seen_at = now }) t.participants
              (All-intro _ t.participants (λ q h. refl)),
          found_count (participant_is id) t.participants p known,
        ),
        refl,
      )
    ]
