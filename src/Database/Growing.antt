-- ===== src/Database/Growing.antt =====
-- internal/database/database.go: CreateSubmissionQueued and UpsertParticipant only add submissions.
use mathlib.Core.List.{append-nil, append_assoc}
use model_lib.Base.{
  ℕ, ◌≤◌, true, arith, str_eq, All, All-mono, count_where-append, count_where-le, ◌≡◌, refl, sym,
  ap, ◌∙◌, ◌||◌, some, List, [], ◌∷◌, ◌++◌, Bytes, count_where,
}
use model_lib.Base.Int.{ℤ, pos, leb_ℤ}
use model_lib.Database.{Tables, SubmissionRow, ParticipantRow, Session, transaction}
use model_lib.Database.Statements.{
  has_id, admissible, new_submission, insert_submission, insert_event, active, queued_of,
}
use model_lib.Database.Calls.{upsert-rows}
use model_lib.Database.Lifecycle.{create_locked, create_submission_queued}
use model_lib.Database.Participants.{upsert, upsert_participant}
use model_lib.Database.Rules.{
  Answer, begin_rule, commit_rule, statement_rule, select_rule, if_rule, direct_last,
}
use model_lib.Database.Placing.{insert_submission-some, insert_event-some}

-- No row has the id of `r`.
abbrev pub IsNew : Tables → SubmissionRow → Type 0
IsNew t r = count_where (has_id r.id) t.submissions ≡ 0

-- The rows of `u` are those of `t`, as they were, and some more under other ids.
abbrev pub Grows : Tables → Tables → Type 0
Grows t u =
    (added : List SubmissionRow) × (u.submissions ≡ t.submissions ++ added) × All (IsNew t) added

pub Grows-refl : (t u : Tables) → u.submissions ≡ t.submissions → Grows t u
Grows-refl t u h = ([], h ∙ sym (append-nil t.submissions), tt)

All-append : {A : Type 0} (P : A → Type 0) (xs ys : List A) → All P xs → All P ys → All P (xs ++ ys)
All-append P [] ys h k = k
All-append P (x ∷ xs) ys (h, hs) k = (h, All-append P xs ys hs k)

pub Grows-trans : (t u v : Tables) → Grows t u → Grows u v → Grows t v
Grows-trans t u v (a, g, new) (b, h, newer) = (
  a ++ b,
  h ∙ ap (λ (x : List SubmissionRow). x ++ b) g ∙ append_assoc t.submissions a b,
  All-append (IsNew t) a b new (All-mono (IsNew u) (IsNew t) b before newer),
)
  where
    before : (r : SubmissionRow) → IsNew u r → IsNew t r
    before r none_later =
        let split = count_where-append (has_id r.id) t.submissions a in
        let rows = ap (λ (x : List SubmissionRow). count_where (has_id r.id) x) g in
        omega (arith, split, rows, none_later)

-- No row has the id of an admissible row.
pub admissible-IsNew : (r : SubmissionRow) (t : Tables) → admissible r t ≡ true → IsNew t r
unfolding admissible
admissible-IsNew r t h =
    let few : count_where (has_id r.id) t.submissions
        ≤ count_where (λ q. str_eq q.id r.id || str_eq q.source_storage_key r.source_storage_key)
            t.submissions =
      count_where-le (has_id r.id) _ t.submissions (λ q e. rw e refl) in
    ground arith

module _ (id participant filename key : Bytes) (size : ℕ) (sha : Bytes) (max_active max_queued : ℤ)
    (start : Tables) where
  abbrev Q : Answer SubmissionRow → Type 0
  Q x = Grows start x.1.committed

  create_locked-Grows :
      (s : Session)
      → s.work ≡ start
      → s.committed ≡ start
      → Grows start
          (create_locked id participant filename key size sha max_active max_queued s).1.committed
  unfolding create_locked
  create_locked-Grows s fresh old =
      select_rule Q s _ _ (λ e. kept)
        (if_rule Q (leb_ℤ max_active (pos (count_where active s.work.submissions))) _ _ _
          (λ _. kept)
          λ _.
            select_rule Q _ _ _ (λ e. kept)
              (if_rule Q
                (leb_ℤ max_queued (pos (count_where (queued_of participant) s.work.submissions))) _
                _ _ (λ _. kept)
                λ _.
                  statement_rule Q _
                    (insert_submission (new_submission id participant filename key size sha)) _
                    (λ e. kept)
                    λ t r inserted.
                      statement_rule Q _ (insert_event id) _ (λ e. kept)
                        λ u a noted.
                          commit_rule Q _ _ (λ e. kept) (λ e. one_more t u r a inserted noted)
                            (one_more t u r a inserted noted)))
    where
      kept : Grows start s.committed
      kept = Grows-refl start s.committed (ap (λ (b : Tables). b.submissions) old)

      one_more :
          (t u : Tables) (r : SubmissionRow) (a : Unit {0})
          → insert_submission (new_submission id participant filename key size sha) s.now s.work
            ≡ some (t, r)
          → insert_event id s.now t ≡ some (u, a)
          → Grows start u
      one_more t u r a inserted noted =
          let (fits, _, rows) =
            insert_submission-some (new_submission id participant filename key size sha) s.now
              s.work t r inserted in
          (
            r ∷ [],
            ap (λ (b : Tables). b.submissions) (insert_event-some id s.now t u a noted)
                ∙ ap (λ (b : Tables). b.submissions) rows
                ∙ ap (λ (b : Tables). b.submissions ++ r ∷ []) fresh,
            (admissible-IsNew r start (sym (ap (λ (b : Tables). admissible r b) fresh) ∙ fits), tt),
          )

  pub create_submission_queued-Grows :
      (s : Session)
      → s.committed ≡ start
      → Grows start
          (create_submission_queued id participant filename key size sha max_active max_queued
            s).1.committed
  unfolding create_submission_queued transaction
  create_submission_queued-Grows s old =
      if_rule Q (leb_ℤ max_active (pos 0) || leb_ℤ max_queued (pos 0)) _ _ _ (λ _. kept)
        λ _.
          begin_rule Q s _ (λ e. kept)
            (select_rule Q _ _ _ (λ e. kept)
              (select_rule Q _ _ _ (λ e. kept) (create_locked-Grows _ old old)))
    where
      kept : Grows start s.committed
      kept = Grows-refl start s.committed (ap (λ (b : Tables). b.submissions) old)

pub upsert_participant-Grows :
    (id : Bytes) (s : Session) → Grows s.committed (upsert_participant id s).1.committed
unfolding upsert_participant
upsert_participant-Grows id s =
    direct_last (λ (x : Answer ParticipantRow). Grows s.committed x.1.committed) s (upsert id)
      (λ e. Grows-refl s.committed s.committed refl)
      (λ t p r made.
        Grows-refl s.committed t
          (ap (λ (b : Tables). b.submissions) (upsert-rows id s.now s.committed t p made)))
