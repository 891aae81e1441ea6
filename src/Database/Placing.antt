-- ===== src/Database/Placing.antt =====
-- internal/database/database.go, CreateSubmissionQueued behind its locks, against the changes of
-- Database/Change.
use model_lib.Base.{
  ℕ, ◌<◌, ◌∙◌, ◌≡◌, refl, arith, true, false, some, [], ◌∷◌, ◌++◌, Bytes, count_where,
}
use model_lib.Base.Int.{ℤ, pos, leb_ℤ, pos_part}
use model_lib.Database.{Tables, Session, SubmissionRow}
use model_lib.Database.Statements.{
  active, queued_of, new_submission, insert_submission, insert_event, with_event, admissible,
}
use model_lib.Database.Lifecycle.{create_locked}
use model_lib.Database.Change.{Limits, with_rows, Change, unchanged, created}
use model_lib.Database.Rules.{Answer, commit_rule, statement_rule, select_rule, if_rule}

-- The committed tables `c` before a call, and after it.
pub record Changes {A : Type 0} (lim : Limits) (c : Tables) (x : Answer A) : Type 0 where
  pub change : Change lim c x.1.committed

pub no_change :
    {A : Type 0} {lim : Limits} {c : Tables} {x : Answer A} → x.1.committed ≡ c → Changes lim c x
no_change e = record { change = unchanged e }

pub below_of_room : (max : ℤ) (n : ℕ) → leb_ℤ max (pos n) ≡ false → n < pos_part max
below_of_room max n h = ground arith

pub insert_submission-some :
    (row : ℕ → SubmissionRow) (now : ℕ) (t u : Tables) (r : SubmissionRow)
    → insert_submission row now t ≡ some (u, r)
    → (admissible r t ≡ true) × (r ≡ row now) × (u ≡ with_rows t (t.submissions ++ r ∷ []))
insert_submission-some row now t u r e = ground arith

pub insert_event-some :
    (id : Bytes) (now : ℕ) (t u : Tables) (a : Unit {0})
    → insert_event id now t ≡ some (u, a)
    → u ≡ with_event id now t
insert_event-some id now t u a e = ground arith

-- The two INSERTs of a creation that found room.
inserted-Change :
    (lim : Limits) (id participant filename key : Bytes) (size : ℕ) (sha : Bytes) (now : ℕ)
    (c t u : Tables) (r : SubmissionRow) (a : Unit {0})
    → leb_ℤ lim.max_active (pos (count_where active c.submissions)) ≡ false
    → leb_ℤ lim.max_queued (pos (count_where (queued_of participant) c.submissions)) ≡ false
    → insert_submission (new_submission id participant filename key size sha) now c ≡ some (t, r)
    → insert_event id now t ≡ some (u, a)
    → Change lim c u
inserted-Change lim id participant filename key size sha now c t u r a room quota inserted noted =
    let (fits, made, rows) =
      insert_submission-some (new_submission id participant filename key size sha) now c t r
        inserted in
    created r now (rw made refl) (below_of_room lim.max_active _ room)
      (rw made (below_of_room lim.max_queued _ quota)) fits
      (insert_event-some id now t u a noted ∙ rw (rows, made) refl)

pub create_locked-Changes :
    (lim : Limits) (id participant filename key : Bytes) (size : ℕ) (sha : Bytes) (s : Session)
    → s.work ≡ s.committed
    → Changes lim s.committed
        (create_locked id participant filename key size sha lim.max_active lim.max_queued s)
unfolding create_locked
create_locked-Changes lim id participant filename key size sha s fresh =
    select_rule Q s _ _ (λ e. no_change refl)
      (if_rule Q (leb_ℤ lim.max_active (pos (count_where active rows))) _ _ _ (λ _. no_change refl)
        λ room.
          select_rule Q _ _ _ (λ e. no_change refl)
            (if_rule Q (leb_ℤ lim.max_queued (pos (count_where (queued_of participant) rows))) _ _ _
              (λ _. no_change refl)
              λ quota.
                statement_rule Q _
                  (insert_submission (new_submission id participant filename key size sha)) _
                  (λ e. no_change refl)
                  λ t r inserted.
                    statement_rule Q _ (insert_event id) _ (λ e. no_change refl)
                      λ u a noted.
                        let made =
                          inserted-Change lim id participant filename key size sha s.now s.work t u
                            r a room quota inserted noted in
                        let change = rw fresh at made in
                        commit_rule Q _ _ (λ e. no_change refl) (λ e. record { change = change })
                          (record { change = change })))
  where
    open s.work use {submissions as rows}

    Q : Answer SubmissionRow → Type 0
    Q = Changes lim s.committed
