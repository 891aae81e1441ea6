-- ===== src/Database/Participants.antt =====
-- internal/database/database.go: UpsertParticipant, and ListStaleProcessing.
use model_lib.Base.{
  ℕ, Bool, true, false, ◌&&◌, Option, none, some, List, [], ◌∷◌, ◌++◌, Bytes, leb, if◌then◌else◌,
  find_where, update_where, str_eq, map, take,
}
use model_lib.Database.{Tables, ParticipantRow, SubmissionRow, Sql, direct}
use model_lib.Database.Statements.{is_processing, started_by, select}

abbrev pub participant_is : Bytes → ParticipantRow → Bool
participant_is id p = str_eq p.id id

-- INSERT … ON CONFLICT (id) DO UPDATE SET last_seen_at = NOW()
unfoldable pub upsert : Bytes → ℕ → Tables → Option (Tables × ParticipantRow)
upsert id now t = elim (find_where (participant_is id) t.participants) [
  | none ↦
      let row : ParticipantRow = record { id = id; created_at = now; last_seen_at = now } in
      some (record t { participants = t.participants ++ row ∷ [] }, row)
  | some p ↦ some (
    record t {
      participants =
          update_where (participant_is id) (λ q. record q { last_seen_at = now }) t.participants;
    },
    record p { last_seen_at = now },
  )
]

unfoldable pub upsert_participant : Bytes → Sql ParticipantRow
upsert_participant id = direct (upsert id)

abbrev pub is_stale : ℕ → SubmissionRow → Bool
is_stale before r = is_processing r.status && started_by before r.started_at

-- ORDER BY started_at; a row without one sorts last, and is never stale.
abbrev pub starts_no_later : SubmissionRow → SubmissionRow → Bool
starts_no_later r q = elim r.started_at [
  | none ↦ false
  | some a ↦ elim q.started_at [ none ↦ true | some b ↦ leb a b ]
]

unfoldable pub insert_by_start : SubmissionRow → List SubmissionRow → List SubmissionRow
insert_by_start r [] = r ∷ []
insert_by_start r (q ∷ rest) =
    if starts_no_later r q then r ∷ q ∷ rest else q ∷ insert_by_start r rest

unfoldable pub stale_rows : ℕ → List SubmissionRow → List SubmissionRow
stale_rows before [] = []
stale_rows before (r ∷ rest) =
    let others = stale_rows before rest in
    if is_stale before r then insert_by_start r others else others

unfoldable pub list_stale_processing : ℕ → ℕ → Sql (List Bytes)
list_stale_processing before limit =
    direct (select λ t. map (λ r. r.id) (take limit (stale_rows before t.submissions)))
