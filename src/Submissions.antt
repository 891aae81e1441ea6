-- ===== src/Submissions.antt =====
-- internal/submissions/submissions.go: the upload service, on the limiter's store, the disk and the
-- database. A multipart body is the list of what NextPart returns, ended by io.EOF.
mod State
pub mod Filenames
pub mod Readers
pub mod Chains
pub mod Parts
pub mod Reading
pub mod Taking
pub mod Succeeding
pub mod Creating
pub mod Moving
pub mod Checking
pub mod Uploading
pub mod Growing
pub mod Polling
pub mod Places
pub mod History
pub mod Tests
unfoldable pub use State.*
use model_lib.Base.{
  ℕ, Bool, true, false, not, ◌||◌, if◌then◌else◌, Option, none, some, List, [], ◌∷◌, Bytes, codes,
  str_eq, is_empty,
}
use model_lib.Database.{SubmissionRow, ParticipantRow, Session, Result}
use model_lib.Database.Lifecycle.{create_submission_queued, get_submission}
use model_lib.Database.Participants.{upsert_participant}
use model_lib.Identity.{verify_csrf_token, verify_origin}
use model_lib.Submissions.Filenames.{sanitize_filename}
use model_lib.Submissions.Readers.{strip_bom}
use model_lib.RateLimit.{KeyStore, allow_participant_submit, allow_ip_submit}
use model_lib.Storage.{
  Disk, Stored, SavedFile, remove, save_stream, commit, delete, validate_extension,
}

-- os.Remove of the temporary file, where there is one.
abbrev pub cleanup_temp : Bytes → Disk → Disk
cleanup_temp path d = if is_empty path then d else remove path d

-- cleanupTemp, and the error
abbrev pub give_up : {A : Type 0} → Upload → SubmissionError → Act A
give_up u e w = (err e, record w { disk = cleanup_temp u.tmp_path w.disk })

abbrev pub on_disk : {A : Type 0} → (Disk → Stored A × Disk) → World → Stored A × World
on_disk f w = ((f w.disk).0, record w { disk = (f w.disk).1 })

abbrev pub on_db : {A : Type 0} → (Session → Result A × Session) → World → Result A × World
on_db f w = ((f w.db).0, record w { db = (f w.db).1 })

-- The end of CreateSubmission: a row, or the removal of the committed source.
abbrev pub created :
    Bytes → Bytes → Upload → Result SubmissionRow × World → Answer CreateResult × World
created root key u (Result.ok row, w) =
    (ok (record { submission_id = row.id; status = row.status }), w)
created root key u (Result.err e, w) =
    give_up u (create_failed e) (record w { disk = (delete root key w.disk).1 })

abbrev pub on_stored :
    {A : Type 0} → Upload → (A → Act Upload) → Stored A × World → Answer Upload × World
on_stored u k (Stored.ok v, w) = k v w
on_stored u k (Stored.err e, w) = give_up u (store_failed e) w

abbrev pub committed : Upload → Stored (Unit {0}) × World → Answer Upload × World
committed u (Stored.ok _, w) = (ok (record u { tmp_path = [] }), w)
committed u (Stored.err e, w) = give_up u (store_failed e) w

abbrev pub upserted : Upload → Result ParticipantRow × World → Answer (Unit {0}) × World
upserted u (Result.ok _, w) = (ok tt, w)
upserted u (Result.err e, w) = give_up u (upsert_failed e) w

abbrev pub multipart : Option (List NextPart) → Act (List NextPart)
multipart none = fail not_multipart
multipart (some parts) = return parts

-- A saved part; the code asks again whether there is a temporary file already.
abbrev pub take_saved : Upload → SavedFile → Act Upload
take_saved u v w =
    if is_empty u.tmp_path
    then (ok (record u { tmp_path = v.path; source_size = v.size; source_sha256 = v.digest }), w)
    else give_up u both_sources (record w { disk = remove v.path w.disk })

module _ (sha : Bytes → Bytes) (max_source : ℕ) where
  unfoldable pub save_part : Part → Upload → Upload → Act Upload
  save_part x u v w =
      on_stored u (take_saved v)
        (on_disk (save_stream sha max_source x.temp (strip_bom x.content)) w)

  unfoldable pub take_text : Part → Upload → Act Upload
  take_text x u =
      if u.seen_text
      then give_up u multiple_text
      else if u.seen_file
      then give_up u both_sources
      else save_part x u (record u { seen_text = true })

  unfoldable pub take_file : Part → Upload → Act Upload
  take_file x u =
      if u.seen_file
      then give_up u multiple_files
      else if u.seen_text
      then give_up u both_sources
      else if validate_extension x.file_name
      then save_part x u
          (record u { source_file_name = sanitize_filename x.file_name; seen_file = true })
      else fail invalid_extension

  unfoldable pub take_part : Part → Upload → Act Upload
  take_part x u =
      if str_eq x.form_name (codes "source_text")
      then take_text x u
      else if str_eq x.form_name (codes "source_file")
      then take_file x u
      else if u.seen_text || u.seen_file
      then give_up u unknown_part
      else fail unknown_part

  -- The loop.
  unfoldable pub read_parts : List NextPart → Upload → Act Upload
  read_parts [] u = return u
  read_parts (too_large ∷ rest) u = give_up u body_too_large
  read_parts (broken ∷ rest) u = give_up u part_unreadable
  read_parts (part x ∷ rest) u = take_part x u >>= λ v. read_parts rest v

abbrev pub filename_of : Upload → Bytes
filename_of u = if u.seen_text then [] else u.source_file_name

abbrev pub after_checks :
    {Store A : Type 0} → Answer (Unit {0}) × Store → Act A → World → Answer A × Store × World
after_checks (ok _, s) k w = ((k w).0, s, (k w).1)
after_checks (err e, s) k w = (err e, s, w)

-- The limiter's verdict; the next test is made if it lets the request through.
abbrev pub limited :
    {Store : Type 0}
    → Option (Bool × ℕ) × Store
    → (Store → Answer (Unit {0}) × Store)
    → Answer (Unit {0}) × Store
limited (none, s) k = (err rate_check_failed, s)
limited (some (true, _), s) k = k s
limited (some (false, n), s) k = (err (rate_limited n), s)

abbrev pub at_least_one : Upload → Act (Unit {0})
at_least_one u = if u.seen_text || u.seen_file then return tt else give_up u no_source

module _ (mac : Bytes → Bytes → Bytes) (sha : Bytes → Bytes) (S : Service) where
  abbrev pub upsert_owner : Submit → Upload → Act (Unit {0})
  upsert_owner q u w = upserted u (on_db (upsert_participant q.participant) w)

  abbrev pub commit_source : Submit → Upload → Act Upload
  commit_source q u w =
      committed u (on_disk (commit S.root (storage_key q.submission_id) u.tmp_path) w)

  abbrev pub queue_submission : Submit → Upload → Act CreateResult
  queue_submission q u w = created S.root (storage_key q.submission_id) u (
      on_db
        (create_submission_queued q.submission_id q.participant (filename_of u)
          (storage_key q.submission_id) u.source_size u.source_sha256 S.queue_max_depth
          S.max_queued_per_participant)
        w)

  -- CreateSubmission after the loop
  unfoldable pub store_upload : Submit → Upload → Act CreateResult
  store_upload q u = do
    at_least_one u
    upsert_owner q u
    v ← commit_source q u
    queue_submission q v

  -- CreateSubmission behind the limits
  unfoldable pub upload : Submit → Act CreateResult
  upload q = do
    parts ← multipart q.body
    u ← read_parts sha S.max_source_bytes parts no_upload
    store_upload q u

  module _ (K : KeyStore) where
    open K use {Store}

    -- The tests before the body is read.
    unfoldable pub check_request : Submit → Store → Answer (Unit {0}) × Store
    check_request q s =
        if not (verify_csrf_token mac S.provider q.now q.now_ns q.request)
        then (err csrf_invalid, s)
        else if not (verify_origin S.provider q.request)
        then (err origin_not_allowed, s)
        else limited
            (allow_participant_submit K q.participant S.submit_rate_per_minute
              S.submit_rate_per_hour q.limiter_now q.redis_clock q.by_minute q.by_hour s)
            (λ t.
              limited
                (allow_ip_submit K q.client_ip S.ip_submit_rate_per_minute q.limiter_now
                  q.redis_clock q.by_ip t)
                (λ u. (ok tt, u)))

    -- CreateSubmission
    unfoldable pub create_submission : Submit → Store → World → Answer CreateResult × Store × World
    create_submission q s w = after_checks (check_request q s) (upload q) w

abbrev pub owned : Result (Option SubmissionRow) → Answer SubmissionResult
owned (Result.ok (some row)) = ok (submission_result row)
owned (Result.ok none) = err not_owned
owned (Result.err e) = err (lookup_failed e)

-- GetSubmission
unfoldable pub lookup_submission : Bytes → Bytes → Session → Answer SubmissionResult × Session
lookup_submission id participant s =
    let (found, t) = get_submission id participant s in (owned found, t)
