-- ===== src/Submissions/Succeeding.antt =====
-- CreateSubmission answers a valid upload with its submission.
use mathlib.Core.Path.{subst}
use model_lib.Base.{
  ℕ, ◌≤◌, ◌≡◌, ◌≢◌, refl, sym, ap, ◌∙◌, arith, true, false, ◌||◌, some, none, Option, List, [], ◌∷◌,
  Bytes, length, any_of, str_eq, is_empty, count_where,
}
use model_lib.Base.Int.{pos, leb_ℤ}
use model_lib.Database.{Tables, Result, Session, queued}
use model_lib.Database.Lifecycle.{create_submission_queued}
use model_lib.Database.Participants.{participant_is, upsert_participant}
use model_lib.Database.Serving.{
  served_session, create_submission_queued-served, upsert_participant-served,
}
use model_lib.Database.Statements.{active, queued_of, admissible, new_submission}
use model_lib.RateLimit.{KeyStore}
use model_lib.Storage.{Stored, commit, safe_path, is_nul, is_visible}
use model_lib.Storage.Accepting.{whole, IsUnbroken}
use model_lib.Storage.Calm.{commit-done}
use model_lib.Submissions.{
  Answer, ok, World, NextPart, multipart, Act, Part, part, Upload, no_upload, Service, Submit,
  CreateResult, storage_key, filename_of, ◌>>=◌, read_parts, store_upload, upload, check_request,
  create_submission, queue_submission,
}
use model_lib.Submissions.Reading.{read_parts-ReadFacts}
use model_lib.Submissions.Parts.{HoldingFacts, ReadFacts, refused, empty, held}
use model_lib.Submissions.Readers.{without_bom}
use model_lib.Submissions.Taking.{AcceptedKind, read_parts-TakenFacts}

after_ok :
    {A B : Type 0} (m : Act A) (k : A → Act B) (w : World) (a : A)
    → (m w).0 ≡ ok a
    → (m >>= k) w ≡ k a (m w).1
after_ok m k w a h = rw h refl

part_same : (x y : Part) → part x ∷ [] ≡ part y ∷ [] → x ≡ y
part_same x y h = cc h

upload_same : (u v : Upload) → Answer.ok u ≡ ok v → u ≡ v
upload_same u v h = cc h

-- Room for one more submission, and no row in its way.
pub record RoomFacts (S : Service) (q : Submit) (t : Tables) : Type 0 where
  pub system : leb_ℤ S.queue_max_depth (pos (count_where active t.submissions)) ≡ false
  pub quota :
      leb_ℤ S.max_queued_per_participant (pos (count_where (queued_of q.participant) t.submissions))
      ≡ false
  pub new :
      count_where
        (λ r.
          str_eq r.id q.submission_id || str_eq r.source_storage_key (storage_key q.submission_id))
        t.submissions
      ≡ 0

module _ (mac : Bytes → Bytes → Bytes) (sha : Bytes → Bytes) (S : Service) (q : Submit)
    (path : Bytes) (t work : Tables) (now : ℕ) (room : RoomFacts S q t) where
  queue-succeeds :
      (u : Upload) (w : World) (z : Tables)
      → w.db ≡ served_session z z now
      → z.submissions ≡ t.submissions
      → 1 ≤ count_where (participant_is q.participant) z.participants
      → (queue_submission mac sha S q u w).0
        ≡ ok (record { submission_id = q.submission_id; status = queued })
  unfolding admissible
  queue-succeeds u w z db same known =
      let fits : admissible
            (new_submission q.submission_id q.participant (filename_of u)
              (storage_key q.submission_id) u.source_size u.source_sha256 now)
            z
          ≡ true =
        rw same (rw room.new (ground arith)) in
      rw
        (ap
            (λ (s : Session).
              (create_submission_queued q.submission_id q.participant (filename_of u)
                (storage_key q.submission_id) u.source_size u.source_sha256 S.queue_max_depth
                S.max_queued_per_participant s).0)
            db
          ∙ create_submission_queued-served q.submission_id q.participant (filename_of u)
              (storage_key q.submission_id) u.source_size u.source_sha256 S.queue_max_depth
              S.max_queued_per_participant z z now (rw same room.system) (rw same room.quota) fits)
        refl

  store-succeeds :
      (x : Part) (u : Upload) (w start : World) (content : Bytes)
      → safe_path S.root (storage_key q.submission_id) ≡ some path
      → (u.seen_text || u.seen_file) ≡ true
      → is_empty u.tmp_path ≡ false
      → w.disk.faults ≡ []
      → w.disk.files u.tmp_path ≡ some content
      → w.disk.files path ≡ none
      → w.db ≡ served_session t work now
      → (store_upload mac sha S q u w).0
        ≡ ok (record { submission_id = q.submission_id; status = queued })
  unfolding store_upload
  store-succeeds x u w start content at seen named calm here free db =
      let (z, p, upserted_to, known, same) = upsert_participant-served q.participant t work now in
      let visited : upsert_participant q.participant w.db ≡ (Result.ok p, served_session z z now) =
        ap (upsert_participant q.participant) db ∙ upserted_to in
      let moved : (commit S.root (storage_key q.submission_id) u.tmp_path w.disk).0 ≡ Stored.ok tt =
        commit-done S.root (storage_key q.submission_id) path u.tmp_path content w.disk at named
          calm here free in
      rw seen (
        rw visited (
          rw moved (
            queue-succeeds (record u { tmp_path = [] })
              (record {
                disk = (commit S.root (storage_key q.submission_id) u.tmp_path w.disk).1;
                db = served_session z z now;
              })
              z refl same known)))

-- A valid upload is answered with its id and the status queued. The request passes the tests; its
-- body is one part, a text or a file with the suffix .c, in whatever pieces and without a failing
-- read, with io.EOF on its last bytes or behind them, whose source without a byte order mark is
-- within the limit, has no NUL byte and is not blank; the disk has no faults, the driver serves
-- every call, both queue limits have room, the id and its place are new, and so is the temporary
-- name.
pub create_submission-succeeds :
    (mac : Bytes → Bytes → Bytes) (sha : Bytes → Bytes) (S : Service) (K : KeyStore) (q : Submit)
    (path : Bytes) (s : KeyStore.Store K) (start : World) (t work : Tables) (now : ℕ) (x : Part)
    → (check_request mac sha S K q s).0 ≡ ok tt
    → q.body ≡ some (part x ∷ [])
    → AcceptedKind x
    → IsUnbroken x.content
    → length (without_bom (whole x.content)) ≤ S.max_source_bytes
    → any_of is_nul (without_bom (whole x.content)) ≡ false
    → any_of is_visible (without_bom (whole x.content)) ≡ true
    → start.disk.faults ≡ []
    → start.db ≡ served_session t work now
    → RoomFacts S q t
    → safe_path S.root (storage_key q.submission_id) ≡ some path
    → start.disk.files path ≡ none
    → is_empty x.temp ≡ false
    → start.disk.files x.temp ≡ none
    → x.temp ≢ path
    → (create_submission mac sha S K q s start).0
      ≡ ok (record { submission_id = q.submission_id; status = queued })
unfolding create_submission upload
create_submission-succeeds mac sha S K q path s start t work now x passed body kind unbroken fits
      no_nul visible calm db room at free named new elsewhere =
    let taken =
      read_parts-TakenFacts sha S.max_source_bytes start x kind unbroken calm fits no_nul visible in
    let facts =
      held_of (read_parts-ReadFacts sha S.max_source_bytes start (part x ∷ []) ((named, new), tt))
        taken.u taken.done in
    let read = read_parts sha S.max_source_bytes (part x ∷ []) no_upload in
    rw passed (
      ap (λ (y : Answer CreateResult × World). y.0)
        (upload_of q.body body ∙ after_ok read (store_upload mac sha S q) start taken.u taken.done)
      ∙ store-succeeds mac sha S q path t work now room x taken.u (read start).1 start
          facts.kept.content at facts.seen facts.named taken.calm
          (ap (read start).1.disk.files facts.place ∙ facts.kept.here)
          (facts.others path elsewhere ∙ free) (facts.db ∙ db))
  where
    upload_of :
        (b : Option (List NextPart))
        → b ≡ some (part x ∷ [])
        → (multipart b >>= λ parts.
              read_parts sha S.max_source_bytes parts no_upload >>= store_upload mac sha S q)
            start
          ≡ (read_parts sha S.max_source_bytes (part x ∷ []) no_upload >>= store_upload mac sha S q)
              start
    upload_of b e = rw e refl

    held_of :
        ReadFacts sha S.max_source_bytes start
          (part x ∷ [])
          (read_parts sha S.max_source_bytes (part x ∷ []) no_upload start)
        → (u : Upload) → (read_parts sha S.max_source_bytes (part x ∷ []) no_upload start).0 ≡ ok u
        → HoldingFacts sha S.max_source_bytes start x u
            (read_parts sha S.max_source_bytes (part x ∷ []) no_upload start).1
    held_of (refused clean) u done = cc (done, clean.failed)
    held_of (empty no_parts _ _) u done = cc no_parts
    held_of (held y v one found h) u done =
        let same_part : y ≡ x = part_same y x (sym one) in
        let same : v ≡ u = upload_same v u (sym found ∙ done) in
        subst
          (λ (a : Part).
            HoldingFacts sha S.max_source_bytes start a u
              (read_parts sha S.max_source_bytes (part x ∷ []) no_upload start).1)
          same_part
          (subst
            (λ (b : Upload).
              HoldingFacts sha S.max_source_bytes start y b
                (read_parts sha S.max_source_bytes (part x ∷ []) no_upload start).1)
            same h)
