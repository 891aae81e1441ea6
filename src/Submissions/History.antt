-- ===== src/Submissions/History.antt =====
-- CreateSubmission, called again and again: what was accepted stays.
use model_lib.Base.{
  ◌≡◌, ◌≢◌, none, inr, refl, sym, ap, ◌∙◌, Option, some, List, [], ◌∷◌, Bytes, All,
}
use model_lib.Database.Growing.{Grows, Grows-refl, Grows-trans}
use model_lib.RateLimit.{KeyStore}
use model_lib.Storage.{safe_path}
use model_lib.Submissions.{
  Answer, ok, err, Submit, Service, World, CreateResult, storage_key, create_submission,
}
use model_lib.Submissions.Creating.{AcceptedFacts, IsElsewhere, body_parts}
use model_lib.Submissions.Places.{place-same}
use model_lib.Submissions.Growing.{create_submission-Grows}
use model_lib.Submissions.Parts.{IsFresh}
use model_lib.Submissions.Polling.{PolledFacts, accepted-PolledFacts}
use model_lib.Submissions.Uploading.{CreateFacts, create_submission-CreateFacts}

module _ (mac : Bytes → Bytes → Bytes) (sha : Bytes → Bytes) (S : Service) (K : KeyStore) where
  open K use {Store}

  -- Calls of CreateSubmission in sequence, whatever each answers.
  abbrev pub create_all : List Submit → Store → World → Store × World
  create_all [] s w = (s, w)
  create_all (q ∷ qs) s w =
      let (answer, t, v) = create_submission mac sha S K q s w in create_all qs t v

  -- Each call has another id than `id`, a place for its source, new temporary names, and no temporary
  -- name that is its place.
  abbrev pub IsApart : Bytes → List Submit → Store → World → Type 0
  IsApart id [] s w = Unit
  IsApart id (q ∷ qs) s w =
      ((path : Bytes) × (safe_path S.root (storage_key q.submission_id) ≡ some path)
        × (q.submission_id ≢ id)
        × All (IsFresh w.disk) (body_parts q.body)
        × All (IsElsewhere path) (body_parts q.body))
      × IsApart id qs (create_submission mac sha S K q s w).1
          (create_submission mac sha S K q s w).2

  something : (c : Bytes) → some c ≡ none → ⊥
  something c e = cc e

  call_keeps :
      (q : Submit) (s : Store) (w : World) (path kept : Bytes)
      → safe_path S.root (storage_key q.submission_id) ≡ some path
      → path ≢ kept
      → w.disk.files kept ≢ none
      → All (IsFresh w.disk) (body_parts q.body)
      → All (IsElsewhere path) (body_parts q.body)
      → (create_submission mac sha S K q s w).2.disk.files kept ≡ w.disk.files kept
  call_keeps q s w path kept at other there fresh elsewhere =
      by (create_submission mac sha S K q s w)
        (create_submission-CreateFacts mac sha S K q path s w at fresh elsewhere)
    where
      by :
          (y : Answer CreateResult × Store × World)
          → CreateFacts mac sha S K q path s w y
          → y.2.disk.files kept ≡ w.disk.files kept
      by (ok r, t, v) facts = AcceptedFacts.others (facts.done r refl).1 kept other
      by (err e, t, v) facts = facts.left e refl kept (inr there) other

  create_all-keeps :
      (id kept : Bytes) (qs : List Submit) (s : Store) (w : World)
      → safe_path S.root (storage_key id) ≡ some kept
      → w.disk.files kept ≢ none
      → IsApart id qs s w
      → ((create_all qs s w).1.disk.files kept ≡ w.disk.files kept)
        × Grows w.db.committed (create_all qs s w).1.db.committed
  create_all-keeps id kept [] s w at there h = (refl, Grows-refl w.db.committed w.db.committed refl)
  create_all-keeps id kept (q ∷ qs) s w at there ((path, place, other, fresh, elsewhere), rest) =
      let apart : path ≢ kept = λ e.
        other
          (place-same S.root q.submission_id id kept (place ∙ ap {B = Option Bytes} some e) at) in
      let stays = call_keeps q s w path kept place apart there fresh elsewhere in
      let later =
        create_all-keeps id kept qs (create_submission mac sha S K q s w).1
          (create_submission mac sha S K q s w).2 at (λ e. there (sym stays ∙ e)) rest in
      (
        later.0 ∙ stays,
        Grows-trans w.db.committed (create_submission mac sha S K q s w).2.db.committed
            (create_all (q ∷ qs) s w).1.db.committed (create_submission-Grows mac sha S q K s w)
            later.1,
      )

  -- What CreateSubmission has accepted stays: after any further calls of it, of any participants and with any
  -- answers, errors included, the source is on the disk, GetSubmission shows the row to its owner, as it
  -- was made, and to no other participant. Each call has a new id, its key has a path, its temporary
  -- names are new, and the database serves the lookups.
  pub create_all-PolledFacts :
      (q : Submit) (path : Bytes) (s : Store) (start : World) (r : CreateResult) (qs : List Submit)
      → safe_path S.root (storage_key q.submission_id) ≡ some path
      → All (IsFresh start.disk) (body_parts q.body)
      → All (IsElsewhere path) (body_parts q.body)
      → (create_submission mac sha S K q s start).0 ≡ ok r
      → IsApart q.submission_id qs
          (create_submission mac sha S K q s start).1
          (create_submission mac sha S K q s start).2
      → PolledFacts sha q path start r (create_all (q ∷ qs) s start).1
  create_all-PolledFacts q path s start r qs at fresh elsewhere answered apart =
      let facts = create_submission-CreateFacts mac sha S K q path s start at fresh elsewhere in
      let accepted = (facts.done r answered).1 in
      let there : (create_submission mac sha S K q s start).2.disk.files path ≢ none =
        λ e. something accepted.content (sym (AcceptedFacts.stored accepted) ∙ e) in
      let later =
        create_all-keeps q.submission_id path qs (create_submission mac sha S K q s start).1
          (create_submission mac sha S K q s start).2 at there apart in
      accepted-PolledFacts mac sha S q path start r (create_submission mac sha S K q s start).2
        (create_all (q ∷ qs) s start).1 accepted later.0 later.1
