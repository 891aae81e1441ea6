-- ===== src/Submissions/Moving.antt =====
-- CreateSubmission, from the commit of the source on.
use mathlib.Core.Path.{subst}
use model_lib.Base.{
  ℕ, ◌≤◌, ◌≡◌, ◌≢◌, refl, sym, ap, ◌∙◌, inl, inr, false, none, some, [], ◌∷◌, Bytes, str_eq,
  str_eq_iff, is_empty, Bool-cases,
}
use model_lib.Storage.{Disk, Stored, safe_path}
use model_lib.Storage.Saving.{KeptFacts}
use model_lib.Storage.Committing.{CommitFacts, commit-CommitFacts}
use model_lib.Submissions.{
  World, Part, part, Upload, Service, Submit, storage_key, resume, ◌>>=◌, committed, commit_source,
  queue_submission,
}
use model_lib.Submissions.Parts.{removed_files, KindFacts, saved_file, text, file}
use model_lib.Submissions.Creating.{
  UploadFacts, refused-UploadFacts, queue-UploadFacts, true_is_not_false,
}

module _ (mac : Bytes → Bytes → Bytes) (sha : Bytes → Bytes) (S : Service) (q : Submit)
    (path : Bytes) (start : World) where
  pub commit-UploadFacts :
      (x : Part) (u : Upload) (w : World)
      → q.body ≡ some (part x ∷ [])
      → safe_path S.root (storage_key q.submission_id) ≡ some path
      → path ≢ x.temp
      → KindFacts x u
      → is_empty u.tmp_path ≡ false
      → u.tmp_path ≡ x.temp
      → start.disk.files x.temp ≡ none
      → ((k : Bytes) → x.temp ≢ k → w.disk.files k ≡ start.disk.files k)
      → (start.disk.removals ≡ [] → w.disk.removals ≡ [])
      → KeptFacts sha S.max_source_bytes x.temp (saved_file u) w.disk
      → w.db.committed ≡ record start.db.committed { participants = w.db.committed.participants }
      → w.db.now ≡ start.db.now
      → UploadFacts mac sha S q path start
          ((commit_source mac sha S q u >>= queue_submission mac sha S q) w)
  commit-UploadFacts x u w body at elsewhere kind named place new others still kept visit
        same_time =
      ended _ _
        (commit-CommitFacts S.root (storage_key q.submission_id) path u.tmp_path w.disk at named)
    where
      apart : path ≢ u.tmp_path
      apart e = elsewhere (e ∙ place)

      moved_files :
          (d : Disk)
          → CommitFacts path u.tmp_path w.disk (Stored.ok tt, d)
          → (k : Bytes) → path ≢ k
          → d.files k ≡ start.disk.files k
      moved_files d facts k other = elim (Bool-cases (str_eq u.tmp_path k)) [
        | inl same ↦
            let here : u.tmp_path ≡ k = (str_eq_iff u.tmp_path k).0 same in
            ap d.files (sym here)
            ∙ facts.left refl apart
            ∙ sym new
            ∙ ap start.disk.files (sym place ∙ here)
        | inr differs ↦
            facts.others k other (λ e. is_other e differs)
            ∙ others k (λ e. is_other (place ∙ e) differs)
      ]
        where
          is_other : u.tmp_path ≡ k → str_eq u.tmp_path k ≡ false → ⊥
          is_other e h = true_is_not_false (sym ((str_eq_iff u.tmp_path k).1 e) ∙ h)

      ended :
          (r : Stored (Unit {0})) (d : Disk)
          → CommitFacts path u.tmp_path w.disk (r, d)
          → UploadFacts mac sha S q path start (
              resume
                (committed u (r, record w { disk = d })).0
                (committed u (r, record w { disk = d })).1
                (queue_submission mac sha S q))
      ended (Stored.err e) d facts = refused-UploadFacts mac sha S q path start _ _ λ k safe other.
          removed_files sha S.max_source_bytes start x u d named place new
            (λ calm. facts.still (still calm)) k safe
            (λ differs. facts.others k other (λ e. differs (sym place ∙ e)) ∙ others k differs)
      ended (Stored.ok t) d facts =
          queue-UploadFacts mac sha S q path start x (record u { tmp_path = [] })
            (record w { disk = d }) at
            (record {
              body = body;
              kind = moved_kind kind;
              content = kept.content;
              moved = facts.moved refl ∙ ap w.disk.files place ∙ kept.here;
              size = kept.size;
              digest = kept.digest;
              fits = subst (λ (n : ℕ). n ≤ S.max_source_bytes) kept.size kept.fits;
              no_nul = kept.no_nul;
              visible = kept.visible;
              gone = refl;
              files = moved_files d facts;
            })
            visit same_time
        where
          moved_kind : KindFacts x u → KindFacts x (record u { tmp_path = [] })
          moved_kind (text is name) = text is name
          moved_kind (file is extension name) = file is extension name
