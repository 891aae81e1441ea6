-- ===== src/Storage/Committing.antt =====
-- Commit on every branch, and the round trip with Read.
use model_lib.Base.{
  ◌≡◌, ◌≢◌, refl, sym, ap, ◌∙◌, arith, true, false, not, ◌&&◌, ◌||◌, Option, none, some, [], Bytes,
  is_empty, if_cases,
}
use model_lib.Storage.Removing.{put-here, put-other, remove-gone, remove-other, remove-still}
use model_lib.Storage.{
  remove, Disk, StorageError, Stored, ok, err, put, called, fails, exists, renamed, commit,
  commit_to, commit_by, safe_path, read, already_exists, io_failed,
}

-- What Commit leaves on the disk, with the path of its key.
pub record CommitFacts (path temp : Bytes) (d : Disk) (x : Stored (Unit {0}) × Disk) : Type 0 where
  pub others : (k : Bytes) → path ≢ k → temp ≢ k → x.1.files k ≡ d.files k
  pub moved : x.0 ≡ ok tt → x.1.files path ≡ d.files temp
  pub present : x.0 ≡ ok tt → exists (d.files temp) ≡ true
  pub no_copy : d.removals ≡ [] → path ≢ temp → x.1.files temp ≡ none
  pub left : x.0 ≡ ok tt → path ≢ temp → x.1.files temp ≡ none
  pub still : d.removals ≡ [] → x.1.removals ≡ []
  pub no_overwrite :
      fails d.faults ≡ false
      → exists (d.files path) ≡ true
      → path ≢ temp
      → x.1.files path ≡ d.files path

removed-CommitFacts :
    (path temp : Bytes) (e : StorageError) (d f : Disk)
    → f.files ≡ d.files
    → f.removals ≡ d.removals
    → CommitFacts path temp d (err e, remove temp f)
removed-CommitFacts path temp e d f same as_before = record {
  others = λ k a b. remove-other temp k f b ∙ ap (λ g. g k) same;
  moved = λ h. cc;
  present = λ h. cc;
  no_copy = λ calm h. remove-gone temp f (as_before ∙ calm);
  left = λ h. cc;
  still = λ calm. remove-still temp f (as_before ∙ calm);
  no_overwrite = λ a b h. remove-other temp path f (λ e. h (sym e)) ∙ ap (λ g. g path) same;
}

renamed-CommitFacts :
    (path temp : Bytes) (r : Stored (Unit {0})) (d f : Disk)
    → f.files ≡ d.files
    → f.removals ≡ d.removals
    → exists (d.files temp) ≡ true
    → (exists (d.files path) && not (fails d.faults)) ≡ false
    → CommitFacts path temp d (r, renamed temp path f)
renamed-CommitFacts path temp r d f same as_before there new = record {
  others = λ k a b.
      put-other path k (f.files temp) (put temp none f) a
      ∙ put-other temp k none f b
      ∙ ap (λ g. g k) same;
  moved = λ h. put-here path (f.files temp) (put temp none f) ∙ ap (λ g. g temp) same;
  present = λ h. there;
  no_copy = λ calm h. put-other path temp (f.files temp) (put temp none f) h ∙ put-here temp none f;
  left = λ _ h. put-other path temp (f.files temp) (put temp none f) h ∙ put-here temp none f;
  still = λ calm. as_before ∙ calm;
  no_overwrite = λ a b h. cc (a, b, new);
}

commit_to-CommitFacts :
    (path temp : Bytes) (d : Disk) → CommitFacts path temp d (commit_to path temp d)
unfolding commit_to
commit_to-CommitFacts path temp d =
    if_cases Q (exists (d.files path) && not (fails d.faults))
      (λ _. removed-CommitFacts path temp already_exists d _ refl refl)
      λ new.
        if_cases Q (fails (called d).faults || not (exists (d.files temp)))
          (λ _. removed-CommitFacts path temp io_failed d _ refl refl)
          λ moves.
            if_cases Q (fails (called (called d)).faults)
              (λ _. renamed-CommitFacts path temp (err io_failed) d _ refl refl (ground arith) new)
              (λ _. renamed-CommitFacts path temp (ok tt) d _ refl refl (ground arith) new)
  where
    Q : Stored (Unit {0}) × Disk → Type 0
    Q = CommitFacts path temp d

commit_by-CommitFacts :
    (path temp : Bytes) (o : Option Bytes) (d : Disk)
    → o ≡ some path
    → CommitFacts path temp d (commit_by o temp d)
commit_by-CommitFacts path temp o d at = rw at (commit_to-CommitFacts path temp d)

-- For a key with a path and a temporary file with a name: Commit touches no other file, leaves no
-- temporary file, unless a removal fails or the key's path is that file's, replaces no file that
-- Stat saw, and moves the temporary file's content to the key when it answers without an error,
-- which needs that file to be there.
pub commit-CommitFacts :
    (root key path temp : Bytes) (d : Disk)
    → safe_path root key ≡ some path
    → is_empty temp ≡ false
    → CommitFacts path temp d (commit root key temp d)
unfolding commit
commit-CommitFacts root key path temp d at named =
    if_cases (CommitFacts path temp d) (is_empty temp) (λ h. cc (h, named))
      (λ _. commit_by-CommitFacts path temp (safe_path root key) d at)

-- What was committed under a key is what Read returns for it, on a disk without a fault.
pub read-commit :
    (root key path temp content : Bytes) (d : Disk)
    → safe_path root key ≡ some path
    → is_empty temp ≡ false
    → d.files temp ≡ some content
    → (commit root key temp d).0 ≡ ok tt
    → read root key
        (record { files = (commit root key temp d).1.files; faults = []; removals = [] })
      ≡ ok content
unfolding read
read-commit root key path temp content d at named there done =
    let moved : (commit root key temp d).1.files path ≡ some content =
      (commit-CommitFacts root key path temp d at named).moved done ∙ there in
    rw (at, moved) refl
