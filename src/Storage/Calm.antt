-- ===== src/Storage/Calm.antt =====
-- internal/storage/storage.go on a disk without faults.
use model_lib.Base.{
  ◌∙◌, ◌≡◌, refl, ap, false, not, ◌||◌, ◌==◌, ◌+◌, ltb, ℕ, none, some, List, [], ◌∷◌, Bytes, length,
  is_empty, if_cases,
}
use model_lib.Storage.Removing.{remove-faults}
use model_lib.Storage.{
  Disk, Stored, ok, Chunk, ReadEnd, more, eof, read_failed, Progress, SavedFile, called, fails,
  next_faults, conclude, after_read, save_each, save_stream, commit, commit_to, safe_path,
}

module _ (sha : Bytes → Bytes) (max_size : ℕ) (temp : Bytes) where
  abbrev Calm : Stored SavedFile × Disk → Type 0
  Calm y = y.1.faults ≡ []

  after_call : (d : Disk) → d.faults ≡ [] → (called d).faults ≡ []
  after_call d calm = ap next_faults calm

  conclude-Calm : (p : Progress) (d : Disk) → d.faults ≡ [] → Calm (conclude sha max_size temp p d)
  unfolding conclude
  conclude-Calm p d calm =
      if_cases Calm ((p.total == 0) || not p.has_content) (λ _. remove-faults temp d ∙ calm)
        (λ _.
          if_cases Calm p.has_nul (λ _. remove-faults temp d ∙ calm)
            (λ _.
              if_cases Calm (fails d.faults)
                (λ _. remove-faults temp (called d) ∙ after_call d calm) (λ _. after_call d calm)))

  after_read-Calm :
      (e : ReadEnd) (p : Progress) (d : Disk) (k : Progress → Disk → Stored SavedFile × Disk)
      → (d.faults ≡ [] → Calm (k p d))
      → d.faults ≡ []
      → Calm (after_read sha max_size temp e p d k)
  after_read-Calm more p d k goes_on calm = goes_on calm
  after_read-Calm eof p d k goes_on calm = conclude-Calm p d calm
  after_read-Calm read_failed p d k goes_on calm = remove-faults temp d ∙ calm

  save_each-Calm :
      (reader : List Chunk) (p : Progress) (d : Disk)
      → d.faults ≡ []
      → Calm (save_each sha max_size temp reader p d)
  unfolding save_each
  save_each-Calm [] p d calm = conclude-Calm p d calm
  save_each-Calm (c ∷ rest) p d calm =
      if_cases Calm (is_empty c.bytes)
        (λ _.
          after_read-Calm c.end p d (save_each sha max_size temp rest) (save_each-Calm rest p d)
            calm)
        (λ _.
          if_cases Calm (ltb max_size (p.total + length c.bytes)) (λ _. remove-faults temp d ∙ calm)
            (λ _.
              if_cases Calm (fails d.faults)
                (λ _. remove-faults temp (called d) ∙ after_call d calm)
                (λ _.
                  after_read-Calm c.end _ _ (save_each sha max_size temp rest)
                    (save_each-Calm rest _ _) (after_call d calm))))

  pub save_stream-Calm :
      (reader : List Chunk) (d : Disk)
      → d.faults ≡ []
      → (save_stream sha max_size temp reader d).1.faults ≡ []
  unfolding save_stream
  save_stream-Calm reader d calm =
      if_cases Calm (fails d.faults) (λ _. after_call d calm)
        (λ _. save_each-Calm _ _ _ (after_call d calm))

-- Commit moves a temporary file to a free place.
pub commit-done :
    (root key path temp content : Bytes) (d : Disk)
    → safe_path root key ≡ some path
    → is_empty temp ≡ false
    → d.faults ≡ []
    → d.files temp ≡ some content
    → d.files path ≡ none
    → (commit root key temp d).0 ≡ ok tt
unfolding commit commit_to
commit-done root key path temp content d at named calm here free =
    rw named (rw at (rw free (rw calm (rw here refl))))
