-- ===== src/Storage/Tests.antt =====
-- A source is saved, committed and read back.
use model_lib.Base.{
  inl, inr, any_of, arith, true, false, ◌≡◌, refl, true, none, some, List, [], ◌∷◌, Bytes, codes,
  str_eq, if◌then◌else◌,
}
use model_lib.Storage.{
  Disk, ok, err, size_exceeded, Chunk, more, eof, safe_path, limited, conclude, save_each,
  save_stream, commit_to, commit, read, delete, has_suffix, validate_extension, is_nul, is_visible,
}
use model_lib.Storage.Accepting.{whole, save_stream-accepts}
use model_lib.Storage.Saving.{SaveFacts, save_stream-SaveFacts}
use model_lib.Storage.Committing.{CommitFacts, commit-CommitFacts, read-commit}

abbrev root : Bytes
root = codes "/data"

abbrev temp : Bytes
temp = codes "/data/.tmp-1"

abbrev path : Bytes
path = codes "/data/k"

abbrev no_files : Disk
no_files = record { files = λ k. none; faults = []; removals = [] }

abbrev one_temp : Disk
one_temp = record {
  files = λ k. if str_eq temp k then some (codes "int x;") else none;
  faults = [];
  removals = [];
}

abbrev two_reads : List Chunk
two_reads =
    record { bytes = codes "int "; end = more } ∷ record { bytes = codes "x;"; end = eof } ∷ []

-- The digest is the content itself, which is enough to see what was hashed.
abbrev same : Bytes → Bytes
same c = c

storage : Unit {0}
unfolding str_eq any_of safe_path limited conclude save_each save_stream commit_to commit read
    delete has_suffix validate_extension
storage = tt

saves :
    (save_stream same 6 temp two_reads no_files).0
    ≡ ok (record { path = temp; size = 6; digest = codes "int x;" })
unfolding storage
saves = refl

too_long : (save_stream same 5 temp two_reads no_files).0 ≡ err size_exceeded
unfolding storage
too_long = refl

no_escape : safe_path root (codes "../x") ≡ none
unfolding storage
no_escape = refl

is_c_file : validate_extension (codes "A.C") ≡ true
unfolding storage
is_c_file = refl

safe : safe_path root (codes "k") ≡ some path
unfolding storage
safe = refl

commits : (commit root (codes "k") temp one_temp).0 ≡ ok tt
unfolding storage
commits = refl

there : one_temp.files temp ≡ some (codes "int x;")
unfolding storage
there = refl

save_stream-SaveFacts_example :
    SaveFacts same 6 temp no_files (save_stream same 6 temp two_reads no_files)
save_stream-SaveFacts_example = save_stream-SaveFacts same 6 temp two_reads no_files

commit-CommitFacts_example : CommitFacts path temp one_temp (commit root (codes "k") temp one_temp)
commit-CommitFacts_example = commit-CommitFacts root (codes "k") path temp one_temp safe refl

read-commit_example :
    read root (codes "k") (record {
      files = (commit root (codes "k") temp one_temp).1.files;
      faults = [];
      removals = [];
    })
    ≡ ok (codes "int x;")
read-commit_example =
    read-commit root (codes "k") path temp (codes "int x;") one_temp safe refl there commits

abbrev three_reads : List Chunk
three_reads =
    record { bytes = codes "in"; end = more }
    ∷ record { bytes = []; end = more }
    ∷ record { bytes = codes "t x;"; end = eof }
    ∷ []

is_plain : any_of is_nul (whole three_reads) ≡ false
unfolding storage
is_plain = refl

is_shown : any_of is_visible (whole three_reads) ≡ true
unfolding storage
is_shown = refl

save_stream-accepts_example :
    (save_stream same 6 temp three_reads no_files).0
    ≡ ok (record { path = temp; size = 6; digest = codes "int x;" })
save_stream-accepts_example =
    save_stream-accepts same 6 temp three_reads no_files (inl (refl, inl (refl, inr (refl, refl))))
      refl (omega arith) is_plain is_shown
