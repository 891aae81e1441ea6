-- ===== src/Storage.antt =====
-- internal/storage/storage.go on a Unix system. The disk is a map from paths to contents, with a
-- script of the calls that fail, and another one of the removals that fail, whose errors the code
-- drops. A reader is the list of what its reads return, and its end where the list ends.
pub mod Removing
pub mod Saving
pub mod Committing
pub mod Accepting
pub mod Calm
pub mod Tests
use model_lib.Base.{
  any_of, ℕ, ◌+◌, ◌-◌, ◌==◌, Bool, true, false, not, ◌&&◌, ◌||◌, if◌then◌else◌, ltb, leb, Option,
  none, some, List, [], ◌∷◌, ◌++◌, map, Bytes, codes, length, take, str_eq, is_empty,
}

pub record Disk : Type 0 where
  pub files : Bytes → Option Bytes
  pub faults : List Bool
  pub removals : List Bool

abbrev pub fails : List Bool → Bool
fails [] = false
fails (b ∷ bs) = b

abbrev pub next_faults : List Bool → List Bool
next_faults [] = []
next_faults (b ∷ bs) = bs

-- The disk after one more call that may fail.
abbrev pub called : Disk → Disk
called d = record d { faults = next_faults d.faults }

abbrev pub put : Bytes → Option Bytes → Disk → Disk
put path c d = record d { files = λ k. if str_eq path k then c else d.files k }

-- The disk after one more removal, whether or not it succeeds.
abbrev pub asked : Disk → Disk
asked d = record d { removals = next_faults d.removals }

-- os.Remove where its error is dropped.
abbrev pub remove : Bytes → Disk → Disk
remove path d = if fails d.removals then asked d else put path none (asked d)

-- ErrSizeExceeded, ErrContainsNUL, ErrEmptySource, and the other errors.
pub data StorageError : Type 0 where
  size_exceeded contains_nul empty_source empty_temp_path invalid_key already_exists io_failed :
      StorageError

pub data Stored (A : Type 0) : Type 0 where
  ok : A → Stored A
  err : StorageError → Stored A

abbrev pub is_nul : ℕ → Bool
is_nul c = c == 0

abbrev pub is_visible : ℕ → Bool
is_visible c = not ((c == 32) || (c == 9) || (c == 10) || (c == 13))

-- strings.Contains(key, "..")
abbrev pub has_dots : Bytes → Bool
has_dots [] = false
has_dots (c ∷ []) = false
has_dots (c ∷ d ∷ rest) = ((c == 46) && (d == 46)) || has_dots (d ∷ rest)

abbrev pub is_separator : ℕ → Bool
is_separator c = (c == 47) || (c == 92)

-- filepath.Join of a clean root and one name
abbrev pub join : Bytes → Bytes → Bytes
join root key = if str_eq key (codes ".") then root else root ++ codes "/" ++ key

-- safePath; none is its empty answer.
unfoldable pub safe_path : Bytes → Bytes → Option Bytes
safe_path root key =
    if is_empty key || has_dots key || any_of is_separator key then none else some (join root key)

pub data ReadEnd : Type 0 where
  more eof read_failed : ReadEnd

-- What one Read returns.
pub record Chunk : Type 0 where
  pub bytes : Bytes
  pub end : ReadEnd

-- io.LimitReader: at most `n` bytes, and then the end.
unfoldable pub limited : ℕ → List Chunk → List Chunk
limited n [] = []
limited n (c ∷ rest) =
    let others = limited (n - length c.bytes) rest in
    if n == 0
    then []
    else if leb (length c.bytes) n
    then c ∷ others
    else record { bytes = take n c.bytes; end = more } ∷ []

-- The variables of the loop in SaveStream, and what was hashed.
pub record Progress : Type 0 where
  pub total : ℕ
  pub has_nul : Bool
  pub has_content : Bool
  pub hashed : Bytes

pub record SavedFile : Type 0 where
  pub path : Bytes
  pub size : ℕ
  pub digest : Bytes

abbrev pub noted : Bytes → Progress → Progress
noted chunk p = record {
  total = p.total;
  has_nul = p.has_nul || any_of is_nul chunk;
  has_content = p.has_content || any_of is_visible chunk;
  hashed = p.hashed ++ chunk;
}

abbrev pub counted : Bytes → Progress → Progress
counted chunk p = record {
  total = p.total + length chunk;
  has_nul = p.has_nul;
  has_content = p.has_content;
  hashed = p.hashed;
}

abbrev pub contents : Option Bytes → Bytes
contents none = []
contents (some c) = c

abbrev pub appended : Bytes → Bytes → Disk → Disk
appended path chunk d = put path (some (contents (d.files path) ++ chunk)) d

-- `sha` is the hex digest of the hash.
module _ (sha : Bytes → Bytes) (max_size : ℕ) (temp : Bytes) where
  abbrev pub cleanup : StorageError → Disk → Stored SavedFile × Disk
  cleanup e d = (err e, remove temp d)

  -- After the loop.
  unfoldable pub conclude : Progress → Disk → Stored SavedFile × Disk
  conclude p d =
      if (p.total == 0) || not p.has_content
      then cleanup empty_source d
      else if p.has_nul
      then cleanup contains_nul d
      else if fails d.faults
      then cleanup io_failed (called d)
      else (ok (record { path = temp; size = p.total; digest = sha p.hashed }), called d)

  abbrev pub after_read :
      ReadEnd
      → Progress
      → Disk
      → (Progress → Disk → Stored SavedFile × Disk)
      → Stored SavedFile × Disk
  after_read more p d k = k p d
  after_read eof p d k = conclude p d
  after_read read_failed p d k = cleanup io_failed d

  -- The loop.
  unfoldable pub save_each : List Chunk → Progress → Disk → Stored SavedFile × Disk
  save_each [] p d = conclude p d
  save_each (c ∷ rest) p d =
      let q = noted c.bytes p in
      if is_empty c.bytes
      then after_read c.end p d (save_each rest)
      else if ltb max_size (p.total + length c.bytes)
      then cleanup size_exceeded d
      else if fails d.faults
      then cleanup io_failed (called d)
      else after_read c.end (counted c.bytes q) (appended temp c.bytes (called d)) (save_each rest)

  -- SaveStream, with the name that CreateTemp finds.
  unfoldable pub save_stream : List Chunk → Disk → Stored SavedFile × Disk
  save_stream reader d =
      if fails d.faults
      then (err io_failed, called d)
      else save_each (limited (max_size + 1) reader)
          (record { total = 0; has_nul = false; has_content = false; hashed = [] })
          (put temp (some []) (called d))

abbrev pub exists : Option Bytes → Bool
exists none = false
exists (some c) = true

abbrev pub renamed : Bytes → Bytes → Disk → Disk
renamed from to d = put to (d.files from) (put from none d)

-- Commit after the test of its key. Stat answers an error for a missing file, and for a call that
-- fails, and the code goes on in both cases.
unfoldable pub commit_to : Bytes → Bytes → Disk → Stored (Unit {0}) × Disk
commit_to path temp d =
    if exists (d.files path) && not (fails d.faults)
    then (err already_exists, remove temp (called d))
    else if fails (called d).faults || not (exists (d.files temp))
    then (err io_failed, remove temp (called (called d)))
    else if fails (called (called d)).faults
    then (err io_failed, renamed temp path (called (called (called d))))
    else (ok tt, renamed temp path (called (called (called d))))

abbrev pub commit_by : Option Bytes → Bytes → Disk → Stored (Unit {0}) × Disk
commit_by none temp d = (err invalid_key, remove temp d)
commit_by (some path) temp d = commit_to path temp d

unfoldable pub commit : Bytes → Bytes → Bytes → Disk → Stored (Unit {0}) × Disk
commit root key temp d =
    if is_empty temp then (err empty_temp_path, d) else commit_by (safe_path root key) temp d

abbrev pub read_by : Option Bytes → Disk → Stored Bytes
read_by none d = err invalid_key
read_by (some path) d =
    if fails d.faults
    then err io_failed
    else elim (d.files path) [ none ↦ err io_failed | some c ↦ ok c ]

-- Read
unfoldable pub read : Bytes → Bytes → Disk → Stored Bytes
read root key d = read_by (safe_path root key) d

abbrev pub delete_by : Option Bytes → Disk → Stored (Unit {0}) × Disk
delete_by none d = (err invalid_key, d)
delete_by (some path) d =
    if fails d.faults || not (exists (d.files path))
    then (err io_failed, called d)
    else (ok tt, put path none (called d))

-- Delete
unfoldable pub delete : Bytes → Bytes → Disk → Stored (Unit {0}) × Disk
delete root key d = delete_by (safe_path root key) d

-- ASCII letters; the suffix that is compared has no other.
abbrev pub to_lower : ℕ → ℕ
to_lower c = if leb 65 c && leb c 90 then c + 32 else c

unfoldable pub has_suffix : Bytes → Bytes → Bool
has_suffix [] suffix = is_empty suffix
has_suffix (c ∷ cs) suffix = str_eq (c ∷ cs) suffix || has_suffix cs suffix

-- ValidateExtension
unfoldable pub validate_extension : Bytes → Bool
validate_extension name =
    if is_empty name then false else has_suffix (map to_lower name) (codes ".c")
