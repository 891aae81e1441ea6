-- ===== src/Database/Connection.antt =====
-- internal/database/database.go: Connect, RunMigrations and Close, and migrations/001_init.sql as the
-- statements that it has. The implicit relations of keys and of the sequence are left out; what a
-- column is beside its name and its reference is its text.
use model_lib.Base.{
  ℕ, ◌*◌, Bool, true, false, not, ◌&&◌, if◌then◌else◌, Option, none, some, List, [], ◌∷◌, ◌++◌,
  Bytes, codes, str_eq, find_where,
}
use model_lib.Database.{Outcome, served, lost}

-- The settings of the pool; the times are nanoseconds.
pub record Pool : Type 0 where
  pub url : Bytes
  pub max_open_conns : ℕ
  pub max_idle_conns : ℕ
  pub conn_max_lifetime : ℕ

pub data PoolCall : Type 0 where
  open_pool : Bytes → PoolCall
  ping_pool close_pool : PoolCall

-- Connect, by whether sql.Open takes the URL and the server answers, with the calls it makes.
unfoldable pub connect : Bytes → (opened reached : Bool) → Option Pool × List PoolCall
connect url opened reached =
    if not opened
    then (none, open_pool url ∷ [])
    else if not reached
    then (none, open_pool url ∷ ping_pool ∷ close_pool ∷ [])
    else (
      some (record {
        url = url;
        max_open_conns = 25;
        max_idle_conns = 10;
        conn_max_lifetime = 5 * 60 * 1_000_000_000;
      }),
      open_pool url ∷ ping_pool ∷ [],
    )

pub record Column : Type 0 where
  pub name : Bytes
  pub definition : Bytes
  pub references : Option Bytes

-- Tables and indexes have their names in one space; an index has no columns here.
pub record Relation : Type 0 where
  pub name : Bytes
  pub columns : List Column

-- CREATE TABLE IF NOT EXISTS and CREATE INDEX IF NOT EXISTS, the second with the columns it reads.
pub data Ddl : Type 0 where
  create_table : (name : Bytes) (columns : List Column) → Ddl
  create_index : (name table : Bytes) (columns : List Bytes) → Ddl

abbrev pub named : Bytes → List Relation → Option Relation
named name = find_where (λ r. str_eq r.name name)

abbrev pub is_some : {A : Type 0} → Option A → Bool
is_some none = false
is_some (some a) = true

abbrev pub has_columns : List Bytes → List Column → Bool
has_columns [] columns = true
has_columns (n ∷ ns) columns =
    is_some (find_where (λ c. str_eq c.name n) columns) && has_columns ns columns

abbrev pub table_has : List Bytes → Option Relation → Bool
table_has ns none = false
table_has ns (some r) = has_columns ns r.columns

-- The tables that the columns refer to are there; no table of the script refers to itself.
abbrev pub references_exist : List Column → List Relation → Bool
references_exist [] rs = true
references_exist (c ∷ cs) rs =
    elim c.references [ none ↦ true | some table ↦ is_some (named table rs) ]
    && references_exist cs rs

-- One statement; `none` is an error. An index asks for its table before its name is looked up.
unfoldable pub execute : Ddl → List Relation → Option (List Relation)
execute (create_table name columns) rs =
    if is_some (named name rs)
    then some rs
    else if references_exist columns rs
    then some (rs ++ record { name = name; columns = columns } ∷ [])
    else none
execute (create_index name table columns) rs =
    if not (table_has columns (named table rs))
    then none
    else if is_some (named name rs)
    then some rs
    else some (rs ++ record { name = name; columns = [] } ∷ [])

unfoldable pub execute_all : List Ddl → List Relation → Option (List Relation)
execute_all [] rs = some rs
execute_all (d ∷ ds) rs = elim (execute d rs) [ none ↦ none | some us ↦ execute_all ds us ]

abbrev column : Bytes → Bytes → Column
column name definition = record { name = name; definition = definition; references = none }

abbrev reference : Bytes → Bytes → Bytes → Column
reference name definition table = record {
  name = name;
  definition = definition;
  references = some table;
}

abbrev pub participants_table : Ddl
participants_table = create_table (codes "participants") (
    column (codes "id") (codes "TEXT PRIMARY KEY")
    ∷ column (codes "created_at") (codes "TIMESTAMPTZ NOT NULL DEFAULT NOW()")
    ∷ column (codes "last_seen_at") (codes "TIMESTAMPTZ NOT NULL DEFAULT NOW()")
    ∷ [])

abbrev pub submissions_table : Ddl
submissions_table = create_table (codes "submissions") (
    column (codes "id") (codes "TEXT PRIMARY KEY")
    ∷ reference (codes "participant_id") (codes "TEXT NOT NULL") (codes "participants")
    ∷ column (codes "original_filename") (codes "TEXT")
    ∷ column (codes "source_storage_key") (codes "TEXT NOT NULL UNIQUE")
    ∷ column (codes "source_size") (codes "BIGINT NOT NULL")
    ∷ column (codes "source_sha256") (codes "TEXT NOT NULL")
    ∷ column (codes "status") (
        codes
          "TEXT NOT NULL DEFAULT 'queued' CHECK (status IN ('queued','mock_processing','finished','internal_error'))")
    ∷ column (codes "compile_success") (codes "BOOLEAN")
    ∷ column (codes "compile_stderr") (codes "TEXT")
    ∷ column (codes "exit_code") (codes "INTEGER")
    ∷ column (codes "stdout") (codes "TEXT")
    ∷ column (codes "stderr") (codes "TEXT")
    ∷ column (codes "result_truncated") (codes "BOOLEAN NOT NULL DEFAULT FALSE")
    ∷ column (codes "created_at") (codes "TIMESTAMPTZ NOT NULL DEFAULT NOW()")
    ∷ column (codes "updated_at") (codes "TIMESTAMPTZ NOT NULL DEFAULT NOW()")
    ∷ column (codes "started_at") (codes "TIMESTAMPTZ")
    ∷ column (codes "finished_at") (codes "TIMESTAMPTZ")
    ∷ [])

abbrev pub outbox_table : Ddl
outbox_table = create_table (codes "submission_outbox") (
    column (codes "id") (codes "BIGSERIAL PRIMARY KEY")
    ∷ reference (codes "submission_id") (codes "TEXT NOT NULL ON DELETE CASCADE")
        (codes "submissions")
    ∷ column (codes "event_type")
        (codes "TEXT NOT NULL CHECK (event_type IN ('enqueue_submission'))")
    ∷ column (codes "created_at") (codes "TIMESTAMPTZ NOT NULL DEFAULT NOW()")
    ∷ column (codes "available_at") (codes "TIMESTAMPTZ NOT NULL DEFAULT NOW()")
    ∷ column (codes "delivered_at") (codes "TIMESTAMPTZ")
    ∷ column (codes "attempt_count") (codes "INTEGER NOT NULL DEFAULT 0 CHECK (attempt_count >= 0)")
    ∷ column (codes "last_error") (codes "TEXT")
    ∷ [])

-- migrations/001_init.sql
abbrev pub init_script : List Ddl
init_script =
    participants_table
    ∷ submissions_table
    ∷ create_index (codes "idx_submissions_participant_id") (codes "submissions")
        (codes "participant_id" ∷ [])
    ∷ create_index (codes "idx_submissions_status") (codes "submissions") (codes "status" ∷ [])
    ∷ create_index (codes "idx_submissions_participant_status") (codes "submissions")
        (codes "participant_id" ∷ codes "status" ∷ [])
    ∷ create_index (codes "idx_submissions_stale_processing") (codes "submissions")
        (codes "started_at" ∷ codes "status" ∷ [])
    ∷ outbox_table
    ∷ create_index (codes "idx_submission_outbox_ready") (codes "submission_outbox")
        (codes "available_at" ∷ codes "id" ∷ codes "delivered_at" ∷ [])
    ∷ []

abbrev pub executed : Outcome → Option (List Relation) → List Relation → Bool × List Relation
executed served (some us) rs = (true, us)
executed lost (some us) rs = (false, us)
executed _ _ rs = (false, rs)

-- RunMigrations: whether it answers without an error, and the relations. The script is one query
-- without arguments, which the server runs as one transaction.
unfoldable pub run_migrations : (readable : Bool) → Outcome → List Relation → Bool × List Relation
run_migrations readable o rs =
    if readable then executed o (execute_all init_script rs) rs else (false, rs)
