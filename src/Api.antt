-- ===== src/Api.antt =====
-- cmd/api/main.go, and main of cmd/mock-worker/main.go: how the two processes start and end. A process
-- is a sequence of steps that leaves a record of what it did and may leave by os.Exit, which runs no
-- deferred call; what the servers and the operating system answer is an argument. A message is
-- recorded by its text. The options of the log are left out.
pub mod Rules
pub mod Starting
pub mod Working
pub mod Tests
use model_lib.Base.{
  ℕ, ◌*◌, Bool, true, false, Option, none, some, List, [], ◌∷◌, ◌++◌, Bytes, codes, map,
}
use model_lib.Base.Int.{ℤ}
use model_lib.Config.{Config, Loaded, ok, err, load}
use model_lib.Database.{Outcome}
use model_lib.Database.Connection.{Pool, PoolCall, close_pool, connect, Relation, run_migrations}
use model_lib.Queue
use model_lib.Submissions.{Service, new_service}
use model_lib.Queue.{Reply, ensure_consumer_group}

-- The HTTP server of the API, with what its handler, which is `serve` of Web/Middleware, takes from the
-- configuration. The times are nanoseconds.
pub record HttpServer : Type 0 where
  pub addr : Bytes
  pub service : Service
  pub poll_rate_per_minute : ℤ
  pub read_timeout : ℕ
  pub write_timeout : ℕ
  pub idle_timeout : ℕ

abbrev pub seconds : ℕ → ℕ
seconds n = n * 1_000_000_000

unfoldable pub new_http_server : {Network : Type 0} → Config Network → HttpServer
new_http_server cfg = record {
  addr = cfg.http_addr;
  service = new_service cfg;
  poll_rate_per_minute = cfg.poll_rate_per_minute;
  read_timeout = seconds 15;
  write_timeout = seconds 30;
  idle_timeout = seconds 60;
}

-- The stream that the worker reads.
pub record Stream : Type 0 where
  pub key : Bytes
  pub group : Bytes
  pub consumer : Bytes
  pub op_timeout : ℤ

-- NewStream
abbrev pub new_stream : Bytes → Bytes → Bytes → ℤ → Stream
new_stream key group consumer op_timeout = record {
  key = key;
  group = group;
  consumer = consumer;
  op_timeout = op_timeout;
}

abbrev pub stream_of : {Network : Type 0} → Config Network → Stream
stream_of cfg =
    new_stream cfg.queue_redis_key cfg.stream_group cfg.stream_consumer cfg.redis_operation_timeout

-- What a process does.
pub data Deed : Type 0 where
  said : Bytes → Deed
  called : PoolCall → Deed
  migrated : Deed
  pinged_redis : Bytes → Deed
  closed_redis : Deed
  listened : HttpServer → Deed
  shut_down : Deed
  looped : Stream → Deed

-- What it did so far, and the relations of the database.
pub record Machine : Type 0 where
  pub deeds : List Deed
  pub relations : List Relation

-- A step goes on with a value, or ends the process by os.Exit.
pub data Ending (A : Type 0) : Type 0 where
  goes_on : A → Ending A
  exited : ℕ → Ending A

abbrev pub Process : Type 0 → Type 0
Process A = Machine → Ending A × Machine

abbrev pub proceed : {A B : Type 0} → Ending A → Machine → (A → Process B) → Ending B × Machine
proceed (goes_on a) m k = k a m
proceed (exited code) m k = (exited code, m)

infixl 5 ◌>>=◌ ◌>>◌
abbrev pub ◌>>=◌ : {A B : Type 0} → Process A → (A → Process B) → Process B
◌>>=◌ p k m = proceed (p m).0 (p m).1 k

abbrev pub ◌>>◌ : {B : Type 0} → Process (Unit {0}) → Process B → Process B
p >> k = p >>= λ _. k

abbrev pub return : {A : Type 0} → A → Process A
return a m = (goes_on a, m)

-- os.Exit
abbrev pub exit : {A : Type 0} → ℕ → Process A
exit code m = (exited code, m)

abbrev pub deed : Deed → Process (Unit {0})
deed d m = (goes_on tt, record m { deeds = m.deeds ++ d ∷ [] })

abbrev pub deeds_of : List Deed → Process (Unit {0})
deeds_of ds m = (goes_on tt, record m { deeds = m.deeds ++ ds })

-- An error is logged, and the process ends with the code 1.
abbrev pub fatal : {A : Type 0} → Bytes → Process A
fatal message = do deed (said message); exit 1

abbrev pub or_exit : Bool → Bytes → Process (Unit {0})
or_exit true message = return tt
or_exit false message = fatal message

-- What the process is answered while it starts.
pub record Answers : Type 0 where
  pub opened : Bool
  pub reached : Bool
  pub readable : Bool
  pub migration : Outcome
  pub redis_reached : Bool
  pub group_message : Option Bytes

-- How the server of the API ends: it cannot listen or fails, or a signal comes, and Shutdown ends
-- without an error or with one.
pub data ServerEnd : Type 0 where
  server_failed : ServerEnd
  signalled : (clean : Bool) → ServerEnd

abbrev pub loaded_or_exit : {Network : Type 0} → Loaded (Config Network) → Process (Config Network)
loaded_or_exit (ok cfg) = return cfg
loaded_or_exit (err e) = fatal (codes "config load failed")

abbrev pub pool_of : Option Pool → Process (Unit {0})
pool_of (some pool) = return tt
pool_of none = fatal (codes "database connect")

abbrev pub connect_database : Bytes → Answers → Process (Unit {0})
connect_database url a = do
  deeds_of (map called (connect url a.opened a.reached).1)
  pool_of (connect url a.opened a.reached).0

abbrev pub migrate_database : Answers → Process (Unit {0})
migrate_database a m =
    let (done, relations) = run_migrations a.readable a.migration m.relations in
    let n : Machine = record { deeds = m.deeds ++ migrated ∷ []; relations = relations } in
    or_exit done (codes "migrations") n

-- By the answer of EnsureConsumerGroup.
abbrev pub grouped : Reply (Unit {0}) → Process (Unit {0})
grouped (Queue.ok _) = return tt
grouped (Queue.err e) = fatal (codes "consumer group")

-- The deferred calls of main, last first.
abbrev pub closed : List Deed
closed = closed_redis ∷ called close_pool ∷ []

-- From the signal on.
abbrev pub until_end : ServerEnd → Process (Unit {0})
until_end server_failed = fatal (codes "server error")
until_end (signalled true) =
    deeds_of
      (said (codes "shutting down server") ∷ shut_down ∷ said (codes "server stopped") ∷ closed)
until_end (signalled false) = deeds_of (
    said (codes "shutting down server")
    ∷ shut_down
    ∷ said (codes "shutdown error")
    ∷ said (codes "server stopped")
    ∷ closed)

module _ (Network : Type 0) (parse_duration : Bytes → Option ℤ)
    (parse_cidr : Bytes → Option Network) (env : Bytes → Bytes) (a : Answers) where
  -- main of the API, after the migrations
  unfoldable pub serve_requests : ServerEnd → Config Network → Process (Unit {0})
  serve_requests end cfg = do
    deed (pinged_redis cfg.redis_addr)
    or_exit a.redis_reached (codes "redis ping")
    deed (listened (new_http_server cfg))
    until_end end

  abbrev pub after_migrations : Bool → ServerEnd → Config Network → Process (Unit {0})
  after_migrations true end cfg =
      deeds_of (said (codes "migrations completed") ∷ called close_pool ∷ [])
  after_migrations false end cfg = serve_requests end cfg

  -- main of the API, by whether it has the flag -migrate
  unfoldable pub api_main : Bool → ServerEnd → Process (Unit {0})
  api_main migrate_only end = do
    cfg ← loaded_or_exit (load Network parse_duration parse_cidr env)
    connect_database cfg.database_url a
    migrate_database a
    after_migrations migrate_only end cfg

  -- main of the mock worker, with its three loops as one step that returns.
  unfoldable pub worker_main : Process (Unit {0})
  worker_main = do
    cfg ← loaded_or_exit (load Network parse_duration parse_cidr env)
    connect_database cfg.database_url a
    grouped (ensure_consumer_group a.group_message)
    deeds_of (looped (stream_of cfg) ∷ closed)
