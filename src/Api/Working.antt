-- ===== src/Api/Working.antt =====
-- cmd/mock-worker/main.go, main: what has happened when the worker's loops run.
use model_lib.Base.{
  ℕ, ◌↔◌, if◌then◌else◌, ◌≡◌, refl, Bool, true, false, Option, none, some, List, [], ◌∷◌, ◌++◌,
  Bytes, codes,
}
use model_lib.Base.Int.{ℤ}
use model_lib.Config.{Config, Loaded, ok, err, load}
use model_lib.Config.Accepted.{Accepted, load-Accepted}
use model_lib.Database.Connection.{open_pool, ping_pool, close_pool, Relation}
use model_lib.Api.{
  stream_of, Deed, said, called, closed_redis, looped, Machine, Ending, goes_on, exited, Answers,
  Process, ◌>>=◌, ◌>>◌, deeds_of, connect_database, loaded_or_exit, worker_main, grouped, closed,
}
use model_lib.Queue
use model_lib.Queue.{ensure_consumer_group, is_busy_group}
use model_lib.Api.Rules.{connect_rule}

abbrev pub loops : List Deed → Bool
loops [] = false
loops (looped stream ∷ ds) = true
loops (d ∷ ds) = loops ds

-- XGROUP CREATE made the group, or found that it is there.
abbrev pub HasGroup : Option Bytes → Type 0
HasGroup none = Unit
HasGroup (some message) = is_busy_group message ≡ true

module _ (Network : Type 0) (parse_duration : Bytes → Option ℤ)
    (parse_cidr : Bytes → Option Network) (env : Bytes → Bytes) (a : Answers) where
  pub record LoopingFacts (m : Machine) : Type 0 where
    pub cfg : Config Network
    pub accepted : Accepted Network parse_duration parse_cidr (env (codes "COOKIE_HMAC_SECRET")) cfg
    pub deeds :
        m.deeds
        ≡ called (open_pool cfg.database_url)
          ∷ called ping_pool
          ∷ looped (stream_of cfg)
          ∷ closed_redis
          ∷ called close_pool
          ∷ []
    pub reached : a.reached ≡ true
    pub group : HasGroup a.group_message

  pub record WorkerFacts (rs : List Relation) (y : Ending (Unit {0}) × Machine) : Type 0 where
    pub looping : loops y.1.deeds ≡ true → LoopingFacts y.1
    pub ends : (y.0 ≡ goes_on tt) ↔ (loops y.1.deeds ≡ true)
    pub code : (n : ℕ) → y.0 ≡ exited n → n ≡ 1
    pub kept : y.1.relations ≡ rs

  idle :
      (ds : List Deed) (rs : List Relation)
      → loops ds ≡ false
      → WorkerFacts rs (exited 1, record { deeds = ds; relations = rs })
  idle ds rs quiet = record {
    looping = λ h. cc (quiet, h);
    ends = (λ h. cc h, λ h. cc (quiet, h));
    code = λ n h. cc h;
    kept = refl;
  }

  group_rule :
      {B : Type 0} (Q : Ending B × Machine → Type 0) (message : Option Bytes) (m : Machine)
      (k : Process B)
      → (HasGroup message → Q (k m))
      → Q (exited 1, record m { deeds = m.deeds ++ said (codes "consumer group") ∷ [] })
      → Q ((grouped (ensure_consumer_group message) >> k) m)
  unfolding ensure_consumer_group
  group_rule Q none m k found missing = found tt
  group_rule Q (some message) m k found missing = by (is_busy_group message) refl
    where
      by :
          (busy : Bool)
          → is_busy_group message ≡ busy
          → Q ((grouped (if busy then Queue.ok tt else Queue.err Queue.redis_failed) >> k) m)
      by true same = found same
      by false same = missing

  -- With the three loops of the worker as one step that is recorded and returns: main takes that
  -- step if and only if it returns itself, and then Load has accepted the configuration, the
  -- database has answered, the consumer group was made or was there, and main has closed Redis and
  -- the database. Otherwise the process ends with the code 1. It changes no relation of the
  -- database.
  pub worker_main-WorkerFacts :
      (rs : List Relation)
      → WorkerFacts rs (
          worker_main Network parse_duration parse_cidr env a
            (record { deeds = []; relations = rs }))
  unfolding worker_main
  worker_main-WorkerFacts rs = started (load Network parse_duration parse_cidr env) refl
    where
      running :
          (cfg : Config Network)
          → load Network parse_duration parse_cidr env ≡ ok cfg
          → a.reached ≡ true
          → HasGroup a.group_message
          → WorkerFacts rs (
              deeds_of (looped (stream_of cfg) ∷ closed) (record {
                deeds = called (open_pool cfg.database_url) ∷ called ping_pool ∷ [];
                relations = rs;
              }))
      running cfg same reached group = record {
        looping = λ h. record {
          cfg = cfg;
          accepted = load-Accepted Network parse_duration parse_cidr env cfg same;
          deeds = refl;
          reached = reached;
          group = group;
        };
        ends = (λ h. refl, λ h. refl);
        code = λ n h. cc h;
        kept = refl;
      }

      started :
          (x : Loaded (Config Network))
          → load Network parse_duration parse_cidr env ≡ x
          → WorkerFacts rs (
              (loaded_or_exit x >>= λ cfg.
              connect_database cfg.database_url a
              >> (grouped (ensure_consumer_group a.group_message)
                  >> deeds_of (looped (stream_of cfg) ∷ closed)))
                (record { deeds = []; relations = rs }))
      started (ok cfg) same =
          connect_rule (WorkerFacts rs) cfg.database_url a rs _
            (λ reached.
              group_rule (WorkerFacts rs) a.group_message _ _
                (λ group. running cfg same reached group) (idle _ rs refl))
            (idle _ rs refl) (idle _ rs refl)
      started (err e) same = idle _ rs refl
