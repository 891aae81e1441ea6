-- ===== src/Api/Starting.antt =====
-- cmd/api/main.go: what has happened when the API listens, and how it ends.
use model_lib.Base.{ℕ, ◌≡◌, Bool, true, false, Option, none, some, List, [], ◌∷◌, Bytes, codes, All}
use model_lib.Base.Int.{ℤ}
use model_lib.Config.{Config, ok, load}
use model_lib.Config.Accepted.{Accepted}
use model_lib.Database.Connection.{
  open_pool, ping_pool, close_pool, Relation, named, is_some, init_script,
}
use model_lib.Database.Executing.{name_of}
use model_lib.Api.{
  HttpServer, new_http_server, Deed, called, migrated, pinged_redis, listened, Machine, Ending,
  goes_on, exited, Answers,
}

-- The server with which a process listens.
abbrev pub listening : List Deed → Option HttpServer
listening [] = none
listening (listened server ∷ ds) = some server
listening (d ∷ ds) = listening ds

abbrev pub last_deed : List Deed → Option Deed
last_deed [] = none
last_deed (d ∷ []) = some d
last_deed (d ∷ e ∷ ds) = last_deed (e ∷ ds)

abbrev KeepsAll : List Relation → List Relation → Type 0
KeepsAll rs us = (name : Bytes) (r : Relation) → named name rs ≡ some r → named name us ≡ some r

module _ (Network : Type 0) (parse_duration : Bytes → Option ℤ)
    (parse_cidr : Bytes → Option Network) (env : Bytes → Bytes) (a : Answers) (migrate_only : Bool)
    (rs : List Relation) where
  -- A process that listens.
  pub record ListeningFacts (server : HttpServer) (m : Machine) : Type 0 where
    pub cfg : Config Network
    pub accepted : Accepted Network parse_duration parse_cidr (env (codes "COOKIE_HMAC_SECRET")) cfg
    pub configured : server ≡ new_http_server cfg
    pub asked : migrate_only ≡ false
    pub later : List Deed
    pub before :
        m.deeds
        ≡ called (open_pool cfg.database_url)
          ∷ called ping_pool
          ∷ migrated
          ∷ pinged_redis cfg.redis_addr
          ∷ listened server
          ∷ later
    pub answered : (a.reached ≡ true) × (a.redis_reached ≡ true)
    pub tables : All (λ d. is_some (named (name_of d) m.relations) ≡ true) init_script

  pub record StartFacts (y : Ending (Unit {0}) × Machine) : Type 0 where
    pub listens :
        (server : HttpServer) → listening y.1.deeds ≡ some server → ListeningFacts server y.1
    pub kept :
        (name : Bytes) (r : Relation) → named name rs ≡ some r → named name y.1.relations ≡ some r
    pub closes : y.0 ≡ goes_on tt → last_deed y.1.deeds ≡ some (called close_pool)
    pub code : (n : ℕ) → y.0 ≡ exited n → n ≡ 1

  module _ (cfg : Config Network)
      (load_ok : load Network parse_duration parse_cidr env ≡ ok cfg) where
    abbrev connected : List Deed
    connected = called (open_pool cfg.database_url) ∷ called ping_pool ∷ []
