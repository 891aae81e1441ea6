-- ===== src/RateLimit.antt =====
-- internal/ratelimit/ratelimit.go: the token bucket, a Lua script on two Redis keys. Redis is the
-- record KeyStore; a script runs there as one unit, and its answer may be refused or lost. Times are
-- milliseconds, and `now` of the service and `clock` of Redis are separate arguments.
pub mod Keys
pub mod Bucket
pub mod Burst
pub mod Retry
pub mod First
pub mod Memory
pub mod Tests
use Prim.Native.Nat.{min, max}
use model_lib.Base.{
  ℕ, zero, suc, ◌+◌, ◌-◌, ◌*◌, ◌/◌, ◌≡◌, ◌<◌, ◌≤◌, ◌≢◌, Bool, true, false, if◌then◌else◌, ltb, leb,
  Option, none, some, ◌++◌, Bytes, codes,
}
use model_lib.Base.Int.{ℤ, pos, pos_part, leb_ℤ}
use model_lib.Database.{Outcome, served, refused, lost}

-- Integers under keys, some with a time at which they go.
pub record KeyStore : Type 1 where
  pub Store : Type 0
  pub get : Bytes → Store → Option ℕ
  pub expires : Bytes → Store → Option ℕ
  pub set : Bytes → ℕ → Store → Store
  pub pexpire : (clock : ℕ) (key : Bytes) (ms : ℕ) → Store → Store
  pub pass : (clock : ℕ) → Store → Store
  pub flush : Store → Store
  pub get_set : (k : Bytes) (v : ℕ) (s : Store) → get k (set k v s) ≡ some v
  pub get_set_other : (k j : Bytes) (v : ℕ) (s : Store) → k ≢ j → get j (set k v s) ≡ get j s
  pub get_pexpire :
      (t : ℕ) (k j : Bytes) (ms : ℕ) (s : Store) → 0 < ms → get j (pexpire t k ms s) ≡ get j s
  pub expires_pexpire :
      (t : ℕ) (k : Bytes) (ms v : ℕ) (s : Store)
      → get k s ≡ some v
      → expires k (pexpire t k ms s) ≡ some (t + ms)
  pub expires_pexpire_other :
      (t : ℕ) (k j : Bytes) (ms : ℕ) (s : Store)
      → k ≢ j
      → expires j (pexpire t k ms s) ≡ expires j s
  pub get_flush : (k : Bytes) (s : Store) → get k (flush s) ≡ none
  pub pass_none : (t : ℕ) (k : Bytes) (s : Store) → get k s ≡ none → get k (pass t s) ≡ none
  pub pass_keeps :
      (t u : ℕ) (k : Bytes) (s : Store)
      → expires k s ≡ some u
      → t < u
      → (get k (pass t s) ≡ get k s) × (expires k (pass t s) ≡ some u)
  pub pass_ends :
      (t u : ℕ) (k : Bytes) (s : Store) → expires k s ≡ some u → u ≤ t → get k (pass t s) ≡ none

-- key .. ":ts"
unfoldable pub stamp : Bytes → Bytes
stamp key = key ++ codes ":ts"

abbrev pub or_else : Option ℕ → ℕ → ℕ
or_else none d = d
or_else (some v) d = v

-- math.max(1000, interval * capacity * 2)
abbrev pub lifetime : ℕ → ℕ → ℕ
lifetime interval capacity = max 1000 (interval * capacity * 2)

-- The wait in seconds, at least one.
abbrev pub retry_after : ℕ → ℕ → ℕ
retry_after interval missing = max 1 ((interval * missing + 999) / 1000)

-- period.Milliseconds() / rate, at least one
abbrev pub interval_of : ℤ → ℕ → ℕ
interval_of rate period = max 1 (period / pos_part rate)

module _ (K : KeyStore) where
  open K use {Store, get, set, pexpire, pass, flush}

  -- A bucket that is not there is filled.
  abbrev pub filled : Bytes → ℕ → ℕ → Option ℕ → Store → Store
  filled key now capacity none s = set key capacity (set (stamp key) now s)
  filled key now capacity (some _) s = s

  -- Where `now` is before the last refill, the script's refill is negative, and no more than none.
  unfoldable pub refill : Bytes → ℕ → ℕ → ℕ → ℕ → ℕ → Store → ℕ × Store
  refill key now interval capacity tokens last s =
      let n = (now - last) / interval in
      if ltb 0 n
      then (
        min capacity (tokens + n),
        set key (min capacity (tokens + n)) (set (stamp key) (last + n * interval) s),
      )
      else (tokens, s)

  unfoldable pub charge : ℕ → Bytes → ℕ → ℕ → ℕ → ℕ × Store → ℕ × Store
  charge clock key interval capacity cost (tokens, s) =
      if leb cost tokens
      then (
        0,
        pexpire clock (stamp key) (lifetime interval capacity)
            (pexpire clock key (lifetime interval capacity) (set key (tokens - cost) s)),
      )
      else (retry_after interval (cost - tokens), s)

  abbrev pub started_at : Bytes → ℕ → Store → ℕ
  started_at key now s = or_else (get (stamp key) s) now

  -- The script, on the store as the clock of Redis has it.
  unfoldable pub script : ℕ → Bytes → ℕ → ℕ → ℕ → ℕ → Store → ℕ × Store
  script clock key now interval capacity cost s =
      let there = filled key now capacity (get key s) s in
      charge clock key interval capacity cost (
        refill key now interval capacity (or_else (get key s) capacity) (started_at key now there)
          there)

  abbrev pub evaluated : {A : Type 0} → Outcome → A × Store → Store → Option A × Store
  evaluated served (a, t) s = (some a, t)
  evaluated refused (a, t) s = (none, s)
  evaluated lost (a, t) s = (none, t)

  -- The seconds to wait, or an error.
  unfoldable pub token_bucket : Bytes → ℤ → ℕ → ℕ → ℕ → ℕ → Outcome → Store → Option ℕ × Store
  token_bucket key rate period cost now clock o s =
      if leb_ℤ rate (pos 0)
      then (some 0, s)
      else evaluated o
          (script clock key now (interval_of rate period) (pos_part rate) cost (pass clock s))
          (pass clock s)

  abbrev pub verdict : Option ℕ × Store → Option (Bool × ℕ) × Store
  verdict (none, s) = (none, s)
  verdict (some zero, s) = (some (true, 0), s)
  verdict (some (suc n), s) = (some (false, suc n), s)

  -- AllowIPSubmit
  unfoldable pub allow_ip_submit : Bytes → ℤ → ℕ → ℕ → Outcome → Store → Option (Bool × ℕ) × Store
  allow_ip_submit ip rate now clock o s =
      verdict (token_bucket (codes "rl:ip:submit:" ++ ip) rate 60_000 1 now clock o s)

  -- AllowPoll
  unfoldable pub allow_poll : Bytes → ℤ → ℕ → ℕ → Outcome → Store → Option (Bool × ℕ) × Store
  allow_poll participant rate now clock o s =
      verdict (token_bucket (codes "rl:poll:" ++ participant) rate 60_000 1 now clock o s)

  abbrev by_hour : Bytes → ℤ → ℕ → ℕ → Outcome → Option ℕ × Store → Option (Bool × ℕ) × Store
  by_hour participant rate now clock o (some zero, s) =
      verdict (token_bucket (codes "rl:submit:hour:" ++ participant) rate 3_600_000 1 now clock o s)
  by_hour participant rate now clock o x = verdict x

  -- AllowParticipantSubmit: the minute's bucket, then the hour's.
  unfoldable pub allow_participant_submit :
      Bytes → ℤ → ℤ → ℕ → ℕ → Outcome → Outcome → Store → Option (Bool × ℕ) × Store
  allow_participant_submit participant per_minute per_hour now clock o o' s =
      by_hour participant per_hour now clock o'
        (token_bucket (codes "rl:submit:min:" ++ participant) per_minute 60_000 1 now clock o s)

  -- FlushDB
  unfoldable pub flush_db : Outcome → Store → Option (Unit {0}) × Store
  flush_db o s = evaluated o (tt, flush s) s
