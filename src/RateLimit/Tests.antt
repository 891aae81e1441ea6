-- ===== src/RateLimit/Tests.antt =====
-- Runs of the token bucket on keys in memory.
use model_lib.RateLimit.{
  flush_db, interval_of, stamp, refill, charge, script, token_bucket, allow_participant_submit,
}
use model_lib.RateLimit.First.{token_bucket-first}
use model_lib.Base.{
  some, ℕ, ◌+◌, ◌*◌, ◌≤◌, ◌≡◌, refl, arith, none, List, [], ◌∷◌, Bytes, codes, str_eq,
}
use model_lib.Base.Int.{pos, pos_part}
use model_lib.Database.{Outcome, served, refused, lost}
use model_lib.RateLimit.Memory.{Entry, key_memory}
use model_lib.RateLimit.Retry.{token_bucket-retry}
use model_lib.RateLimit.Burst.{last_time, serve_all, serve_all-bound}

abbrev no_keys : Bytes → Entry
no_keys k = none

abbrev bucket_key : Bytes
bucket_key = codes "rl:poll:p"

-- At a rate of two a minute: one is served, one has its answer lost, one waits; half a minute later
-- one more is served.
abbrev requests : List (ℕ × Outcome)
requests = (5, served) ∷ (5, lost) ∷ (6, served) ∷ (30_005, served) ∷ (30_006, refused) ∷ []

bucket : Unit {0}
unfolding str_eq stamp refill charge script token_bucket allow_participant_submit serve_all
bucket = tt

two_are_allowed : (serve_all key_memory bucket_key (pos 2) 60_000 requests (0, no_keys)).0 ≡ 2
unfolding bucket
two_are_allowed = refl

third_waits :
    (serve_all key_memory bucket_key
      (pos 2)
      60_000
      ((5, served) ∷ (5, served) ∷ (5, served) ∷ [])
      (0, no_keys)).0
    ≡ 2
unfolding bucket
third_waits = refl

serve_all-bound_example :
    5
      + (serve_all key_memory bucket_key (pos 2) 60_000 requests (0, no_keys)).0
        * interval_of (pos 2) 60_000
    ≤ pos_part (pos 2) * interval_of (pos 2) 60_000 + last_time 5 requests
serve_all-bound_example =
    serve_all-bound key_memory bucket_key (pos 2) 60_000 5 requests no_keys refl refl refl
      (omega arith, (omega arith, (omega arith, (omega arith, (omega arith, tt)))))

abbrev two_requests : List (ℕ × Outcome)
two_requests = (5, served) ∷ (5, served) ∷ []

abbrev after_two : Bytes → Entry
after_two = (serve_all key_memory bucket_key (pos 2) 60_000 two_requests (0, no_keys)).1

told_to_wait :
    (token_bucket key_memory bucket_key (pos 2) 60_000 1 6 6 served after_two).0 ≡ some 30
unfolding bucket
told_to_wait = refl

token_bucket-retry_example :
    (token_bucket key_memory bucket_key
      (pos 2)
      60_000
      1
      30_006
      30_006
      served
      (token_bucket key_memory bucket_key (pos 2) 60_000 1 6 6 served after_two).1).0
    ≡ some 0
token_bucket-retry_example =
    token_bucket-retry key_memory bucket_key (pos 2) 60_000 5 6 30_006 29 two_requests no_keys refl
      refl refl (omega arith, (omega arith, tt)) (omega arith) (omega arith) told_to_wait

token_bucket-first_example :
    (token_bucket key_memory bucket_key
      (pos 2)
      60_000
      1
      7
      9
      served
      (flush_db key_memory served after_two).1).0
    ≡ some 0
token_bucket-first_example =
    token_bucket-first key_memory bucket_key 2 60_000 1 7 9 after_two (omega arith)
