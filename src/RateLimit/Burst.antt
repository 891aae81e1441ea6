-- ===== src/RateLimit/Burst.antt =====
-- internal/ratelimit/ratelimit.go: how many requests a bucket allows over a schedule, with keys that
-- may expire.
use model_lib.Base.{
  ℕ, ◌+◌, ◌*◌, ◌≤◌, ◌≡◌, arith, false, Option, none, List, [], ◌∷◌, Bytes, if_cases,
}
use model_lib.Base.Int.{ℤ, pos, negsuc, pos_part, leb_ℤ}
use model_lib.Database.{Outcome}
use model_lib.RateLimit.{KeyStore, stamp, interval_of, token_bucket}
use model_lib.RateLimit.Bucket.{allowed, Bucket, absent, pass-Bucket, evaluated-Bucket, bounded}

-- Requests with their times, in order from a first time on.
abbrev pub InOrder : ℕ → List (ℕ × Outcome) → Type 0
InOrder begun [] = Unit
InOrder begun ((now, o) ∷ rest) = (begun ≤ now) × InOrder now rest

abbrev pub last_time : ℕ → List (ℕ × Outcome) → ℕ
last_time begun [] = begun
last_time begun ((now, o) ∷ rest) = last_time now rest

module _ (K : KeyStore) (key : Bytes) (rate : ℤ) (period : ℕ) where
  abbrev counted : ℕ → Option ℕ × K.Store → ℕ × K.Store
  counted n (r, s) = (n + allowed r, s)

  -- The number of requests that the bucket allowed, and the store after them.
  unfoldable pub serve_all : List (ℕ × Outcome) → ℕ × K.Store → ℕ × K.Store
  serve_all [] x = x
  serve_all ((now, o) ∷ rest) (n, s) =
      serve_all rest (counted n (token_bucket K key rate period 1 now now o s))

  token_bucket-Bucket :
      (begun n clock now : ℕ) (o : Outcome) (s : K.Store)
      → leb_ℤ rate (pos 0) ≡ false
      → clock ≤ now
      → Bucket K key (interval_of rate period) (pos_part rate) begun n clock s
      → let y = token_bucket K key rate period 1 now now o s in
        Bucket K key (interval_of rate period) (pos_part rate) begun (n + allowed y.0) now y.1
  unfolding token_bucket
  token_bucket-Bucket begun n clock now o s limited later b =
      if_cases
        (λ (y : Option ℕ × K.Store).
          Bucket K key (interval_of rate period) (pos_part rate) begun (n + allowed y.0) now y.1)
        (leb_ℤ rate (pos 0)) (λ h. cc (h, limited))
        (λ _.
          evaluated-Bucket K key (interval_of rate period) (pos_part rate) begun o n now
            (K.pass now s) (omega arith) (positive rate limited)
            (pass-Bucket K key (interval_of rate period) (pos_part rate) begun n clock now s later
              b))
    where
      positive : (r : ℤ) → leb_ℤ r (pos 0) ≡ false → 1 ≤ pos_part r
      positive (pos n) h = ground arith
      positive (negsuc n) h = absurd (ground arith)

  pub serve_all-Bucket :
      (begun : ℕ) (turns : List (ℕ × Outcome)) (n clock : ℕ) (s : K.Store)
      → leb_ℤ rate (pos 0) ≡ false
      → InOrder clock turns
      → Bucket K key (interval_of rate period) (pos_part rate) begun n clock s
      → let y = serve_all turns (n, s) in
        Bucket K key (interval_of rate period) (pos_part rate) begun y.0 (last_time clock turns) y.1
  unfolding serve_all
  serve_all-Bucket begun [] n clock s limited order b = b
  serve_all-Bucket begun ((now, o) ∷ rest) n clock s limited (later, order) b =
      serve_all-Bucket begun rest _ now _ limited order
        (token_bucket-Bucket begun n clock now o s limited later b)

  -- A bucket with a positive rate that starts without keys: over any requests in the order of their
  -- times, with Redis on the same clock, as many are allowed as the capacity has, and one more for
  -- each interval since the start, whether or not the keys expire in between and whatever commands
  -- Redis refuses or leaves unanswered.
  pub serve_all-bound :
      (begun : ℕ) (turns : List (ℕ × Outcome)) (s : K.Store)
      → leb_ℤ rate (pos 0) ≡ false
      → K.get key s ≡ none
      → K.get (stamp key) s ≡ none
      → InOrder begun turns
      → begun + (serve_all turns (0, s)).0 * interval_of rate period
        ≤ pos_part rate * interval_of rate period + last_time begun turns
  serve_all-bound begun turns s limited no_key no_stamp order =
      bounded K key (interval_of rate period) (pos_part rate) begun _ (last_time begun turns) _ (
        serve_all-Bucket begun turns 0 begun s limited order (absent no_key no_stamp (omega arith)))
